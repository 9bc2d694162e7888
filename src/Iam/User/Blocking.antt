-- ===== src/Iam/User/Blocking.antt =====
-- What the guard of the last owner lets through.
use detailing_studio.Prelude.{
  ℕ, ◌≡◌, refl, arith, Bool, true, false, ◌&&◌, some, List, [], ◌∷◌, ◌++◌, String, ◌==◌, leb, any,
  ok, err, ◌>>=◌,
}
use detailing_studio.Iam.Sessions.{blocked, is_active_user, active_user}
use detailing_studio.Iam.User.{
  User, UserEvent, user_blocked, UserTable, is_owner, find_user, count_owners, put_user,
  block_with_owner_guard, block_user, cannot_block_last_owner,
}

-- The users who can log in and own the studio.
abbrev pub active_owners : List User → Bool
active_owners = any (λ u. is_owner u.role && is_active_user u.status)

-- The only owner is not blocked, whatever the status of the row.
pub last_owner_stays :
    (u : User) (others : List User) (events : List UserEvent) (by now : ℕ) (reason : String)
    → is_owner u.role ≡ true
    → count_owners others ≡ 0
    → block_user u.id by reason now (record { users = u ∷ others; outbox = events })
      ≡ err (cannot_block_last_owner u.id)
unfolding block_user find_user count_owners block_with_owner_guard
last_owner_stays u others events by now reason owns none_else =
    let same : (u.id == u.id) ≡ true = ground arith in rw (same, owns, none_else) refl

-- The row that blocking leaves, and the events that it adds.
abbrev blocked_row : ℕ → User → User
blocked_row now u = record u { status = blocked; updated_at = some now; events = [] }

abbrev blocked_events : ℕ → String → ℕ → User → List UserEvent
blocked_events by reason now u = u.events ++ user_blocked u.id by reason now ∷ []

block_first :
    (u : User) (rest : List User) (events : List UserEvent) (by now : ℕ) (reason : String)
    → is_owner u.role ≡ true
    → u.status ≡ active_user
    → leb (count_owners (u ∷ rest)) 1 ≡ false
    → block_user u.id by reason now (record { users = u ∷ rest; outbox = events })
      ≡ ok (record {
        users = blocked_row now u ∷ rest;
        outbox = events ++ blocked_events by reason now u;
      })
unfolding block_user find_user block_with_owner_guard put_user
block_first u rest events by now reason owns on more =
    let same : (u.id == u.id) ≡ true = ground arith in rw (same, more, owns, on, same) refl

block_second :
    (x u : User) (rest : List User) (events : List UserEvent) (by now : ℕ) (reason : String)
    → is_owner u.role ≡ true
    → u.status ≡ active_user
    → (x.id == u.id) ≡ false
    → leb (count_owners (x ∷ u ∷ rest)) 1 ≡ false
    → block_user u.id by reason now (record { users = x ∷ u ∷ rest; outbox = events })
      ≡ ok (record {
        users = x ∷ blocked_row now u ∷ rest;
        outbox = events ++ blocked_events by reason now u;
      })
unfolding block_user find_user block_with_owner_guard put_user
block_second x u rest events by now reason owns on apart more =
    let same : (u.id == u.id) ≡ true = ground arith in
    rw (apart, same, more, owns, on, apart, same) refl

-- Two active owners can be blocked one after the other, so that nobody is left who owns the studio and
-- can log in: the handler counts the owners that are blocked already.
pub both_owners_blocked :
    (a b : User) (others : List User) (events : List UserEvent) (by now later : ℕ) (reason : String)
    → is_owner a.role ≡ true
    → is_owner b.role ≡ true
    → a.status ≡ active_user
    → b.status ≡ active_user
    → (a.id == b.id) ≡ false
    → active_owners others ≡ false
    → (t : UserTable) × ((block_user a.id by reason now
            (record { users = a ∷ b ∷ others; outbox = events })
          >>= block_user b.id by reason later)
        ≡ ok t)
      × (active_owners t.users ≡ false)
unfolding count_owners
both_owners_blocked a b others events by now later reason owns_a owns_b on_a on_b apart rest =
    let first =
      block_first a (b ∷ others) events by now reason owns_a on_a
        (rw (owns_a, owns_b) (ground arith)) in
    let second =
      block_second (blocked_row now a) b others (events ++ blocked_events by reason now a) by later
        reason owns_b on_b apart (rw (owns_a, owns_b) (ground arith)) in
    (
      record {
        users = blocked_row now a ∷ blocked_row later b ∷ others;
        outbox = (events ++ blocked_events by reason now a) ++ blocked_events by reason later b;
      },
      rw first second,
      rw (owns_a, owns_b) rest,
    )
