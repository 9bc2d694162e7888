-- ===== src/Iam/Sessions/Reuse.antt =====
-- A refresh token serves once, and using it again ends all sessions of its user.
use detailing_studio.Prelude.{
  ℕ, suc, ◌+◌, ◌≤◌, ◌≡◌, refl, ap, ◌∙◌, inl, inr, true, false, ◌&&◌, Option, none, some, List, [],
  ◌∷◌, ◌++◌, map, ◌==◌, ==_iff, if◌then◌else◌, any, sum_by-append, arith, subst, Bool-cases, err,
}
use detailing_studio.Iam.Session.{
  RefreshSession, holds, is_active, is_expired, rotate, mark_compromised,
}
use detailing_studio.Iam.Sessions.{
  SessionTable, GeneratedToken, UserSnapshot, refresh_token_reuse, find_active, find_by_token_hash,
  find_by_rotated_token_hash, was_rotated, save, compromise_row, compromise_all_by_user_id, refresh,
  refresh_found, reused,
}
use detailing_studio.Iam.Sessions.Laws.{holders, IsValid, find_active_split, put_split}

-- The row that a refresh leaves.
abbrev pub rotated_row : ℕ → ℕ → RefreshSession → RefreshSession
rotated_row now hash s = record (rotate now hash s) { events = [] }

any-append_self : (h : ℕ) (hs : List ℕ) → any (λ x. x == h) (hs ++ h ∷ []) ≡ true
any-append_self h [] = ground arith
any-append_self h (x ∷ hs) = ground (arith, any-append_self h hs)

any-append_other :
    (h g : ℕ) (hs : List ℕ)
    → any (λ x. x == h) (hs ++ g ∷ []) ≡ (if any (λ x. x == h) hs then true else g == h)
any-append_other h g [] = ground arith
any-append_other h g (x ∷ hs) = ground (arith, any-append_other h g hs)

rotated_row_lem :
    (now hash : ℕ) (s : RefreshSession)
    → is_active s.status ≡ true
    → (s.token_hash == hash) ≡ false
    → (is_active (rotated_row now hash s).status ≡ true)
      × ((rotated_row now hash s).token_hash ≡ hash)
      × (was_rotated s.token_hash (rotated_row now hash s) ≡ true)
      × ((rotated_row now hash s).user_id ≡ s.user_id)
      × ((rotated_row now hash s).id ≡ s.id)
unfolding rotate
rotated_row_lem now hash s live other = (
  rw (live, other) live,
  rw (live, other) refl,
  rw (live, other) (any-append_self s.token_hash s.rotated_token_hashes),
  rw (live, other) refl,
  rw (live, other) refl,
)

pub rotated-id : (now hash : ℕ) (s : RefreshSession) → (rotated_row now hash s).id ≡ s.id
unfolding rotate
rotated-id now hash s = ground arith

pub holds-rotated_row :
    (h now hash : ℕ) (s : RefreshSession)
    → is_active s.status ≡ true
    → (s.token_hash == hash) ≡ false
    → holds h (rotated_row now hash s) ≡ (if hash == h then true else holds h s)
unfolding rotate
holds-rotated_row h now hash s live other =
    rw (live, other) (ground (arith, any-append_other h s.token_hash s.rotated_token_hashes))

skip_by_token :
    (h : ℕ) (before rest : List RefreshSession)
    → holders h before ≡ 0
    → find_by_token_hash h (before ++ rest) ≡ find_by_token_hash h rest
unfolding find_active
skip_by_token h [] rest e = refl
skip_by_token h (x ∷ before) rest e = elim (Bool-cases (x.token_hash == h)) [
  | inl hit ↦ absurd (ground arith)
  | inr miss ↦
      let off : (is_active x.status && x.token_hash == h) ≡ false = ground arith in
      rw off (skip_by_token h before rest (ground arith))
]

skip_by_rotated :
    (h : ℕ) (before rest : List RefreshSession)
    → holders h before ≡ 0
    → find_by_rotated_token_hash h (before ++ rest) ≡ find_by_rotated_token_hash h rest
unfolding find_active
skip_by_rotated h [] rest e = refl
skip_by_rotated h (x ∷ before) rest e = elim (Bool-cases (was_rotated h x)) [
  | inl hit ↦ absurd (ground arith)
  | inr miss ↦
      let off : (is_active x.status && was_rotated h x) ≡ false = ground arith in
      rw off (skip_by_rotated h before rest (ground arith))
]

-- Nobody has the token: it is not found.
none_by_token :
    (h : ℕ) (ss : List RefreshSession) → holders h ss ≡ 0 → find_by_token_hash h ss ≡ none
unfolding find_active
none_by_token h [] e = refl
none_by_token h (x ∷ ss) e = elim (Bool-cases (x.token_hash == h)) [
  | inl hit ↦ absurd (ground arith)
  | inr miss ↦
      let off : (is_active x.status && x.token_hash == h) ≡ false = ground arith in
      rw off (none_by_token h ss (ground arith))
]

compromised_none :
    (user now : ℕ) (ss : List RefreshSession)
    → any (λ x. is_active x.status && x.user_id == user) (map (compromise_row user now) ss) ≡ false
unfolding mark_compromised
compromised_none user now [] = refl
compromised_none user now (s ∷ ss) =
    let off : (is_active (compromise_row user now s).status
          && (compromise_row user now s).user_id == user)
        ≡ false =
      one s in
    rw off (compromised_none user now ss)
  where
    one :
        (s : RefreshSession)
        → (is_active (compromise_row user now s).status
            && (compromise_row user now s).user_id == user)
          ≡ false
    one s = elim (Bool-cases (is_active s.status && s.user_id == user)) [
      | inl hit ↦ rw hit (ground arith)
      | inr miss ↦ rw miss miss
    ]

-- Where a row of the table has a token, no other row does.
pub alone :
    (h : ℕ) (before : List RefreshSession) (s : RefreshSession) (after : List RefreshSession)
    → holders h (before ++ s ∷ after) ≤ 1
    → holds h s ≡ true
    → (holders h before ≡ 0) × (holders h after ≡ 0)
alone h before s after one has =
    let parts = sum_by-append (λ x. if holds h x then 1 else 0) before (s ∷ after) in
    let this : (if holds h s then 1 else 0) ≡ suc 0 = rw has in
    (omega (arith, one, parts, this), omega (arith, one, parts, this))

pub holders-split :
    (h : ℕ) (before : List RefreshSession) (s : RefreshSession) (after : List RefreshSession)
    → holders h (before ++ s ∷ after)
      ≡ holders h before + (if holds h s then 1 else 0) + holders h after
holders-split h before s after =
    let parts = sum_by-append (λ x. if holds h x then 1 else 0) before (s ∷ after) in
    omega (arith, parts)

pub not_current :
    (h : ℕ) (before : List RefreshSession) (s : RefreshSession) (after : List RefreshSession)
    → holders h (before ++ s ∷ after) ≡ 0
    → (s.token_hash == h) ≡ false
not_current h before s after none_has = ground (arith, holders-split h before s after)

module _ (hash_fn : ℕ → ℕ) (find_user : ℕ → Option UserSnapshot) where
  -- What a refresh with a token that serves leaves in the table.
  pub refresh_table :
      (raw now : ℕ) (new : GeneratedToken) (t : SessionTable) (s : RefreshSession)
      → IsValid t.sessions
      → find_by_token_hash (hash_fn raw) t.sessions ≡ some s
      → is_expired now s ≡ false
      → (before after : List RefreshSession) × (t.sessions ≡ before ++ s ∷ after)
        × (is_active s.status ≡ true)
        × (s.token_hash ≡ hash_fn raw)
        × ((refresh hash_fn find_user raw now new t).0.sessions
            ≡ before ++ rotated_row now new.hash s ∷ after)
  unfolding refresh refresh_found save
  refresh_table raw now new t s v found live =
      let (before, after, e, on, passes) =
        find_active_split (λ x. x.token_hash == hash_fn raw) t.sessions s found in
      (
        before,
        after,
        e,
        on,
        (==_iff s.token_hash (hash_fn raw)).0 passes,
        rw found (
            rw live (
              rw e (
                put_split s (rotated_row now new.hash s) before after (same_id s)
                  (rw e at (v.one_row s.id))))),
      )
    where
      same_id : (s : RefreshSession) → (rotated_row now new.hash s).id ≡ s.id
      same_id s = rotated-id now new.hash s

  reuse_of_spent :
      (raw later : ℕ) (newer : GeneratedToken) (t : SessionTable) (before : List RefreshSession)
      (s : RefreshSession) (after : List RefreshSession)
      → t.sessions ≡ before ++ s ∷ after
      → holders (hash_fn raw) before ≡ 0
      → holders (hash_fn raw) after ≡ 0
      → (s.token_hash == hash_fn raw) ≡ false
      → is_active s.status ≡ true
      → was_rotated (hash_fn raw) s ≡ true
      → (refresh hash_fn find_user raw later newer t
          ≡ (compromise_all_by_user_id s.user_id later t, err (refresh_token_reuse s.id)))
  unfolding refresh refresh_found reused find_active
  reuse_of_spent raw later newer t before s after e nb na other on spent =
      let h = hash_fn raw in
      let off : (is_active s.status && s.token_hash == h) ≡ false = rw (on, other) in
      let hit : (is_active s.status && was_rotated h s) ≡ true = rw (on, spent) in
      let missed : find_by_token_hash h t.sessions ≡ none =
        rw e (skip_by_token h before (s ∷ after) nb ∙ rw off (none_by_token h after na)) in
      let found : find_by_rotated_token_hash h t.sessions ≡ some s =
        rw e (skip_by_rotated h before (s ∷ after) nb ∙ rw hit) in
      rw (missed, found)

  -- A token that has served is spent: after a refresh with it, a second refresh with it fails as a
  -- reuse and leaves the user of the session without any active session, where the ids and the
  -- tokens of the table are distinct and the new token is fresh.
  pub reuse_detected :
      (raw now later : ℕ) (new newer : GeneratedToken) (t : SessionTable) (s : RefreshSession)
      → IsValid t.sessions
      → holders new.hash t.sessions ≡ 0
      → find_by_token_hash (hash_fn raw) t.sessions ≡ some s
      → is_expired now s ≡ false
      → ((refresh hash_fn find_user raw later newer (refresh hash_fn find_user raw now new t).0).1
          ≡ err (refresh_token_reuse s.id))
        × (any
              (λ x. is_active x.status && x.user_id == s.user_id)
              (refresh hash_fn find_user raw later newer
                (refresh hash_fn find_user raw now new t).0).0.sessions
            ≡ false)
  unfolding compromise_all_by_user_id
  reuse_detected raw now later new newer t s v fresh found live =
      let (before, after, e, on, own, left) = refresh_table raw now new t s v found live in
      let t1 = (refresh hash_fn find_user raw now new t).0 in
      let h = hash_fn raw in
      let s' = rotated_row now new.hash s in
      let has : holds h s ≡ true = ground arith in
      let (nb, na) = alone h before s after (rw e at (v.one_holder h)) has in
      let other = not_current new.hash before s after (rw e at fresh) in
      let (on', current, spent, user, id) = rotated_row_lem now new.hash s on other in
      let other' : (s'.token_hash == h) ≡ false = ground arith in
      let spent' : was_rotated h s' ≡ true = subst (λ x. was_rotated x s' ≡ true) own spent in
      let again = reuse_of_spent raw later newer t1 before s' after left nb na other' on' spent' in
      (
        rw again (ap (λ n. err (refresh_token_reuse n)) id),
        rw again (rw user (compromised_none s.user_id later t1.sessions)),
      )
