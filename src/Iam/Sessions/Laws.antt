-- ===== src/Iam/Sessions/Laws.antt =====
-- The table of sessions: where a row is found and what `save` does to it.
use detailing_studio.Prelude.{
  ℕ, ◌≤◌, ◌≡◌, refl, ap, inl, inr, Bool, true, false, ◌&&◌, some, List, [], ◌∷◌, ◌++◌, ◌==◌,
  if◌then◌else◌, sum_by, sum_by-append, arith, Bool-cases,
}
use detailing_studio.Iam.Session.{RefreshSession, holds, is_active}
use detailing_studio.Iam.Sessions.{find_active, put}

-- How many rows have, or had, the token.
abbrev pub holders : ℕ → List RefreshSession → ℕ
holders hash = sum_by (λ s. if holds hash s then 1 else 0)

abbrev pub rows : ℕ → List RefreshSession → ℕ
rows id = sum_by (λ s. if s.id == id then 1 else 0)

-- No two rows share a token, also one that was rotated out, or an id, and no session has had its
-- present token before.
pub record IsValid (ss : List RefreshSession) : Type 0 where
  pub one_holder : (hash : ℕ) → holders hash ss ≤ 1
  pub one_row : (id : ℕ) → rows id ss ≤ 1

-- A row that is found splits the table.
pub find_active_split :
    (test : RefreshSession → Bool) (ss : List RefreshSession) (s : RefreshSession)
    → find_active test ss ≡ some s
    → (before after : List RefreshSession) × (ss ≡ before ++ s ∷ after)
      × (is_active s.status ≡ true)
      × (test s ≡ true)
unfolding find_active
find_active_split test [] s h = absurd (cc)
find_active_split test (x ∷ xs) s h = elim (Bool-cases (is_active x.status && test x)) [
  | inl hit ↦
      let same : x ≡ s = let h' = rw hit at h in cc in
      (
        [],
        xs,
        rw same,
        rw (← same) (left (is_active x.status) (test x) hit),
        rw (← same) (right (is_active x.status) (test x) hit),
      )
  | inr miss ↦
      let (before, after, e, live, passes) = find_active_split test xs s (rw miss at h) in
      (x ∷ before, after, ap (λ ys. x ∷ ys) e, live, passes)
]
  where
    left : (a b : Bool) → (a && b) ≡ true → a ≡ true
    left true b h = refl
    left false b h = absurd (cc)

    right : (a b : Bool) → (a && b) ≡ true → b ≡ true
    right true b h = h
    right false b h = absurd (cc)

-- A row saved again under its id takes its place.
pub put_split :
    (s s' : RefreshSession) (before after : List RefreshSession)
    → s'.id ≡ s.id
    → rows s.id (before ++ s ∷ after) ≤ 1
    → put s' (before ++ s ∷ after) ≡ before ++ s' ∷ after
unfolding put
put_split s s' [] after same one = let own : (s.id == s'.id) ≡ true = ground arith in rw own
put_split s s' (x ∷ before) after same one =
    let again = sum_by-append (λ y. if y.id == s.id then 1 else 0) before (s ∷ after) in
    let other : (x.id == s'.id) ≡ false = ground (arith, again) in
    rw (other, put_split s s' before after same (ground arith))
