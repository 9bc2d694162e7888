-- ===== src/Iam/Sessions/History.antt =====
-- The tokens and the ids of the sessions stay distinct over any history of the handlers.
use detailing_studio.Prelude.{
  ℕ, suc, ◌+◌, ◌≤◌, ◌≡◌, refl, ◌∙◌, inl, inr, Bool, true, false, ◌&&◌, Option, none, some, List, [],
  ◌∷◌, ◌++◌, map, ◌==◌, ==_iff, if◌then◌else◌, sum_by-append, arith, subst, Bool-cases,
  Option-cases,
}
use detailing_studio.Iam.Session.{
  RefreshSession, holds, is_active, is_expired, revoke, mark_compromised, issue,
}
use detailing_studio.Iam.Sessions.{
  SessionTable, GeneratedToken, UserSnapshot, find_active, find_by_token_hash,
  find_by_rotated_token_hash, put, save, compromise_row, compromise_all_by_user_id, refresh,
  refresh_found, reused, logout,
}
use detailing_studio.Iam.Sessions.Laws.{holders, rows, IsValid, find_active_split, put_split}
use detailing_studio.Iam.Sessions.Reuse.{
  rotated_row, rotated-id, holds-rotated_row, not_current, holders-split, refresh_table,
}

put_new :
    (s : RefreshSession) (ss : List RefreshSession) → rows s.id ss ≡ 0 → put s ss ≡ ss ++ s ∷ []
unfolding put
put_new s [] e = refl
put_new s (x ∷ ss) e =
    let other : (x.id == s.id) ≡ false = ground arith in rw (other, put_new s ss (ground arith))

rows-split :
    (id : ℕ) (before : List RefreshSession) (s : RefreshSession) (after : List RefreshSession)
    → rows id (before ++ s ∷ after) ≡ rows id before + (if s.id == id then 1 else 0) + rows id after
rows-split id before s after =
    let parts = sum_by-append (λ x. if x.id == id then 1 else 0) before (s ∷ after) in
    omega (arith, parts)

-- Rows that hold the same tokens under the same ids.
holders-compromise :
    (h user now : ℕ) (ss : List RefreshSession)
    → holders h (map (compromise_row user now) ss) ≡ holders h ss
unfolding mark_compromised
holders-compromise h user now [] = refl
holders-compromise h user now (s ∷ ss) = omega (arith, holders-compromise h user now ss, one s)
  where
    one :
        (s : RefreshSession)
        → (if holds h (compromise_row user now s) then suc 0 else 0)
          ≡ (if holds h s then suc 0 else 0)
    one s = elim (Bool-cases (is_active s.status && s.user_id == user)) [
      | inl hit ↦ rw hit (ground arith)
      | inr miss ↦ rw miss
    ]

rows-compromise :
    (id user now : ℕ) (ss : List RefreshSession)
    → rows id (map (compromise_row user now) ss) ≡ rows id ss
unfolding mark_compromised
rows-compromise id user now [] = refl
rows-compromise id user now (s ∷ ss) = omega (arith, rows-compromise id user now ss, one s)
  where
    one :
        (s : RefreshSession)
        → (if (compromise_row user now s).id == id then suc 0 else 0)
          ≡ (if s.id == id then suc 0 else 0)
    one s = elim (Bool-cases (is_active s.status && s.user_id == user)) [
      | inl hit ↦ rw hit (ground arith)
      | inr miss ↦ rw miss
    ]

-- A row replaced by one that holds its tokens and at most one fresh token more.
replace-IsValid :
    (new : ℕ) (before : List RefreshSession) (s s' : RefreshSession) (after : List RefreshSession)
    → IsValid (before ++ s ∷ after)
    → s'.id ≡ s.id
    → ((h : ℕ) → holds h s' ≡ (if new == h then true else holds h s))
    → holders new (before ++ s ∷ after) ≡ 0
    → IsValid (before ++ s' ∷ after)
replace-IsValid new before s s' after v same more fresh = record {
  one_holder = λ h. holder h;
  one_row = λ id.
      rw (rows-split id before s' after)
        (rw same (rw (← rows-split id before s after) (v.one_row id)));
}
  where
    holder : (h : ℕ) → holders h (before ++ s' ∷ after) ≤ 1
    holder h = elim (Bool-cases (new == h)) [
      | inl hit ↦
          let same_hash : new ≡ h = (==_iff new h).0 hit in
          let none_has : holders h (before ++ s ∷ after) ≡ 0 = rw (← same_hash) fresh in
          let parts = holders-split h before s after in
          let parts' = holders-split h before s' after in
          let bound : (if holds h s' then suc 0 else 0) ≤ 1 = ground arith in
          omega (arith, none_has, parts, parts', bound)
      | inr miss ↦
          let keeps : holds h s' ≡ holds h s = more h ∙ rw miss in
          rw (holders-split h before s' after)
            (rw keeps (rw (← holders-split h before s after) (v.one_holder h)))
    ]

append-IsValid :
    (s : RefreshSession) (ss : List RefreshSession)
    → IsValid ss
    → rows s.id ss ≡ 0
    → holders s.token_hash ss ≡ 0
    → s.rotated_token_hashes ≡ []
    → IsValid (ss ++ s ∷ [])
append-IsValid s ss v no_row no_holder never = record {
  one_holder = λ h. holder h;
  one_row = λ i. row i;
}
  where
    holds_one : (h : ℕ) → holds h s ≡ (s.token_hash == h)
    holds_one h = rw never (ground arith)

    holder : (h : ℕ) → holders h (ss ++ s ∷ []) ≤ 1
    holder h =
        let parts = holders-split h ss s [] in
        elim (Bool-cases (s.token_hash == h)) [
          | inl hit ↦
              let same : s.token_hash ≡ h = (==_iff s.token_hash h).0 hit in
              let none_has : holders h ss ≡ 0 = rw (← same) no_holder in
              let bound : (if holds h s then suc 0 else 0) ≤ 1 = ground arith in
              omega (arith, none_has, parts, bound)
          | inr miss ↦
              let off : (if holds h s then suc 0 else 0) ≡ 0 = rw (holds_one h, miss) in
              let old = v.one_holder h in omega (arith, parts, off, old)
        ]

    row : (i : ℕ) → rows i (ss ++ s ∷ []) ≤ 1
    row i =
        let parts = rows-split i ss s [] in
        elim (Bool-cases (s.id == i)) [
          | inl hit ↦
              let same : s.id ≡ i = (==_iff s.id i).0 hit in
              let none_has : rows i ss ≡ 0 = rw (← same) no_row in
              let bound : (if s.id == i then suc 0 else 0) ≤ 1 = ground arith in
              omega (arith, none_has, parts, bound)
          | inr miss ↦
              let off : (if s.id == i then suc 0 else 0) ≡ 0 = rw miss in
              let old = v.one_row i in omega (arith, parts, off, old)
        ]

compromise-IsValid :
    (user now : ℕ) (t : SessionTable)
    → IsValid t.sessions
    → IsValid (compromise_all_by_user_id user now t).sessions
unfolding compromise_all_by_user_id
compromise-IsValid user now t v = record {
  one_holder = λ h. rw (holders-compromise h user now t.sessions) (v.one_holder h);
  one_row = λ i. rw (rows-compromise i user now t.sessions) (v.one_row i);
}

-- A row that keeps its id and its tokens is saved.
save-IsValid :
    (test : RefreshSession → Bool) (s s' : RefreshSession) (t : SessionTable)
    → IsValid t.sessions
    → find_active test t.sessions ≡ some s
    → s'.id ≡ s.id
    → ((h : ℕ) → holds h s' ≡ holds h s)
    → IsValid (save s' t).sessions
unfolding save
save-IsValid test s s' t v found same keeps =
    let (before, after, e, on, passes) = find_active_split test t.sessions s found in
    let v' = subst (λ ss. IsValid ss) e v in
    rw e (
      rw (put_split s (record s' { events = [] }) before after same (v'.one_row s.id)) (record {
        one_holder = λ h.
            rw (holders-split h before (record s' { events = [] }) after)
              (rw (keeps h) (rw (← holders-split h before s after) (v'.one_holder h)));
        one_row = λ i.
            rw (rows-split i before (record s' { events = [] }) after)
              (rw same (rw (← rows-split i before s after) (v'.one_row i)));
      }))

module _ (hash_fn : ℕ → ℕ) (find_user : ℕ → Option UserSnapshot) where
  -- The ways in which the table changes: a session is issued at a login, a token is refreshed, a
  -- session is logged out. Ids and tokens that are generated are fresh.
  pub data SessionStep (t : SessionTable) : SessionTable → Type 0 where
    logs_in :
        (id user now : ℕ) (new : GeneratedToken)
        → rows id t.sessions ≡ 0
        → holders new.hash t.sessions ≡ 0
        → SessionStep t (save (issue id user none new.hash now) t)
    refreshes :
        (raw now : ℕ) (new : GeneratedToken)
        → holders new.hash t.sessions ≡ 0
        → SessionStep t (refresh hash_fn find_user raw now new t).0
    logs_out : (raw by now : ℕ) → SessionStep t (logout hash_fn find_user raw by now t).0

  pub data SessionReach (t : SessionTable) : SessionTable → Type 0 where
    here : SessionReach t t
    next : {u v : SessionTable} → SessionReach t u → SessionStep u v → SessionReach t v

  login-IsValid :
      (id user now : ℕ) (new : GeneratedToken) (t : SessionTable)
      → IsValid t.sessions
      → rows id t.sessions ≡ 0
      → holders new.hash t.sessions ≡ 0
      → IsValid (save (issue id user none new.hash now) t).sessions
  unfolding save issue
  login-IsValid id user now new t v no_row no_holder =
      let s = record (issue id user none new.hash now) { events = [] } in
      rw (put_new s t.sessions no_row) (append-IsValid s t.sessions v no_row no_holder refl)

  reused-IsValid :
      (found : Option RefreshSession) (now : ℕ) (t : SessionTable)
      → IsValid t.sessions
      → IsValid (reused hash_fn find_user found now t).0.sessions
  unfolding reused
  reused-IsValid none now t v = v
  reused-IsValid (some s) now t v = compromise-IsValid s.user_id now t v

  missing-IsValid :
      (raw now : ℕ) (new : GeneratedToken) (t : SessionTable)
      → IsValid t.sessions
      → find_by_token_hash (hash_fn raw) t.sessions ≡ none
      → IsValid (refresh hash_fn find_user raw now new t).0.sessions
  unfolding refresh refresh_found
  missing-IsValid raw now new t v missed =
      rw missed (reused-IsValid (find_by_rotated_token_hash (hash_fn raw) t.sessions) now t v)

  expired-IsValid :
      (raw now : ℕ) (new : GeneratedToken) (t : SessionTable) (s : RefreshSession)
      → IsValid t.sessions
      → find_by_token_hash (hash_fn raw) t.sessions ≡ some s
      → is_expired now s ≡ true
      → IsValid (refresh hash_fn find_user raw now new t).0.sessions
  unfolding refresh refresh_found
  expired-IsValid raw now new t s v found late = rw (found, late) v

  rotated-IsValid :
      (raw now : ℕ) (new : GeneratedToken) (t : SessionTable) (s : RefreshSession)
      → IsValid t.sessions
      → holders new.hash t.sessions ≡ 0
      → find_by_token_hash (hash_fn raw) t.sessions ≡ some s
      → is_expired now s ≡ false
      → IsValid (refresh hash_fn find_user raw now new t).0.sessions
  rotated-IsValid raw now new t s v fresh found live =
      let (before, after, e, on, own, left) =
        refresh_table hash_fn find_user raw now new t s v found live in
      let fresh' = rw e at fresh in
      let other = not_current new.hash before s after fresh' in
      rw left (
        replace-IsValid new.hash before s (rotated_row now new.hash s) after
          (subst (λ ss. IsValid ss) e v) (rotated-id now new.hash s)
          (λ h. holds-rotated_row h now new.hash s on other) fresh')

  refresh-IsValid :
      (raw now : ℕ) (new : GeneratedToken) (t : SessionTable)
      → IsValid t.sessions
      → holders new.hash t.sessions ≡ 0
      → IsValid (refresh hash_fn find_user raw now new t).0.sessions
  refresh-IsValid raw now new t v fresh =
      elim (Option-cases (find_by_token_hash (hash_fn raw) t.sessions)) [
        | inl missed ↦ missing-IsValid raw now new t v missed
        | inr (s, found) ↦ elim (Bool-cases (is_expired now s)) [
          | inl late ↦ expired-IsValid raw now new t s v found late
          | inr live ↦ rotated-IsValid raw now new t s v fresh found live
        ]
      ]

  revoked-holds : (h by now : ℕ) (s : RefreshSession) → holds h (revoke by now s) ≡ holds h s
  unfolding revoke
  revoked-holds h by now s = ground arith

  revoked-id : (by now : ℕ) (s : RefreshSession) → (revoke by now s).id ≡ s.id
  unfolding revoke
  revoked-id by now s = ground arith

  logout-IsValid :
      (raw by now : ℕ) (t : SessionTable)
      → IsValid t.sessions
      → IsValid (logout hash_fn find_user raw by now t).0.sessions
  unfolding logout
  logout-IsValid raw by now t v =
      elim (Option-cases (find_by_token_hash (hash_fn raw) t.sessions)) [
        | inl missed ↦ rw missed v
        | inr (s, found) ↦ rw found (
            save-IsValid (λ x. x.token_hash == hash_fn raw) s (revoke by now s) t v found
              (revoked-id by now s) (λ h. revoked-holds h by now s))
      ]

  step-IsValid : {t u : SessionTable} → SessionStep t u → IsValid t.sessions → IsValid u.sessions
  step-IsValid (logs_in id user now new no_row fresh) v =
      login-IsValid id user now new _ v no_row fresh
  step-IsValid (refreshes raw now new fresh) v = refresh-IsValid raw now new _ v fresh
  step-IsValid (logs_out raw by now) v = logout-IsValid raw by now _ v

  -- Over any history of logins, refreshes and logouts, in any order and with fresh ids and tokens,
  -- no two sessions share an id, and no two sessions share a token, those rotated out included.
  pub reach-IsValid :
      {t u : SessionTable} → SessionReach t u → IsValid t.sessions → IsValid u.sessions
  reach-IsValid here v = v
  reach-IsValid (next past step) v = step-IsValid step (reach-IsValid past v)
