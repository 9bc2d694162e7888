-- ===== src/Iam/Login/Guesses.antt =====
-- What a login with a wrong code leaves.
use detailing_studio.Prelude.{
  ℕ, ◌-◌, inl, inr, ◌≤◌, ◌≡◌, refl, ◌∙◌, true, false, ◌&&◌, Option, some, List, [], ◌∷◌, leb, ◌==◌,
  arith, Bool-cases, Result, ok, err,
}
use detailing_studio.Iam.Sessions.{
  GeneratedToken, otp_attempts_exceeded, otp_expired, otp_invalid_code, IamError, UserSnapshot,
  build_login_response, is_active_user,
}
use detailing_studio.Iam.Otp.{
  OtpRequest, OtpRequestStatus, pending, verified, failed, login_purpose, is_pending, is_verified,
  is_expired, reject, verify,
}
use detailing_studio.Iam.Otp.Laws.{Guess, all_wrong, verify_fresh}
use detailing_studio.Iam.Login.{
  LoginTable, find_pending_by_phone_and_purpose, login_by_phone_otp, verified_login, open_session,
  same_purpose,
}

pending_fresh : (status : OtpRequestStatus) → is_pending status ≡ true → is_verified status ≡ false
pending_fresh pending e = refl
pending_fresh verified e = absurd (cc)
pending_fresh failed e = refl

-- A request that is found is still pending.
found-fresh :
    (phone : ℕ) (rs : List OtpRequest) (r : OtpRequest)
    → find_pending_by_phone_and_purpose phone login_purpose rs ≡ some r
    → is_verified r.status ≡ false
unfolding find_pending_by_phone_and_purpose
found-fresh phone [] r found = absurd (cc)
found-fresh phone (x ∷ xs) r found =
    elim (Bool-cases
      (x.phone == phone && same_purpose x.purpose login_purpose && is_pending x.status)) [
        | inl hit ↦
            let same : x ≡ r = let found' = rw hit at found in cc in
            rw (← same) (pending_fresh x.status (ground arith))
        | inr miss ↦ found-fresh phone xs r (rw miss at found)
      ]

module _ (hash_fn : ℕ → ℕ) (find_by_phone : ℕ → Option UserSnapshot) where
  -- The table after a login with each of the codes.
  unfoldable pub login_all : ℕ → ℕ → GeneratedToken → List Guess → LoginTable → LoginTable
  login_all phone id new [] t = t
  login_all phone id new (g ∷ gs) t =
      login_all phone id new gs
        (login_by_phone_otp hash_fn find_by_phone phone g.code id new g.at t).0

  wrong_verify :
      (code now : ℕ) (r : OtpRequest)
      → is_verified r.status ≡ false
      → (hash_fn code == r.code_hash) ≡ false
      → (e : IamError) × ((verify hash_fn code now r).1 ≡ err e)
  unfolding verify reject
  wrong_verify code now r fresh wrong = elim (Bool-cases (leb r.attempts_left 0)) [
    | inl spent ↦ (otp_attempts_exceeded r.id, rw (fresh, spent) refl)
    | inr left ↦ elim (Bool-cases (is_expired now r)) [
      | inl late ↦ (otp_expired r.id, rw (fresh, left, late) refl)
      | inr live ↦ elim (Bool-cases (r.attempts_left - 1 == 0)) [
        | inl last ↦ (otp_attempts_exceeded r.id, rw (fresh, left, live, wrong, last) refl)
        | inr more ↦ (otp_invalid_code r.id, rw (fresh, left, live, wrong, more) refl)
      ]
    ]
  ]

  failed_login :
      (checked : OtpRequest × Result IamError (Unit {0})) (phone id now : ℕ) (new : GeneratedToken)
      (t : LoginTable) (e : IamError)
      → checked.1 ≡ err e
      → (verified_login hash_fn find_by_phone checked phone id new now t).0 ≡ t
  unfolding verified_login
  failed_login (r, err e) phone id now new t e' same = refl
  failed_login (r, ok u) phone id now new t e' same = absurd (cc)

  wrong_login :
      (phone code id now : ℕ) (new : GeneratedToken) (t : LoginTable) (r : OtpRequest)
      → find_pending_by_phone_and_purpose phone login_purpose t.requests ≡ some r
      → (hash_fn code == r.code_hash) ≡ false
      → (login_by_phone_otp hash_fn find_by_phone phone code id new now t).0 ≡ t
  unfolding login_by_phone_otp
  wrong_login phone code id now new t r found wrong =
      let (e, thrown) = wrong_verify code now r (found-fresh phone t.requests r found) wrong in
      rw found (failed_login (verify hash_fn code now r) phone id now new t e thrown)

  wrong_logins :
      (phone id : ℕ) (new : GeneratedToken) (gs : List Guess) (t : LoginTable) (r : OtpRequest)
      → find_pending_by_phone_and_purpose phone login_purpose t.requests ≡ some r
      → all_wrong hash_fn r.code_hash r.expires_at gs ≡ true
      → login_all phone id new gs t ≡ t
  unfolding login_all
  wrong_logins phone id new [] t r found wrong = refl
  wrong_logins phone id new (g ∷ gs) t r found wrong =
      let wrong_here : (hash_fn g.code == r.code_hash) ≡ false = ground arith in
      let rest : all_wrong hash_fn r.code_hash r.expires_at gs ≡ true = ground arith in
      rw (wrong_login phone g.code id g.at new t r found wrong_here)
        (wrong_logins phone id new gs t r found rest)

  opened :
      (checked : OtpRequest × Result IamError (Unit {0})) (phone id now : ℕ) (new : GeneratedToken)
      (t : LoginTable) (u : UserSnapshot)
      → checked.1 ≡ ok tt
      → find_by_phone phone ≡ some u
      → is_active_user u.status ≡ true
      → (verified_login hash_fn find_by_phone checked phone id new now t).1
        ≡ ok (build_login_response new.raw u)
  unfolding verified_login open_session
  opened (r, err e) phone id now new t u same has active = absurd (cc)
  opened (r, ok x) phone id now new t u same has active = rw (has, active) refl

  -- A login with a wrong code changes nothing that is stored, so the attempts of the code never run
  -- out: after any number of logins with wrong codes in time the table is what it was, and the right
  -- code still logs the active user in.
  pub wrong_logins_free :
      (phone id code now : ℕ) (new : GeneratedToken) (gs : List Guess) (t : LoginTable)
      (r : OtpRequest) (u : UserSnapshot)
      → find_pending_by_phone_and_purpose phone login_purpose t.requests ≡ some r
      → all_wrong hash_fn r.code_hash r.expires_at gs ≡ true
      → 1 ≤ r.attempts_left
      → hash_fn code ≡ r.code_hash
      → now ≤ r.expires_at
      → find_by_phone phone ≡ some u
      → is_active_user u.status ≡ true
      → (login_all phone id new gs t ≡ t)
        × ((login_by_phone_otp hash_fn find_by_phone phone code id new now
              (login_all phone id new gs t)).1
            ≡ ok (build_login_response new.raw u))
  unfolding login_by_phone_otp
  wrong_logins_free phone id code now new gs t r u found wrong left right on_time has active =
      let same = wrong_logins phone id new gs t r found wrong in
      let fresh = found-fresh phone t.requests r found in
      let some_left : (r.attempts_left == 0) ≡ false = ground arith in
      let passed : (verify hash_fn code now r).1 ≡ ok tt =
        verify_fresh hash_fn code now r fresh right on_time ∙ rw some_left refl in
      (
        same,
        rw same
            (rw found (opened (verify hash_fn code now r) phone id now new t u passed has active)),
      )
