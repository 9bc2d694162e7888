-- ===== src/Iam/Otp/Laws.antt =====
-- The attempts of a code, on one object in memory.
use detailing_studio.Prelude.{
  ℕ, ◌+◌, ◌-◌, ◌≤◌, ◌≡◌, refl, sym, ◌∙◌, inl, inr, Bool, true, false, ◌&&◌, not, List, [], ◌∷◌,
  length, ltb, leb, ◌==◌, ==_iff, if◌then◌else◌, arith, Bool-cases, ok, err,
}
use detailing_studio.Iam.Sessions.{otp_attempts_exceeded}
use detailing_studio.Iam.Otp.{OtpRequest, is_verified, is_expired, reject, verify}

-- A code and the time it is tried at.
pub record Guess : Type 0 where
  pub code : ℕ
  pub at : ℕ

module _ (hash_fn : ℕ → ℕ) where
  -- Every guess is wrong and in time.
  abbrev pub all_wrong : ℕ → ℕ → List Guess → Bool
  all_wrong code_hash expires_at [] = true
  all_wrong code_hash expires_at (g ∷ gs) =
      not (hash_fn g.code == code_hash)
      && not (ltb expires_at g.at)
      && all_wrong code_hash expires_at gs

  -- The object after the guesses.
  unfoldable pub guess_all : List Guess → OtpRequest → OtpRequest
  guess_all [] r = r
  guess_all (g ∷ gs) r = guess_all gs (verify hash_fn g.code g.at r).0

  wrong_guess :
      (g : Guess) (r : OtpRequest)
      → is_verified r.status ≡ false
      → 1 ≤ r.attempts_left
      → (hash_fn g.code == r.code_hash) ≡ false
      → ltb r.expires_at g.at ≡ false
      → ((verify hash_fn g.code g.at r).0.attempts_left ≡ r.attempts_left - 1)
        × (is_verified (verify hash_fn g.code g.at r).0.status ≡ false)
        × ((verify hash_fn g.code g.at r).0.code_hash ≡ r.code_hash)
        × ((verify hash_fn g.code g.at r).0.expires_at ≡ r.expires_at)
        × ((verify hash_fn g.code g.at r).0.id ≡ r.id)
  unfolding verify reject
  wrong_guess g r fresh some_left wrong on_time =
      let left : leb r.attempts_left 0 ≡ false = ground arith in
      rw (fresh, left, on_time, wrong)
        (
          refl,
          elim (Bool-cases (r.attempts_left - 1 == 0)) [ inl z ↦ rw z | inr z ↦ rw z ],
          refl,
          refl,
          refl,
        )

  after_guesses :
      (gs : List Guess) (r : OtpRequest)
      → is_verified r.status ≡ false
      → length gs ≤ r.attempts_left
      → all_wrong r.code_hash r.expires_at gs ≡ true
      → ((guess_all gs r).attempts_left + length gs ≡ r.attempts_left)
        × (is_verified (guess_all gs r).status ≡ false)
        × ((guess_all gs r).code_hash ≡ r.code_hash)
        × ((guess_all gs r).expires_at ≡ r.expires_at)
        × ((guess_all gs r).id ≡ r.id)
  unfolding guess_all
  after_guesses [] r fresh few wrong = (omega arith, fresh, refl, refl, refl)
  after_guesses (g ∷ gs) r fresh few wrong =
      let wrong_here : (hash_fn g.code == r.code_hash) ≡ false = ground arith in
      let on_time : ltb r.expires_at g.at ≡ false = ground arith in
      let rest : all_wrong r.code_hash r.expires_at gs ≡ true = ground arith in
      let (fewer, fresh', same_hash, same_end, same_id) =
        wrong_guess g r fresh (omega (arith, few)) wrong_here on_time in
      let few' : length gs ≤ (verify hash_fn g.code g.at r).0.attempts_left =
        omega (arith, fewer, few) in
      let (total, last, hash', end', id') =
        after_guesses gs (verify hash_fn g.code g.at r).0 fresh' few'
          (rw (same_hash, same_end) rest) in
      (omega (arith, total, fewer, few), last, hash' ∙ same_hash, end' ∙ same_end, id' ∙ same_id)

  pub verify_fresh :
      (code now : ℕ) (r : OtpRequest)
      → is_verified r.status ≡ false
      → hash_fn code ≡ r.code_hash
      → now ≤ r.expires_at
      → (verify hash_fn code now r).1
        ≡ (if r.attempts_left == 0 then err (otp_attempts_exceeded r.id) else ok tt)
  unfolding verify
  verify_fresh code now r fresh right on_time =
      let in_time : is_expired now r ≡ false = ground arith in
      let code_right : (hash_fn code == r.code_hash) ≡ true =
        (==_iff (hash_fn code) r.code_hash).1 right in
      elim (Bool-cases (r.attempts_left == 0)) [
        | inl none_left ↦
            let zero_left : leb r.attempts_left 0 ≡ true = ground arith in
            rw (none_left, fresh, zero_left) refl
        | inr more ↦
            let some_left : leb r.attempts_left 0 ≡ false = ground arith in
            rw (more, fresh, some_left, in_time, code_right) refl
      ]

  -- A code that was not verified yet survives fewer wrong guesses in time than it has attempts: the
  -- right code is then accepted in time. With as many wrong guesses as it has attempts, the right
  -- code is refused too.
  pub attempts_run_out :
      (gs : List Guess) (r : OtpRequest) (code now : ℕ)
      → is_verified r.status ≡ false
      → length gs ≤ r.attempts_left
      → all_wrong r.code_hash r.expires_at gs ≡ true
      → hash_fn code ≡ r.code_hash
      → now ≤ r.expires_at
      → (verify hash_fn code now (guess_all gs r)).1
        ≡ (if length gs == r.attempts_left then err (otp_attempts_exceeded r.id) else ok tt)
  attempts_run_out gs r code now fresh few wrong right on_time =
      let (total, fresh', same_hash, same_end, same_id) = after_guesses gs r fresh few wrong in
      let left : ((guess_all gs r).attempts_left == 0) ≡ (length gs == r.attempts_left) =
        ground (arith, total) in
      verify_fresh code now (guess_all gs r) fresh' (right ∙ sym same_hash) (rw same_end on_time)
      ∙ rw (left, same_id) refl
