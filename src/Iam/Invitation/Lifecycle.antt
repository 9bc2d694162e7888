-- ===== src/Iam/Invitation/Lifecycle.antt =====
-- The life of an invitation, over all its methods.
use detailing_studio.Prelude.{
  ℕ, ◌≡◌, refl, ◌∙◌, arith, Bool, true, false, Option, List, [], ◌∷◌, String, if◌then◌else◌, Result,
  ok, sum_by, sum_by-append,
}
use detailing_studio.Iam.Sessions.{Role}
use detailing_studio.Iam.Invitation.{
  Invitation, InvitationEvent, InvitationError, InvitationStatus, invitation_accepted,
  invitation_revoked, invitation_lapsed, is_accepted, issue, accept, revoke, mark_expired,
}

pub data Command : Type 0 where
  accepts : ℕ → ℕ → String → String → ℕ → Command
  revokes : ℕ → ℕ → Command
  marks_expired : ℕ → Command

-- How many events say that the invitation was accepted.
abbrev is_acceptance : InvitationEvent → Bool
is_acceptance (invitation_accepted id phone password_hash full_name now) = true
is_acceptance e = false

abbrev pub acceptances : List InvitationEvent → ℕ
acceptances = sum_by (λ e. if is_acceptance e then 1 else 0)

abbrev pub once : InvitationStatus → ℕ
once s = if is_accepted s then 1 else 0

module _ (hash_fn : ℕ → ℕ) where
  unfoldable pub run_command : Command → Invitation → Result InvitationError Invitation
  run_command (accepts raw phone password_hash full_name now) i =
      accept hash_fn raw phone password_hash full_name now i
  run_command (revokes by now) i = revoke by now i
  run_command (marks_expired now) i = ok (mark_expired now i)

  pub data Reach (i : Invitation) : Invitation → Type 0 where
    here : Reach i i
    next : {j k : Invitation} (c : Command) → Reach i j → run_command c j ≡ ok k → Reach i k

  step_once :
      (c : Command) (i : Invitation) {j : Invitation}
      → run_command c i ≡ ok j
      → acceptances i.events ≡ once i.status
      → (acceptances j.events ≡ once j.status) × (j.token ≡ i.token)
  unfolding run_command accept revoke mark_expired
  step_once (accepts raw phone password_hash full_name now) i e h = ground (
    arith,
    sum_by-append (λ x. if is_acceptance x then 1 else 0) i.events
        (invitation_accepted i.id phone password_hash full_name now ∷ []),
  )
  step_once (revokes by now) i e h = ground (
    arith,
    sum_by-append (λ x. if is_acceptance x then 1 else 0) i.events
        (invitation_revoked i.id by now ∷ []),
  )
  step_once (marks_expired now) i e h = ground (
    arith,
    sum_by-append (λ x. if is_acceptance x then 1 else 0) i.events
        (invitation_lapsed i.id now ∷ []),
  )

  past_once :
      {i j : Invitation}
      → Reach i j
      → acceptances i.events ≡ once i.status
      → (acceptances j.events ≡ once j.status) × (j.token ≡ i.token)
  past_once here h = (h, refl)
  past_once (next c past e) h =
      let (before, token) = past_once past h in
      let (after, token') = step_once c _ e before in (after, token' ∙ token)

  -- After any calls on an issued invitation it has recorded one acceptance where it is accepted, and
  -- none where it is not, so it is accepted at most once; its token is the one that it was issued with.
  pub accepted_once :
      (id issuer : ℕ) (email : String) (role : Role) (branch_ids : List ℕ) (expires_at : Option ℕ)
      (token raw_token now : ℕ) {j : Invitation}
      → Reach (issue id issuer email role branch_ids expires_at token raw_token now) j
      → (acceptances j.events ≡ once j.status) × (j.token ≡ token)
  unfolding issue
  accepted_once id issuer email role branch_ids expires_at token raw_token now past =
      past_once past refl
