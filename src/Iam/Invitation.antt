-- ===== src/Iam/Invitation.antt =====
-- libs/backend/iam/domain/src/invitation: invitation.aggregate.ts, invitation.events.ts and
-- invitation.errors.ts. A token and its hash are numbers, and the hash of a token is a parameter.
pub mod Lifecycle
use detailing_studio.Prelude.{
  ℕ, ◌+◌, ◌*◌, Bool, true, false, not, Option, none, some, List, [], ◌∷◌, ◌++◌, String, ltb, ◌==◌,
  if◌then◌else◌, Result, ok, err, throw_if, ◌>>=◌, ◌>>◌,
}
use detailing_studio.Iam.Sessions.{Role}
use detailing_studio.Iam.User.{to_set}

pub data InvitationStatus : Type 0 where
  pending accepted expired revoked : InvitationStatus

pub data InvitationError : Type 0 where
  invitation_expired invitation_already_accepted invitation_already_revoked : ℕ → InvitationError
  invalid_invitation_token : InvitationError

pub data InvitationEvent : Type 0 where
  invitation_issued : ℕ → String → Role → ℕ → InvitationStatus → ℕ → ℕ → InvitationEvent
  invitation_accepted : ℕ → ℕ → String → String → ℕ → InvitationEvent
  invitation_revoked : ℕ → ℕ → ℕ → InvitationEvent
  invitation_lapsed : ℕ → ℕ → InvitationEvent

pub record Invitation : Type 0 where
  pub id : ℕ
  pub email : String
  pub role : Role
  pub branch_ids : List ℕ
  pub token : ℕ
  pub status : InvitationStatus
  pub expires_at : ℕ
  pub invited_by : ℕ
  pub events : List InvitationEvent

abbrev add_event : InvitationEvent → Invitation → Invitation
add_event e i = record i { events = i.events ++ e ∷ [] }

abbrev default_invitation_hours : ℕ
default_invitation_hours = 72

abbrev expiry_or : Option ℕ → ℕ → ℕ
expiry_or none now = now + default_invitation_hours * 60 * 60 * 1000
expiry_or (some at) now = at

unfoldable pub issue : ℕ → ℕ → String → Role → List ℕ → Option ℕ → ℕ → ℕ → ℕ → Invitation
issue id issuer email role branch_ids expires_at token raw_token now =
    add_event (invitation_issued id email role issuer pending raw_token now) (record {
      id = id;
      email = email;
      role = role;
      branch_ids = to_set [] branch_ids;
      token = token;
      status = pending;
      expires_at = expiry_or expires_at now;
      invited_by = issuer;
      events = [];
    })

abbrev pub is_pending : InvitationStatus → Bool
is_pending pending = true
is_pending s = false

abbrev pub is_accepted : InvitationStatus → Bool
is_accepted accepted = true
is_accepted s = false

abbrev is_revoked : InvitationStatus → Bool
is_revoked revoked = true
is_revoked s = false

abbrev pub is_expired : ℕ → Invitation → Bool
is_expired now i = ltb i.expires_at now

unfoldable pub revoke : ℕ → ℕ → Invitation → Result InvitationError Invitation
revoke by now i = do
  throw_if (is_accepted i.status) (invitation_already_accepted i.id)
  throw_if (is_revoked i.status) (invitation_already_revoked i.id)
  ok (add_event (invitation_revoked i.id by now) (record i { status = revoked }))

unfoldable pub mark_expired : ℕ → Invitation → Invitation
mark_expired now i =
    if not (is_pending i.status)
    then i
    else if not (is_expired now i)
    then i
    else add_event (invitation_lapsed i.id now) (record i { status = expired })

module _ (hash_fn : ℕ → ℕ) where
  unfoldable pub accept :
      ℕ → ℕ → String → String → ℕ → Invitation → Result InvitationError Invitation
  accept raw_token phone password_hash full_name now i = do
    throw_if (is_accepted i.status) (invitation_already_accepted i.id)
    throw_if (not (is_pending i.status)) (invitation_already_accepted i.id)
    throw_if (is_expired now i) (invitation_expired i.id)
    throw_if (not (hash_fn raw_token == i.token)) invalid_invitation_token
    ok (
        add_event (invitation_accepted i.id phone password_hash full_name now)
          (record i { status = accepted }))
