-- ===== src/Iam/Otp.antt =====
-- libs/backend/iam/domain/src/otp-request: otp-request.aggregate.ts, otp-request-status.ts,
-- otp-purpose.ts and otp-request.events.ts. A phone, a code and its hash are numbers, and so is a
-- time in milliseconds. The hash of a code is a parameter.
pub mod Laws
use detailing_studio.Prelude.{
  ℕ, ◌+◌, ◌-◌, ◌*◌, Bool, true, false, Option, none, some, List, [], ◌∷◌, ◌++◌, ltb, leb, ◌==◌,
  if◌then◌else◌, Result, ok, err,
}
use detailing_studio.Iam.Sessions.{IamError, otp_attempts_exceeded, otp_expired, otp_invalid_code}

pub data OtpPurpose : Type 0 where
  login_purpose phone_verification : OtpPurpose

pub data OtpRequestStatus : Type 0 where
  pending verified failed : OtpRequestStatus

pub data OtpEvent : Type 0 where
  otp_request_issued : ℕ → ℕ → OtpPurpose → ℕ → ℕ → OtpEvent
  otp_request_verified : ℕ → ℕ → OtpEvent
  otp_request_failed : ℕ → ℕ → ℕ → OtpEvent

pub record OtpRequest : Type 0 where
  pub id : ℕ
  pub phone : ℕ
  pub purpose : OtpPurpose
  pub code_hash : ℕ
  pub status : OtpRequestStatus
  pub attempts_left : ℕ
  pub expires_at : ℕ
  pub issued_at : ℕ
  pub verified_at : Option ℕ
  pub events : List OtpEvent

abbrev add_event : OtpEvent → OtpRequest → OtpRequest
add_event e r = record r { events = r.events ++ e ∷ [] }

abbrev pub default_otp_ttl_minutes : ℕ
default_otp_ttl_minutes = 5

abbrev pub default_otp_attempts : ℕ
default_otp_attempts = 5

abbrev expiry_or : Option ℕ → ℕ → ℕ
expiry_or none now = now + default_otp_ttl_minutes * 60 * 1000
expiry_or (some at) now = at

abbrev attempts_or : Option ℕ → ℕ
attempts_or none = default_otp_attempts
attempts_or (some n) = n

unfoldable pub request : ℕ → ℕ → OtpPurpose → ℕ → ℕ → Option ℕ → Option ℕ → ℕ → OtpRequest
request id phone purpose code_hash raw_code expires_at attempts_left now = record {
  id = id;
  phone = phone;
  purpose = purpose;
  code_hash = code_hash;
  status = pending;
  attempts_left = attempts_or attempts_left;
  expires_at = expiry_or expires_at now;
  issued_at = now;
  verified_at = none;
  events = otp_request_issued id phone purpose raw_code now ∷ [];
}

abbrev pub is_pending : OtpRequestStatus → Bool
is_pending pending = true
is_pending s = false

abbrev pub is_verified : OtpRequestStatus → Bool
is_verified verified = true
is_verified s = false

abbrev pub is_expired : ℕ → OtpRequest → Bool
is_expired now r = ltb r.expires_at now

-- The object after a wrong code, and what `verify` throws then.
unfoldable pub reject : ℕ → OtpRequest → OtpRequest × Result IamError (Unit {0})
reject now r =
    let left = r.attempts_left - 1 in
    (
      add_event (otp_request_failed r.id left now)
          (record r { attempts_left = left; status = if left == 0 then failed else pending }),
      if left == 0 then err (otp_attempts_exceeded r.id) else err (otp_invalid_code r.id),
    )

module _ (hash_fn : ℕ → ℕ) where
  -- The object that `verify` leaves and its result, also where it throws.
  unfoldable pub verify : ℕ → ℕ → OtpRequest → OtpRequest × Result IamError (Unit {0})
  verify raw_code now r =
      if is_verified r.status
      then (r, ok tt)
      else if leb r.attempts_left 0
      then (r, err (otp_attempts_exceeded r.id))
      else if is_expired now r
      then (r, err (otp_expired r.id))
      else if hash_fn raw_code == r.code_hash
      then (
        add_event (otp_request_verified r.id now)
            (record r { status = verified; verified_at = some now }),
        ok tt,
      )
      else reject now r
