-- ===== src/Iam/Login.antt =====
-- libs/backend/iam/application: request-otp.handler.ts and login-by-phone-otp.handler.ts, over the
-- table of the requests of iam-otp-request.repository.ts, newest first. The port that sends the code
-- and the issuer of the access token are left out.
pub mod Guesses
use detailing_studio.Prelude.{
  ℕ, ◌+◌, Bool, true, false, not, ◌&&◌, Option, none, some, List, [], ◌∷◌, ◌++◌, ◌==◌,
  if◌then◌else◌, Result, ok, err,
}
use detailing_studio.Iam.Session.{issue}
use detailing_studio.Iam.Sessions.{
  SessionTable, GeneratedToken, IamError, UserSnapshot, LoginResponse, UserStatus, active_user,
  otp_not_found, invalid_credentials, save, build_login_response, is_active_user,
}
use detailing_studio.Iam.Otp.{
  OtpRequest, OtpEvent, OtpPurpose, login_purpose, phone_verification, is_pending, request, verify,
}

-- The rows of the requests, the newest first, the sessions, and the outbox of the requests.
pub record LoginTable : Type 0 where
  pub requests : List OtpRequest
  pub sessions : SessionTable
  pub otp_outbox : List OtpEvent

abbrev same_purpose : OtpPurpose → OtpPurpose → Bool
same_purpose login_purpose login_purpose = true
same_purpose phone_verification phone_verification = true
same_purpose p q = false

unfoldable pub find_pending_by_phone_and_purpose :
    ℕ → OtpPurpose → List OtpRequest → Option OtpRequest
find_pending_by_phone_and_purpose phone purpose [] = none
find_pending_by_phone_and_purpose phone purpose (r ∷ rs) =
    if r.phone == phone && same_purpose r.purpose purpose && is_pending r.status
    then some r
    else find_pending_by_phone_and_purpose phone purpose rs

unfoldable pub has_request : ℕ → List OtpRequest → Bool
has_request id [] = false
has_request id (r ∷ rs) = if r.id == id then true else has_request id rs

unfoldable pub replace_request : OtpRequest → List OtpRequest → List OtpRequest
replace_request r [] = []
replace_request r (x ∷ xs) = if x.id == r.id then r ∷ xs else x ∷ replace_request r xs

-- A row of the id is overwritten where it is; a new row is the newest.
abbrev put_request : OtpRequest → List OtpRequest → List OtpRequest
put_request r rs = if has_request r.id rs then replace_request r rs else r ∷ rs

unfoldable pub save_request : OtpRequest → LoginTable → LoginTable
save_request r t = record t {
  requests = put_request (record r { events = [] }) t.requests;
  otp_outbox = t.otp_outbox ++ r.events;
}

-- `execute` of the handler of a request: the id and the code are generated.
unfoldable pub request_otp : ℕ → ℕ → ℕ → ℕ → ℕ → LoginTable → LoginTable
request_otp phone id raw hash now t =
    save_request (request id phone login_purpose hash raw none none now) t

module _ (hash_fn : ℕ → ℕ) (find_by_phone : ℕ → Option UserSnapshot) where
  -- After the code was verified: the session of the user that the phone belongs to.
  unfoldable pub open_session :
      Option UserSnapshot
      → ℕ
      → GeneratedToken
      → ℕ
      → LoginTable
      → LoginTable × Result IamError LoginResponse
  open_session none id new now t = (t, err invalid_credentials)
  open_session (some u) id new now t =
      if is_active_user u.status
      then (
        record t { sessions = save (issue id u.id none new.hash now) t.sessions },
        ok (build_login_response new.raw u),
      )
      else (t, err invalid_credentials)

  -- What follows `verify`, which may have thrown.
  unfoldable pub verified_login :
      OtpRequest × Result IamError (Unit {0})
      → ℕ
      → ℕ
      → GeneratedToken
      → ℕ
      → LoginTable
      → LoginTable × Result IamError LoginResponse
  verified_login (r, err e) phone id new now t = (t, err e)
  verified_login (r, ok u) phone id new now t =
      open_session (find_by_phone phone) id new now (save_request r t)

  abbrev found_login :
      Option OtpRequest
      → ℕ
      → ℕ
      → ℕ
      → GeneratedToken
      → ℕ
      → LoginTable
      → LoginTable × Result IamError LoginResponse
  found_login none phone code id new now t = (t, err otp_not_found)
  found_login (some r) phone code id new now t =
      verified_login (verify hash_fn code now r) phone id new now t

  -- `execute` of the handler of a login; the id of the session and its token are generated.
  unfoldable pub login_by_phone_otp :
      ℕ → ℕ → ℕ → GeneratedToken → ℕ → LoginTable → LoginTable × Result IamError LoginResponse
  login_by_phone_otp phone code id new now t =
      found_login (find_pending_by_phone_and_purpose phone login_purpose t.requests) phone code id
        new now t
