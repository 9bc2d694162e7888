-- ===== src/Iam/Sessions.antt =====
-- libs/backend/iam: refresh-tokens.handler.ts and logout.handler.ts of the application, with
-- build-login-response.ts, over the table of sessions of iam-refresh-session.repository.ts. The port
-- that hashes a token is `hash_fn`, a generated token is an argument, and `find_user` is what the
-- repository of the users finds.
pub mod Laws
pub mod Reuse
pub mod History
use detailing_studio.Prelude.{
  ℕ, suc, ◌+◌, Bool, true, false, not, ◌&&◌, Option, none, some, List, [], ◌∷◌, ◌++◌, map, String,
  ◌==◌, if◌then◌else◌, any, Result, ok, err,
}
use detailing_studio.Iam.Session.{
  RefreshSession, SessionEvent, is_active, is_expired, issue, rotate, revoke, mark_compromised,
}

pub data Role : Type 0 where
  owner manager master client : Role

pub data UserStatus : Type 0 where
  pending_invitation active_user blocked archived : UserStatus

pub record UserSnapshot : Type 0 where
  pub id : ℕ
  pub phone : ℕ
  pub full_name : String
  pub role : Role
  pub branch_ids : List ℕ
  pub status : UserStatus

pub data IamError : Type 0 where
  session_expired refresh_token_reuse : ℕ → IamError
  session_not_found invalid_credentials otp_not_found : IamError
  otp_attempts_exceeded otp_expired otp_invalid_code : ℕ → IamError

-- In place of the access token that the issuer makes stands what it is given beside the user: the
-- branches.
pub record LoginResponse : Type 0 where
  pub refresh_token : ℕ
  pub user_id : ℕ
  pub full_name : String
  pub role : Role
  pub branches : List ℕ

pub record GeneratedToken : Type 0 where
  pub raw : ℕ
  pub hash : ℕ

-- The rows of the sessions and of the outbox.
pub record SessionTable : Type 0 where
  pub sessions : List RefreshSession
  pub outbox : List SessionEvent

-- `findOne` with `status: ACTIVE` and the test of the row.
unfoldable pub find_active : (RefreshSession → Bool) → List RefreshSession → Option RefreshSession
find_active test [] = none
find_active test (s ∷ ss) = if is_active s.status && test s then some s else find_active test ss

abbrev pub find_by_token_hash : ℕ → List RefreshSession → Option RefreshSession
find_by_token_hash hash = find_active (λ s. s.token_hash == hash)

abbrev pub was_rotated : ℕ → RefreshSession → Bool
was_rotated hash s = any (λ h. h == hash) s.rotated_token_hashes

abbrev pub find_by_rotated_token_hash : ℕ → List RefreshSession → Option RefreshSession
find_by_rotated_token_hash hash = find_active (was_rotated hash)

-- The row of the id is overwritten, or a new one is added.
unfoldable pub put : RefreshSession → List RefreshSession → List RefreshSession
put s [] = s ∷ []
put s (x ∷ xs) = if x.id == s.id then s ∷ xs else x ∷ put s xs

-- `save`, which moves the events to the outbox.
unfoldable pub save : RefreshSession → SessionTable → SessionTable
save s t = record {
  sessions = put (record s { events = [] }) t.sessions;
  outbox = t.outbox ++ s.events;
}

abbrev pub compromise_row : ℕ → ℕ → RefreshSession → RefreshSession
compromise_row user now s =
    if is_active s.status && s.user_id == user
    then record (mark_compromised now s) { events = [] }
    else s

abbrev pub compromise_events : ℕ → ℕ → List RefreshSession → List SessionEvent
compromise_events user now [] = []
compromise_events user now (s ∷ ss) =
    if is_active s.status && s.user_id == user
    then (mark_compromised now s).events ++ compromise_events user now ss
    else compromise_events user now ss

unfoldable pub compromise_all_by_user_id : ℕ → ℕ → SessionTable → SessionTable
compromise_all_by_user_id user now t = record {
  sessions = map (compromise_row user now) t.sessions;
  outbox = t.outbox ++ compromise_events user now t.sessions;
}

abbrev pub is_active_user : UserStatus → Bool
is_active_user active_user = true
is_active_user s = false

abbrev pub build_login_response : ℕ → UserSnapshot → LoginResponse
build_login_response refresh_token u = record {
  refresh_token = refresh_token;
  user_id = u.id;
  full_name = u.full_name;
  role = u.role;
  branches = u.branch_ids;
}

-- `buildResponse`, with the user that was found.
abbrev response_for : ℕ → Option UserSnapshot → Result IamError LoginResponse
response_for token none = err invalid_credentials
response_for token (some u) =
    if is_active_user u.status then ok (build_login_response token u) else err invalid_credentials

module _ (hash_fn : ℕ → ℕ) (find_user : ℕ → Option UserSnapshot) where
  -- A token that no active session has: it may have been rotated out.
  unfoldable pub reused :
      Option RefreshSession → ℕ → SessionTable → SessionTable × Result IamError LoginResponse
  reused none now t = (t, err session_not_found)
  reused (some s) now t =
      (compromise_all_by_user_id s.user_id now t, err (refresh_token_reuse s.id))

  unfoldable pub refresh_found :
      Option RefreshSession
      → ℕ
      → ℕ
      → GeneratedToken
      → SessionTable
      → SessionTable × Result IamError LoginResponse
  unfolding reused
  refresh_found none hash now new t = reused (find_by_rotated_token_hash hash t.sessions) now t
  refresh_found (some s) hash now new t =
      if is_expired now s
      then (t, err (session_expired s.id))
      else (save (rotate now new.hash s) t, response_for new.raw (find_user s.user_id))

  -- `execute` of the handler, at the time of the clock and with the token of the generator.
  unfoldable pub refresh :
      ℕ → ℕ → GeneratedToken → SessionTable → SessionTable × Result IamError LoginResponse
  unfolding refresh_found
  refresh raw now new t =
      refresh_found (find_by_token_hash (hash_fn raw) t.sessions) (hash_fn raw) now new t

  abbrev revoke_found :
      Option RefreshSession → ℕ → ℕ → SessionTable → SessionTable × Result IamError (Unit {0})
  revoke_found none by now t = (t, err session_not_found)
  revoke_found (some s) by now t = (save (revoke by now s) t, ok tt)

  unfoldable pub logout : ℕ → ℕ → ℕ → SessionTable → SessionTable × Result IamError (Unit {0})
  logout raw by now t = revoke_found (find_by_token_hash (hash_fn raw) t.sessions) by now t
