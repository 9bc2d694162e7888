-- ===== src/Iam/Session.antt =====
-- libs/backend/iam/domain/src/refresh-session: refresh-session.aggregate.ts, refresh-session-status.ts
-- and refresh-session.events.ts. A hash of a token is a number, and so is a time in milliseconds.
use detailing_studio.Prelude.{
  ℕ, ◌+◌, ◌*◌, Bool, true, false, Option, none, some, List, [], ◌∷◌, ◌++◌, ltb, ◌==◌, if◌then◌else◌,
  any,
}

pub data RefreshSessionStatus : Type 0 where
  active revoked compromised : RefreshSessionStatus

pub data SessionEvent : Type 0 where
  refresh_session_compromised : ℕ → ℕ → SessionEvent
  refresh_session_issued refresh_session_revoked : ℕ → ℕ → ℕ → SessionEvent
  refresh_session_rotated : ℕ → ℕ → ℕ → ℕ → SessionEvent

pub record RefreshSession : Type 0 where
  pub id : ℕ
  pub user_id : ℕ
  pub token_hash : ℕ
  pub rotated_token_hashes : List ℕ
  pub rotation_counter : ℕ
  pub status : RefreshSessionStatus
  pub issued_at : ℕ
  pub expires_at : ℕ
  pub last_rotated_at : Option ℕ
  pub revoked_at : Option ℕ
  pub revoked_by : Option ℕ
  pub compromised_at : Option ℕ
  pub events : List SessionEvent

abbrev add_event : SessionEvent → RefreshSession → RefreshSession
add_event e s = record s { events = s.events ++ e ∷ [] }

abbrev pub default_refresh_session_days : ℕ
default_refresh_session_days = 30

abbrev expiry_or : Option ℕ → ℕ → ℕ
expiry_or none now = now + default_refresh_session_days * 24 * 60 * 60 * 1000
expiry_or (some at) now = at

unfoldable pub issue : ℕ → ℕ → Option ℕ → ℕ → ℕ → RefreshSession
issue id user_id expires_at token_hash now = record {
  id = id;
  user_id = user_id;
  token_hash = token_hash;
  rotated_token_hashes = [];
  rotation_counter = 0;
  status = active;
  issued_at = now;
  expires_at = expiry_or expires_at now;
  last_rotated_at = none;
  revoked_at = none;
  revoked_by = none;
  compromised_at = none;
  events = refresh_session_issued id user_id now ∷ [];
}

abbrev pub is_active : RefreshSessionStatus → Bool
is_active active = true
is_active s = false

abbrev is_revoked : RefreshSessionStatus → Bool
is_revoked revoked = true
is_revoked s = false

abbrev is_compromised : RefreshSessionStatus → Bool
is_compromised compromised = true
is_compromised s = false

unfoldable pub rotate : ℕ → ℕ → RefreshSession → RefreshSession
rotate now new_token_hash s =
    if is_active s.status
    then (if s.token_hash == new_token_hash
        then s
        else add_event (refresh_session_rotated s.id s.token_hash new_token_hash now) (record s {
          rotated_token_hashes = s.rotated_token_hashes ++ s.token_hash ∷ [];
          token_hash = new_token_hash;
          rotation_counter = s.rotation_counter + 1;
          last_rotated_at = some now;
        }))
    else s

unfoldable pub revoke : ℕ → ℕ → RefreshSession → RefreshSession
revoke by now s =
    if is_revoked s.status
    then s
    else add_event (refresh_session_revoked s.id by now)
        (record s { status = revoked; revoked_at = some now; revoked_by = some by })

unfoldable pub mark_compromised : ℕ → RefreshSession → RefreshSession
mark_compromised now s =
    if is_compromised s.status
    then s
    else add_event (refresh_session_compromised s.id now)
        (record s { status = compromised; compromised_at = some now })

abbrev pub is_expired : ℕ → RefreshSession → Bool
is_expired now s = ltb s.expires_at now

-- The session has, or had, the token.
abbrev pub holds : ℕ → RefreshSession → Bool
holds hash s = if s.token_hash == hash then true else any (λ h. h == hash) s.rotated_token_hashes
