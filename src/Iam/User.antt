-- ===== src/Iam/User.antt =====
-- libs/backend/iam/domain/src/user: user.aggregate.ts, user.events.ts and user.errors.ts; and
-- block-user.handler.ts of the application, over the table of iam-user.repository.ts. An e-mail address,
-- a hash of a password and a phone are taken as they were parsed; a phone and a branch are numbers.
pub mod Blocking
use detailing_studio.Prelude.{
  ℕ, suc, ◌+◌, Bool, true, false, not, ◌&&◌, Option, none, some, List, [], ◌∷◌, ◌++◌, String, ◌==◌,
  leb, if◌then◌else◌, any, Result, ok, err, throw_if, ◌>>=◌, ◌>>◌,
}
use detailing_studio.Iam.Sessions.{
  Role, owner, manager, master, client, UserStatus, pending_invitation, active_user, blocked,
  archived, is_active_user,
}

pub data UserEvent : Type 0 where
  user_registered : ℕ → String → Role → UserStatus → ℕ → UserEvent
  user_activated user_password_changed : ℕ → ℕ → UserEvent
  user_blocked : ℕ → ℕ → String → ℕ → UserEvent
  user_unblocked user_archived : ℕ → ℕ → ℕ → UserEvent

pub data UserError : Type 0 where
  user_already_blocked user_not_active cannot_archive_last_owner cannot_block_last_owner
        user_not_found :
      ℕ → UserError

pub record User : Type 0 where
  pub id : ℕ
  pub email : String
  pub phone : ℕ
  pub password_hash : Option String
  pub full_name : String
  pub role : Role
  pub branch_ids : List ℕ
  pub status : UserStatus
  pub created_at : ℕ
  pub updated_at : Option ℕ
  pub events : List UserEvent

abbrev add_event : UserEvent → User → User
add_event e u = record u { events = u.events ++ e ∷ [] }

abbrev has : ℕ → List ℕ → Bool
has n = any (λ x. x == n)

-- `new Set` of an array: each value where it first stands.
abbrev add_new : ℕ → List ℕ → List ℕ
add_new n seen = if has n seen then seen else seen ++ n ∷ []

unfoldable pub to_set : List ℕ → List ℕ → List ℕ
to_set seen [] = seen
to_set seen (n ∷ ns) = to_set (add_new n seen) ns

abbrev initial_status : Role → UserStatus
initial_status owner = active_user
initial_status client = active_user
initial_status manager = pending_invitation
initial_status master = pending_invitation

unfoldable pub register : ℕ → String → ℕ → Option String → String → Role → List ℕ → ℕ → User
register id email phone password_hash full_name role branch_ids now =
    add_event (user_registered id email role (initial_status role) now) (record {
      id = id;
      email = email;
      phone = phone;
      password_hash = password_hash;
      full_name = full_name;
      role = role;
      branch_ids = to_set [] branch_ids;
      status = initial_status role;
      created_at = now;
      updated_at = none;
      events = [];
    })

unfoldable pub activate_from_invitation :
    ℕ → String → ℕ → Option String → String → Role → List ℕ → ℕ → User
activate_from_invitation id email phone password_hash full_name role branch_ids now =
    add_event (user_activated id now) (
      add_event (user_registered id email role active_user now) (record {
        id = id;
        email = email;
        phone = phone;
        password_hash = password_hash;
        full_name = full_name;
        role = role;
        branch_ids = to_set [] branch_ids;
        status = active_user;
        created_at = now;
        updated_at = some now;
        events = [];
      }))

abbrev ensure_active : User → Result UserError (Unit {0})
ensure_active u = throw_if (not (is_active_user u.status)) (user_not_active u.id)

abbrev touch : ℕ → User → User
touch now u = record u { updated_at = some now }

abbrev pub is_owner : Role → Bool
is_owner owner = true
is_owner r = false

abbrev is_blocked : UserStatus → Bool
is_blocked blocked = true
is_blocked s = false

unfoldable pub change_password : String → ℕ → User → Result UserError User
change_password new_hash now u = do
  ensure_active u
  ok (
      add_event (user_password_changed u.id now)
        (touch now (record u { password_hash = some new_hash })))

unfoldable pub block_with_owner_guard : ℕ → String → ℕ → Bool → User → Result UserError User
block_with_owner_guard by reason now is_last_owner u = do
  throw_if (is_owner u.role && is_last_owner) (cannot_block_last_owner u.id)
  throw_if (is_blocked u.status) (user_already_blocked u.id)
  ensure_active u
  ok (add_event (user_blocked u.id by reason now) (touch now (record u { status = blocked })))

abbrev pub block : ℕ → String → ℕ → User → Result UserError User
block by reason now u = block_with_owner_guard by reason now false u

unfoldable pub unblock : ℕ → ℕ → User → Result UserError User
unblock by now u = do
  throw_if (not (is_blocked u.status)) (user_not_active u.id)
  ok (add_event (user_unblocked u.id by now) (touch now (record u { status = active_user })))

unfoldable pub archive : ℕ → ℕ → Bool → User → Result UserError User
archive by now is_last_owner u = do
  throw_if (is_owner u.role && is_last_owner) (cannot_archive_last_owner u.id)
  ok (add_event (user_archived u.id by now) (touch now (record u { status = archived })))

unfoldable pub assign_to_branch : ℕ → ℕ → User → User
assign_to_branch branch now u =
    if has branch u.branch_ids
    then u
    else touch now (record u { branch_ids = u.branch_ids ++ branch ∷ [] })

unfoldable pub without : ℕ → List ℕ → List ℕ
without n [] = []
without n (x ∷ xs) = if x == n then xs else x ∷ without n xs

unfoldable pub remove_from_branch : ℕ → ℕ → User → User
remove_from_branch branch now u =
    if has branch u.branch_ids
    then touch now (record u { branch_ids = without branch u.branch_ids })
    else u

abbrev no_branches : List ℕ → Bool
no_branches [] = true
no_branches (b ∷ bs) = false

unfoldable pub can_access_branch : ℕ → User → Bool
can_access_branch branch u =
    if is_owner u.role && no_branches u.branch_ids then true else has branch u.branch_ids

-- The rows of the users, and the outbox.
pub record UserTable : Type 0 where
  pub users : List User
  pub outbox : List UserEvent

unfoldable pub find_user : ℕ → List User → Option User
find_user id [] = none
find_user id (u ∷ us) = if u.id == id then some u else find_user id us

-- The owners of any status.
unfoldable pub count_owners : List User → ℕ
count_owners [] = 0
count_owners (u ∷ us) = (if is_owner u.role then 1 else 0) + count_owners us

unfoldable pub put_user : User → List User → List User
put_user u [] = u ∷ []
put_user u (x ∷ xs) = if x.id == u.id then u ∷ xs else x ∷ put_user u xs

abbrev pub save_user : User → UserTable → UserTable
save_user u t = record {
  users = put_user (record u { events = [] }) t.users;
  outbox = t.outbox ++ u.events;
}

abbrev block_found : Option User → ℕ → ℕ → String → ℕ → UserTable → Result UserError UserTable
block_found none id by reason now t = err (user_not_found id)
block_found (some u) id by reason now t = do
  u' ← block_with_owner_guard by reason now (is_owner u.role && leb (count_owners t.users) 1) u
  ok (save_user u' t)

-- `execute` of the handler.
unfoldable pub block_user : ℕ → ℕ → String → ℕ → UserTable → Result UserError UserTable
block_user id by reason now t = block_found (find_user id t.users) id by reason now t
