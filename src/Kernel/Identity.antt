-- ===== src/Kernel/Identity.antt =====
-- crates/kernel/src/identity.rs: users and service accounts
pub mod Roles
pub mod Disabled
use text.Mathlib.Text.{starts_with}
use latent_db.Prelude.{
  ℕ, String, Bool, true, false, not, ◌&&◌, ◌||◌, Option, none, some, List, [], ◌∷◌, select,
  update_where, any, sort_by, str_leb, ◌==◌, if◌then◌else◌, leb, byte_len, has_space, split_on,
  str_contains, strip_suffix, is_none,
}
use latent_db.Contracts.Json.{Value, string, object, array, Items, nil, item, from_map}
use latent_db.Contracts.Error.{Result, ok, err, panic, validation, not_found, failed_precondition}
use latent_db.Contracts.Auth.{AuthContext}
use latent_db.Contracts.Permission.{Action}
use latent_db.Kernel.Host.{Kernel}
use latent_db.Kernel.Store.{Db, UserRow, ServiceAccountRow, RoleAssignment, insert_row}
use latent_db.Kernel.Exec.{
  Exec, ◌>>=◌, ◌>>◌, pure, lift, or_raise, ensure, fresh_id, current_time, query, execute,
  transaction,
}
use latent_db.Kernel.Audit.{event_from, insert_audit}
use latent_db.Kernel.Rbac.{authorize}
use latent_db.Kernel.Crypto.{validate_password_strength, hash_password}
use latent_db.Kernel.Principals.{normalize_email, is_user, find_user, roles_for_principal}
use latent_db.Kernel.Auth.Logout.{revoke_sessions_for_user}

pub record User : Type 0 where
  pub id : String
  pub tenant_id : String
  pub email : String
  pub name : String
  pub status : String
  pub is_platform_admin : Bool
  pub default_org_id : Option String
  pub role_keys : List String
  pub created_at : String

pub record ServiceAccount : Type 0 where
  pub id : String
  pub tenant_id : String
  pub org_id : String
  pub name : String
  pub status : String
  pub role_keys : List String
  pub created_at : String

-- The pattern `[local, domain]` of `validate_email`, with its guards.
abbrev has_mail_shape : List String → Bool
has_mail_shape (local ∷ domain ∷ []) =
    not (local == "")
    && (str_contains domain "."
        && (not (starts_with domain ".") && is_none (strip_suffix domain ".")))
has_mail_shape parts = false

-- 64 is the code of the character that splits the local part from the domain.
unfoldable pub validate_email : String → Result (Unit {0})
validate_email email =
    if leb (byte_len email) 254 && (not (has_space email) && has_mail_shape (split_on 64 email))
    then ok tt
    else err (validation "invalid email address")

unfoldable pub add_user : UserRow → Db → Result Db
add_user row db =
    elim (insert_row (λ x. x.id == row.id || (x.tenant_id == row.tenant_id && x.email == row.email))
      row db.accounts.users) [
        | ok rows ↦ ok (record db { accounts = record db.accounts { users = rows } })
        | err e ↦ err e
        | panic ↦ panic
      ]

abbrev pub is_assignment : RoleAssignment → RoleAssignment → Bool
is_assignment row x =
    x.id == row.id
    || (x.tenant_id == row.tenant_id
        && (x.principal_id == row.principal_id && x.role_key == row.role_key))

unfoldable pub add_assignment : RoleAssignment → Db → Result Db
add_assignment row db = elim (insert_row (is_assignment row) row db.accounts.role_assignments) [
  | ok rows ↦ ok (record db { accounts = record db.accounts { role_assignments = rows } })
  | err e ↦ err e
  | panic ↦ panic
]

abbrev pub new_assignment :
    AuthContext → String → String → String → String → String → RoleAssignment
new_assignment ctx principal_type principal_id key id now = record {
  id = id;
  tenant_id = ctx.tenant_id;
  principal_type = principal_type;
  principal_id = principal_id;
  role_key = key;
  org_id = some ctx.org_id;
  created_at = now;
}

-- The loop over the role keys of a new principal.
unfoldable pub assign_roles :
    Kernel → AuthContext → String → String → String → List String → Exec (Unit {0})
unfolding add_assignment
assign_roles k ctx principal_type principal_id now [] = pure tt
assign_roles k ctx principal_type principal_id now (key ∷ keys) = do
  id ← fresh_id k
  execute k (add_assignment (new_assignment ctx principal_type principal_id key id now))
  assign_roles k ctx principal_type principal_id now keys

abbrev strings : List String → Items
strings [] = nil
strings (s ∷ rest) = item (string s) (strings rest)

abbrev pub new_user : AuthContext → String → String → String → String → String → UserRow
new_user ctx id email name password_hash now = record {
  id = id;
  tenant_id = ctx.tenant_id;
  email = email;
  name = name;
  password_hash = password_hash;
  status = "active";
  is_platform_admin = false;
  default_org_id = some ctx.org_id;
  created_at = now;
}

-- The transaction of `create_user`.
unfoldable pub store_user : Kernel → AuthContext → UserRow → List String → Exec (Unit {0})
unfolding add_user assign_roles
store_user k ctx row role_keys = transaction k (do
  execute k (add_user row)
  assign_roles k ctx "user" row.id row.created_at role_keys
  ev ← event_from k ctx "user.create" (some "user") (some row.id) none (
      some (
        object
          (from_map (("email", string row.email) ∷ ("roles", array (strings role_keys)) ∷ []))))
  insert_audit k ev)

unfoldable pub row_to_user : UserRow → List String → User
row_to_user row role_keys = record {
  id = row.id;
  tenant_id = row.tenant_id;
  email = row.email;
  name = row.name;
  status = row.status;
  is_platform_admin = row.is_platform_admin;
  default_org_id = row.default_org_id;
  role_keys = role_keys;
  created_at = row.created_at;
}

unfoldable pub create_user :
    Kernel → AuthContext → String → String → String → List String → Exec User
unfolding validate_email store_user
create_user k ctx email name password role_keys = do
  authorize k ctx Action.configure "admin:users" none
  lift (validate_email (normalize_email k email))
  lift (validate_password_strength password)
  id ← fresh_id k
  now ← current_time k
  password_hash ← hash_password k password
  store_user k ctx (new_user ctx id (normalize_email k email) name password_hash now) role_keys
  pure (row_to_user (new_user ctx id (normalize_email k email) name password_hash now) role_keys)

unfoldable pub with_roles : Kernel → String → List UserRow → Exec (List User)
unfolding row_to_user
with_roles k tenant_id [] = pure []
with_roles k tenant_id (row ∷ rows) = do
  role_keys ← roles_for_principal k tenant_id row.id
  users ← with_roles k tenant_id rows
  pure (row_to_user row role_keys ∷ users)

unfoldable pub list_users : Kernel → AuthContext → Exec (List User)
unfolding with_roles
list_users k ctx = do
  authorize k ctx Action.read "admin:users" none
  rows ← query k λ db.
      sort_by (λ a b. str_leb a.created_at b.created_at)
        (select (λ u. u.tenant_id == ctx.tenant_id) db.accounts.users)
  with_roles k ctx.tenant_id rows

unfoldable pub get_user : Kernel → AuthContext → String → Exec User
unfolding row_to_user
get_user k ctx id = do
  authorize k ctx Action.read "admin:users" none
  found ← query k (find_user ctx.tenant_id id)
  row ← or_raise found (not_found "user not found")
  role_keys ← roles_for_principal k ctx.tenant_id id
  pure (row_to_user row role_keys)

unfoldable pub set_status : String → String → String → Db → Db
set_status tenant_id id status db = record db {
  accounts = record db.accounts {
    users =
        update_where (is_user tenant_id id) (λ u. record u { status = status }) db.accounts.users;
  };
}

-- The transaction of `set_user_status`.
unfoldable pub store_user_status : Kernel → AuthContext → String → String → String → Exec (Unit {0})
unfolding set_status
store_user_status k ctx id before status = transaction k (do
  execute k (λ db. ok (set_status ctx.tenant_id id status db))
  ev ←
      event_from k ctx "user.set_status" (some "user") (some id)
        (some (object (from_map (("status", string before) ∷ []))))
        (some (object (from_map (("status", string status) ∷ []))))
  insert_audit k ev)

abbrev revoke_unless : Kernel → AuthContext → String → Bool → Exec (Unit {0})
revoke_unless k ctx id true = pure tt
revoke_unless k ctx id false = do revoked ← revoke_sessions_for_user k ctx.tenant_id id; pure tt

unfoldable pub set_user_status : Kernel → AuthContext → String → String → Exec User
unfolding get_user store_user_status
set_user_status k ctx id status = do
  authorize k ctx Action.configure "admin:users" none
  ensure (status == "active" || status == "disabled")
      (validation "status must be 'active' or 'disabled'")
  ensure (not (id == ctx.actor_id && not (status == "active")))
      (failed_precondition "you cannot disable your own account")
  before ← get_user k ctx id
  store_user_status k ctx id before.status status
  revoke_unless k ctx id (status == "active")
  get_user k ctx id

unfoldable pub add_service_account : ServiceAccountRow → Db → Result Db
add_service_account row db =
    elim (insert_row (λ x. x.id == row.id) row db.accounts.service_accounts) [
      | ok rows ↦ ok (record db { accounts = record db.accounts { service_accounts = rows } })
      | err e ↦ err e
      | panic ↦ panic
    ]

abbrev new_service_account : AuthContext → String → String → String → ServiceAccountRow
new_service_account ctx id name now = record {
  id = id;
  tenant_id = ctx.tenant_id;
  org_id = ctx.org_id;
  name = name;
  status = "active";
  created_at = now;
}

-- The transaction of `create_service_account`.
unfoldable pub store_service_account :
    Kernel → AuthContext → ServiceAccountRow → List String → Exec (Unit {0})
unfolding add_service_account assign_roles
store_service_account k ctx row role_keys = transaction k (do
  execute k (add_service_account row)
  assign_roles k ctx "service_account" row.id row.created_at role_keys
  ev ←
      event_from k ctx "service_account.create" (some "service_account") (some row.id) none
        (some (object (from_map (("name", string row.name) ∷ []))))
  insert_audit k ev)

unfoldable pub create_service_account :
    Kernel → AuthContext → String → List String → Exec ServiceAccount
unfolding store_service_account
create_service_account k ctx name role_keys = do
  authorize k ctx Action.configure "admin:users" none
  id ← fresh_id k
  now ← current_time k
  store_service_account k ctx (new_service_account ctx id name now) role_keys
  pure (record {
    id = id;
    tenant_id = ctx.tenant_id;
    org_id = ctx.org_id;
    name = name;
    status = "active";
    role_keys = role_keys;
    created_at = now;
  })
