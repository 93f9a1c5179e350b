-- ===== src/Kernel/Identity/Roles.antt =====
-- crates/kernel/src/identity.rs: roles and API keys
use latent_db.Prelude.{
  String, false, ◌&&◌, ◌||◌, Option, none, some, List, [], ◌∷◌, map, any, select, sort_by, str_leb,
  ◌==◌, if◌then◌else◌, format, unwrap_or, option_str_eq, char_take,
}
use latent_db.Contracts.Json.{string, object, from_map}
use latent_db.Contracts.Error.{Result, ok, err, panic, validation}
use latent_db.Contracts.Auth.{AuthContext}
use latent_db.Contracts.Permission.{Action, PermissionGrant, Role}
use latent_db.Kernel.Host.{Kernel}
use latent_db.Kernel.Store.{Db, RoleRow, ApiKeyRow, RoleAssignment, insert_row}
use latent_db.Kernel.Exec.{
  Exec, ◌>>=◌, ◌>>◌, pure, ensure, fresh_id, current_time, query, execute, transaction,
}
use latent_db.Kernel.Audit.{event_from, insert_audit}
use latent_db.Kernel.Rbac.{authorize}
use latent_db.Kernel.Crypto.{new_token}
use latent_db.Kernel.Auth.{principal_status}
use latent_db.Kernel.Identity.{is_assignment, new_assignment}

-- `INSERT OR IGNORE`
unfoldable pub assign_or_ignore : RoleAssignment → Db → Result Db
assign_or_ignore row db =
    if any (is_assignment row) db.accounts.role_assignments
    then ok db
    else elim (insert_row (is_assignment row) row db.accounts.role_assignments) [
      | ok rows ↦ ok (record db { accounts = record db.accounts { role_assignments = rows } })
      | err e ↦ err e
      | panic ↦ panic
    ]

-- The principal's type is always written as that of a user.
unfoldable pub assign_role : Kernel → AuthContext → String → String → Exec (Unit {0})
unfolding assign_or_ignore
assign_role k ctx principal_id role_key = do
  authorize k ctx Action.configure "admin:roles" none
  transaction k (do
    id ← fresh_id k
    now ← current_time k
    execute k (assign_or_ignore (new_assignment ctx "user" principal_id role_key id now))
    ev ←
        event_from k ctx "role.assign" (some "user") (some principal_id) none
          (some (object (from_map (("role", string role_key) ∷ []))))
    insert_audit k ev)

unfoldable pub add_role : RoleRow → Db → Result Db
add_role row db =
    elim (insert_row (λ x. x.id == row.id || (x.tenant_id == row.tenant_id && x.key == row.key)) row
      db.roles) [ ok rows ↦ ok (record db { roles = rows }) | err e ↦ err e | panic ↦ panic ]

unfoldable pub row_to_role : RoleRow → Role
row_to_role row = record {
  id = row.id;
  key = row.key;
  name = row.name;
  description = row.description;
  system = row.system;
  grants = row.grants;
}

abbrev new_role :
    AuthContext → String → String → String → Option String → List PermissionGrant → String → RoleRow
new_role ctx id key name description grants now = record {
  id = id;
  tenant_id = ctx.tenant_id;
  key = key;
  name = name;
  description = description;
  system = false;
  grants = grants;
  created_at = now;
}

-- The transaction of `create_role`.
unfoldable pub store_role : Kernel → AuthContext → RoleRow → Exec (Unit {0})
unfolding add_role
store_role k ctx row = transaction k (do
  execute k (add_role row)
  ev ←
      event_from k ctx "role.create" (some "role") (some row.id) none
        (some (object (from_map (("key", string row.key) ∷ []))))
  insert_audit k ev)

unfoldable pub create_role :
    Kernel → AuthContext → String → String → Option String → List PermissionGrant → Exec Role
unfolding store_role row_to_role
create_role k ctx key name description grants = do
  authorize k ctx Action.configure "admin:roles" none
  id ← fresh_id k
  now ← current_time k
  store_role k ctx (new_role ctx id key name description grants now)
  pure (row_to_role (new_role ctx id key name description grants now))

unfoldable pub list_roles : Kernel → AuthContext → Exec (List Role)
unfolding row_to_role
list_roles k ctx = do
  authorize k ctx Action.read "admin:roles" none
  query k λ db.
      map row_to_role
        (sort_by (λ a b. str_leb a.key b.key) (select (λ r. r.tenant_id == ctx.tenant_id) db.roles))

pub record ApiKeyInfo : Type 0 where
  pub id : String
  pub name : String
  pub prefix : String
  pub principal_type : String
  pub principal_id : String
  pub status : String
  pub created_at : String
  pub last_used_at : Option String

pub record NewApiKey : Type 0 where
  pub info : ApiKeyInfo
  pub token : String

unfoldable pub add_api_key : ApiKeyRow → Db → Result Db
add_api_key row db =
    elim (insert_row (λ x. x.id == row.id || x.token_hash == row.token_hash) row
      db.accounts.api_keys) [
        | ok rows ↦ ok (record db { accounts = record db.accounts { api_keys = rows } })
        | err e ↦ err e
        | panic ↦ panic
      ]

abbrev pub new_key :
    AuthContext → String → String → String → String → String × String → String → ApiKeyRow
new_key ctx id name principal_type principal_id token now = record {
  id = id;
  tenant_id = ctx.tenant_id;
  org_id = ctx.org_id;
  principal_type = principal_type;
  principal_id = principal_id;
  name = name;
  prefix = char_take 11 token.0;
  token_hash = token.1;
  status = "active";
  created_at = now;
  last_used_at = none;
}

abbrev key_info : ApiKeyRow → ApiKeyInfo
key_info row = record {
  id = row.id;
  name = row.name;
  prefix = row.prefix;
  principal_type = row.principal_type;
  principal_id = row.principal_id;
  status = row.status;
  created_at = row.created_at;
  last_used_at = row.last_used_at;
}

-- The transaction of `create_api_key`.
unfoldable pub store_key : Kernel → AuthContext → ApiKeyRow → Exec (Unit {0})
unfolding add_api_key
store_key k ctx row = transaction k (do
  execute k (add_api_key row)
  ev ← event_from k ctx "api_key.create" (some "api_key") (some row.id) none (
      some (
        object
          (from_map (("name", string row.name) ∷ ("principal_id", string row.principal_id) ∷ []))))
  insert_audit k ev)

-- The key is made for a principal of the caller's tenant that is active.
unfoldable pub make_key : Kernel → AuthContext → String → String → String → Exec NewApiKey
unfolding store_key
make_key k ctx name principal_id principal_type = do
  status ← query k (principal_status principal_type ctx.tenant_id principal_id)
  ensure (option_str_eq status (some "active"))
      (validation "principal not found in this tenant or not active")
  id ← fresh_id k
  now ← current_time k
  token ← new_token k "ldb_"
  store_key k ctx (new_key ctx id name principal_type principal_id token now)
  pure (record {
    info = key_info (new_key ctx id name principal_type principal_id token now);
    token = token.0;
  })

unfoldable pub create_api_key :
    Kernel → AuthContext → String → Option String → String → Exec NewApiKey
unfolding make_key
create_api_key k ctx name principal_id principal_type = do
  authorize k ctx Action.configure "admin:api_keys" none
  ensure (principal_type == "user" || principal_type == "service_account") (
      validation (
        format (
          "invalid principal_type '" ∷ principal_type ∷ "' (expected 'user' or 'service_account')"
          ∷ [])))
  make_key k ctx name (unwrap_or principal_id ctx.actor_id) principal_type
