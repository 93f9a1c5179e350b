-- ===== src/Kernel/Auth.antt =====
-- crates/kernel/src/auth.rs: the verification of tokens
pub mod Login
pub mod Logout
pub mod Accepts
pub mod Failures
pub mod Forgets
pub mod Quiet
pub mod Refusals
pub mod Revoked
pub mod RoundTrip
pub mod Welcome
use text.Mathlib.Text.{starts_with}
use latent_db.Prelude.{
  ℕ, String, Bool, true, false, not, ◌&&◌, Option, none, some, List, find, update_where, ◌==◌, leb,
  option_str_eq, if◌then◌else◌,
}
use latent_db.Contracts.Error.{ok, unauthorized}
use latent_db.Contracts.Auth.{AuthContext, ActorType, Source}
use latent_db.Kernel.Host.{Kernel}
use latent_db.Kernel.Store.{Db, UserRow, ServiceAccountRow, SessionRow, ApiKeyRow}
use latent_db.Kernel.Exec.{
  Exec, ◌>>=◌, ◌>>◌, pure, raise, or_raise, ensure, ignore, clock, current_time, query, execute,
}
use latent_db.Kernel.Principals.{find_tenant, find_user, find_service_account, roles_for_principal}

unfoldable pub require_tenant_active : Kernel → String → Exec (Unit {0})
unfolding find_tenant
require_tenant_active k tenant_id = do
  found ← query k (find_tenant tenant_id)
  t ← or_raise found (unauthorized "tenant not found")
  ensure (t.status == "active") (unauthorized "tenant is not active")

abbrev pub is_live_session : String → SessionRow → Bool
is_live_session token_hash x = x.token_hash == token_hash && not x.revoked

unfoldable pub find_session : String → Db → Option SessionRow
find_session token_hash db = find (is_live_session token_hash) db.accounts.sessions

-- `SELECT … FROM users WHERE id = ?`: the tenant is not part of the test
unfoldable pub find_account : String → Db → Option UserRow
find_account id db = find (λ u. u.id == id) db.accounts.users

-- An expiry that cannot be parsed is no expiry.
abbrev pub is_current : Option ℕ → ℕ → Bool
is_current none now = true
is_current (some expiry) now = not (leb expiry now)

abbrev pub check_expiry : Kernel → Option ℕ → Exec (Unit {0})
check_expiry k none = pure tt
check_expiry k (some expiry) = do
  now ← clock k
  ensure (is_current (some expiry) now) (unauthorized "session expired")

abbrev pub session_context : SessionRow → UserRow → List String → String → Source → AuthContext
session_context row user role_keys request_id source = record {
  actor_type = ActorType.user;
  actor_id = row.user_id;
  tenant_id = row.tenant_id;
  org_id = row.org_id;
  workspace_id = none;
  role_keys = role_keys;
  is_platform_admin = user.is_platform_admin;
  request_id = request_id;
  source = source;
  agent_safety_level = none;
}

-- The second half of `authenticate_session`: the user.
unfoldable pub accept_account : Kernel → SessionRow → String → Source → Exec AuthContext
unfolding find_account roles_for_principal
accept_account k row request_id source = do
  account ← query k (find_account row.user_id)
  user ← or_raise account (unauthorized "user not found")
  ensure (user.status == "active") (unauthorized "user inactive")
  role_keys ← roles_for_principal k row.tenant_id row.user_id
  pure (session_context row user role_keys request_id source)

unfoldable pub accept_session : Kernel → SessionRow → String → Source → Exec AuthContext
unfolding require_tenant_active accept_account
accept_session k row request_id source = do
  check_expiry k (k.parse_rfc3339 row.expires_at)
  require_tenant_active k row.tenant_id
  accept_account k row request_id source

unfoldable pub authenticate_session : Kernel → String → String → Source → Exec AuthContext
unfolding find_session accept_session
authenticate_session k token_hash request_id source = do
  found ← query k (find_session token_hash)
  row ← or_raise found (unauthorized "invalid or expired session")
  accept_session k row request_id source

abbrev pub user_status : Option UserRow → Option String
user_status none = none
user_status (some u) = some u.status

abbrev service_status : Option ServiceAccountRow → Option String
service_status none = none
service_status (some a) = some a.status

-- The status of the principal, in the table that the key's principal type names.
unfoldable pub principal_status : String → String → String → Db → Option String
unfolding find_user find_service_account
principal_status principal_type tenant_id principal_id db =
    if principal_type == "user"
    then user_status (find_user tenant_id principal_id db)
    else service_status (find_service_account tenant_id principal_id db)

abbrev pub is_active_key : String → ApiKeyRow → Bool
is_active_key token_hash x = x.token_hash == token_hash && x.status == "active"

unfoldable pub find_api_key : String → Db → Option ApiKeyRow
find_api_key token_hash db = find (is_active_key token_hash) db.accounts.api_keys

unfoldable pub stamp_key : String → String → Db → Db
stamp_key id now db = record db {
  accounts = record db.accounts {
    api_keys =
        update_where (λ x. x.id == id) (λ x. record x { last_used_at = some now })
          db.accounts.api_keys;
  };
}

abbrev pub key_context : ApiKeyRow → List String → String → Source → AuthContext
key_context row role_keys request_id source = record {
  actor_type = if row.principal_type == "user" then ActorType.user else ActorType.service_account;
  actor_id = row.principal_id;
  tenant_id = row.tenant_id;
  org_id = row.org_id;
  workspace_id = none;
  role_keys = role_keys;
  is_platform_admin = false;
  request_id = request_id;
  source = source;
  agent_safety_level = none;
}

-- The second half of `authenticate_api_key`: the principal.
unfoldable pub accept_principal : Kernel → ApiKeyRow → String → Source → Exec AuthContext
unfolding principal_status roles_for_principal stamp_key
accept_principal k row request_id source = do
  status ← query k (principal_status row.principal_type row.tenant_id row.principal_id)
  ensure (option_str_eq status (some "active")) (unauthorized "api key principal is not active")
  role_keys ← roles_for_principal k row.tenant_id row.principal_id
  now ← current_time k
  ignore (execute k (λ db. ok (stamp_key row.id now db)))
  pure (key_context row role_keys request_id source)

unfoldable pub authenticate_api_key : Kernel → String → String → Source → Exec AuthContext
unfolding find_api_key require_tenant_active accept_principal
authenticate_api_key k token_hash request_id source = do
  found ← query k (find_api_key token_hash)
  row ← or_raise found (unauthorized "invalid api key")
  require_tenant_active k row.tenant_id
  accept_principal k row request_id source

unfoldable pub authenticate : Kernel → String → String → Source → Exec AuthContext
unfolding authenticate_session authenticate_api_key
authenticate k token request_id source =
    if starts_with token "ldb_"
    then authenticate_api_key k (k.sha256_hex token) request_id source
    else authenticate_session k (k.sha256_hex token) request_id source
