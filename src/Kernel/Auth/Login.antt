-- ===== src/Kernel/Auth/Login.antt =====
-- crates/kernel/src/auth.rs: the login
use Prim.Native.Nat.{◌*◌}
use latent_db.Prelude.{
  ℕ, ◌+◌, String, Bool, true, false, ◌&&◌, ◌||◌, Option, none, some, List, [], ◌∷◌, find, ◌==◌, ltb,
  if◌then◌else◌, format, trim, unwrap_or,
}
use latent_db.Contracts.Json.{string, object, from_map}
use latent_db.Contracts.Codes.{ErrorCode}
use latent_db.Contracts.Error.{Result, ApiError, ok, err, panic, unauthorized, new_error}
use latent_db.Contracts.Auth.{AuthContext, ActorType, Source}
use latent_db.Contracts.Record.{nonneg, neg}
use latent_db.Kernel.Host.{Kernel}
use latent_db.Kernel.RateLimit.{is_locked, record_failure, reset}
use latent_db.Kernel.Store.{Db, Tenant, UserRow, SessionRow, insert_row}
use latent_db.Kernel.Exec.{
  Exec, ◌>>=◌, ◌>>◌, pure, raise, ignore, fresh_id, clock, monotonic, with_limiter, query, execute,
  transaction,
}
use latent_db.Kernel.Audit.{event_from, audit, insert_audit}
use latent_db.Kernel.Crypto.{verify_password, new_token}
use latent_db.Kernel.Principals.{normalize_email, roles_for_principal}

-- `session_ttl_days`: 30 days, or what the environment says, between 1 and 365
unfoldable pub session_ttl_days : Kernel → ℕ
session_ttl_days k = elim k.session_ttl_var [
  | none ↦ 30
  | some (neg n) ↦ 1
  | some (nonneg n) ↦ if ltb n 1 then 1 else if ltb 365 n then 365 else n
]

-- `now + Duration::days(…)`, in nanoseconds
unfoldable pub expiry : Kernel → ℕ → ℕ
unfolding session_ttl_days
expiry k now = now + session_ttl_days k * 86400000000000

pub record LoginResult : Type 0 where
  pub token : String
  pub expires_at : String
  pub user_id : String
  pub tenant_id : String
  pub org_id : String
  pub name : String
  pub email : String
  pub role_keys : List String
  pub is_platform_admin : Bool

-- What a login is called with, after its first two lines.
pub record Attempt : Type 0 where
  pub slug : String
  pub email : String
  pub password : String
  pub request_id : String
  pub source : Source

abbrev pub limiter_key : Attempt → String
limiter_key a = format (a.slug ∷ "|" ∷ a.email ∷ [])

-- The tenant may be unknown: the slug is recorded in its place.
abbrev pub anonymous : Attempt → AuthContext
anonymous a = record {
  actor_type = ActorType.user;
  actor_id = "anonymous";
  tenant_id = format ("slug:" ∷ a.slug ∷ []);
  org_id = "";
  workspace_id = none;
  role_keys = [];
  is_platform_admin = false;
  request_id = a.request_id;
  source = a.source;
  agent_safety_level = none;
}

unfoldable pub audit_login_failure : Kernel → Attempt → String → Exec (Unit {0})
audit_login_failure k a reason = do
  ev ←
      event_from k (anonymous a) "auth.login.failed" (some "user") none none
        (some (object (from_map (("email", string a.email) ∷ []))))
  ignore (audit k (record ev { reason = some reason }))

-- `login_failure`, and the error that every caller returns
unfoldable pub login_failure {ℓ} : {A : Type ℓ} → Kernel → Attempt → String → Exec A
unfolding audit_login_failure
login_failure k a reason = do
  now ← monotonic k
  n ← with_limiter (record_failure (limiter_key a) now)
  audit_login_failure k a reason
  raise (unauthorized "invalid credentials")

unfoldable pub add_session : SessionRow → Db → Result Db
add_session row db =
    elim (insert_row (λ x. x.id == row.id || x.token_hash == row.token_hash) row
      db.accounts.sessions) [
        | ok rows ↦ ok (record db { accounts = record db.accounts { sessions = rows } })
        | err e ↦ err e
        | panic ↦ panic
      ]

abbrev pub login_context : Attempt → Tenant → UserRow → List String → AuthContext
login_context a tenant user role_keys = record {
  actor_type = ActorType.user;
  actor_id = user.id;
  tenant_id = tenant.id;
  org_id = unwrap_or user.default_org_id "";
  workspace_id = none;
  role_keys = role_keys;
  is_platform_admin = user.is_platform_admin;
  request_id = a.request_id;
  source = a.source;
  agent_safety_level = none;
}

abbrev pub new_session : Tenant → UserRow → String → String → String → String → SessionRow
new_session tenant user id token_hash created_at expires_at = record {
  id = id;
  tenant_id = tenant.id;
  user_id = user.id;
  org_id = unwrap_or user.default_org_id "";
  token_hash = token_hash;
  created_at = created_at;
  expires_at = expires_at;
  revoked = false;
}

-- The transaction of `login`.
unfoldable pub store_session :
    Kernel → Attempt → Tenant → UserRow → List String → String → ℕ → Exec (Unit {0})
unfolding add_session expiry
store_session k a tenant user role_keys token_hash now = transaction k (do
  id ← fresh_id k
  execute k (
      add_session
        (new_session tenant user id token_hash (k.to_rfc3339 now) (k.to_rfc3339 (expiry k now))))
  ev ←
      event_from k (login_context a tenant user role_keys) "auth.login" (some "user") (some user.id)
        none none
  insert_audit k ev)

unfoldable pub issue_session : Kernel → Attempt → Tenant → UserRow → Exec LoginResult
unfolding store_session
issue_session k a tenant user = do
  cleared ← with_limiter {A = Unit {0}} (λ m. (tt, reset (limiter_key a) m))
  role_keys ← roles_for_principal k tenant.id user.id
  token ← new_token k "lds_"
  now ← clock k
  store_session k a tenant user role_keys token.1 now
  pure (record {
    token = token.0;
    expires_at = k.to_rfc3339 (expiry k now);
    user_id = user.id;
    tenant_id = tenant.id;
    org_id = unwrap_or user.default_org_id "";
    name = user.name;
    email = a.email;
    role_keys = role_keys;
    is_platform_admin = user.is_platform_admin;
  })

unfoldable pub check_password : Kernel → Attempt → Tenant → UserRow → Bool → Exec LoginResult
unfolding login_failure issue_session
check_password k a tenant user true = issue_session k a tenant user
check_password k a tenant user false = login_failure k a "bad_password"

unfoldable pub check_status : Kernel → Attempt → Tenant → UserRow → Bool → Exec LoginResult
unfolding login_failure check_password
check_status k a tenant user true = do
  good ← verify_password k a.password user.password_hash
  check_password k a tenant user good
check_status k a tenant user false = login_failure k a "user_inactive"

unfoldable pub login_user : Kernel → Attempt → Tenant → Option UserRow → Exec LoginResult
unfolding login_failure check_status
login_user k a tenant none = login_failure k a "unknown_user"
login_user k a tenant (some user) = check_status k a tenant user (user.status == "active")

unfoldable pub find_by_email : String → String → Db → Option UserRow
find_by_email tenant_id email db =
    find (λ u. u.tenant_id == tenant_id && u.email == email) db.accounts.users

unfoldable pub login_tenant : Kernel → Attempt → Option Tenant → Exec LoginResult
unfolding login_failure login_user find_by_email
login_tenant k a none = login_failure k a "unknown_tenant"
login_tenant k a (some tenant) = do
  user ← query k (find_by_email tenant.id a.email)
  login_user k a tenant user

unfoldable pub find_by_slug : String → Db → Option Tenant
find_by_slug slug db = find (λ t. t.slug == slug && t.status == "active") db.accounts.tenants

abbrev pub too_many : ApiError
too_many = new_error ErrorCode.rate_limited "too many failed login attempts; try again later"

unfoldable pub login_unless_locked : Kernel → Attempt → Bool → Exec LoginResult
unfolding audit_login_failure login_tenant find_by_slug
login_unless_locked k a true = do audit_login_failure k a "rate_limited"; raise too_many
login_unless_locked k a false = do tenant ← query k (find_by_slug a.slug); login_tenant k a tenant

abbrev pub attempt : Kernel → String → String → String → String → Source → Attempt
attempt k tenant_slug email password request_id source = record {
  slug = trim tenant_slug;
  email = normalize_email k email;
  password = password;
  request_id = request_id;
  source = source;
}

-- The unknown-user paths also burn the work of a password check, which changes nothing.
unfoldable pub login_attempt : Kernel → Attempt → Exec LoginResult
unfolding login_unless_locked
login_attempt k a = do
  now ← monotonic k
  locked ← with_limiter (is_locked (limiter_key a) now)
  login_unless_locked k a locked

unfoldable pub login : Kernel → String → String → String → String → Source → Exec LoginResult
unfolding login_attempt
login k tenant_slug email password request_id source =
    login_attempt k (attempt k tenant_slug email password request_id source)
