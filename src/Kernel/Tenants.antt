-- ===== src/Kernel/Tenants.antt =====
-- crates/kernel/src/tenant.rs: tenants, organizations and workspaces
pub mod Suspended
use latent_db.Prelude.{
  ℕ, String, Bool, true, false, not, ◌&&◌, ◌||◌, Option, none, some, List, [], ◌∷◌, select,
  update_where, any, sort_by, str_leb, ◌==◌, if◌then◌else◌, leb, eqb, byte_len, all_chars,
  first_char, last_char, trim, is_blank,
}
use latent_db.Contracts.Json.{string, object, from_map}
use latent_db.Contracts.Error.{Result, ok, err, panic, validation, not_found, forbidden}
use latent_db.Contracts.Auth.{AuthContext, is_system, system_context}
use latent_db.Contracts.Permission.{Action, Role}
use latent_db.Kernel.Host.{Kernel}
use latent_db.Kernel.Store.{Db, Tenant, Organization, Workspace, RoleRow, UserRow, insert_row}
use latent_db.Kernel.Exec.{
  Exec, ◌>>=◌, ◌>>◌, pure, raise, lift, or_raise, ensure, fresh_id, current_time, query, execute,
  transaction,
}
use latent_db.Kernel.Audit.{event_from, insert_audit, audit_denial}
use latent_db.Kernel.Rbac.{authorize, system_roles}
use latent_db.Kernel.Crypto.{validate_password_strength, hash_password}
use latent_db.Kernel.Principals.{normalize_email, find_tenant}
use latent_db.Kernel.Identity.{validate_email, add_user, new_user, add_assignment, new_assignment}
use latent_db.Kernel.Identity.Roles.{add_role}

pub record BootstrapResult : Type 0 where
  pub tenant : Tenant
  pub org : Organization
  pub admin_user_id : String

-- A lowercase ASCII letter or a digit.
abbrev pub alnum_edge : ℕ → Bool
alnum_edge c = (leb 97 c && leb c 122) || (leb 48 c && leb c 57)

-- 45 and 95 are the codes of the hyphen and the underscore; a character beyond ASCII has no byte that
-- passes the test.
unfoldable pub validate_slug : String → Result (Unit {0})
validate_slug slug =
    if (leb 2 (byte_len slug) && leb (byte_len slug) 63)
      && (all_chars (λ c. alnum_edge c || (eqb c 45 || eqb c 95)) slug
          && (first_char alnum_edge slug && last_char alnum_edge slug))
    then ok tt
    else err (
        validation
          "slug must be 2-63 chars of lowercase letters, digits, hyphens, or underscores, starting and ending alphanumeric")

unfoldable pub add_tenant : Tenant → Db → Result Db
add_tenant row db =
    elim (insert_row (λ x. x.id == row.id || x.slug == row.slug) row db.accounts.tenants) [
      | ok rows ↦ ok (record db { accounts = record db.accounts { tenants = rows } })
      | err e ↦ err e
      | panic ↦ panic
    ]

unfoldable pub add_organization : Organization → Db → Result Db
add_organization row db =
    elim (insert_row (λ x. x.id == row.id || (x.tenant_id == row.tenant_id && x.slug == row.slug))
      row db.accounts.organizations) [
        | ok rows ↦ ok (record db { accounts = record db.accounts { organizations = rows } })
        | err e ↦ err e
        | panic ↦ panic
      ]

unfoldable pub add_workspace : Workspace → Db → Result Db
add_workspace row db = elim (insert_row (λ x. x.id == row.id) row db.accounts.workspaces) [
  | ok rows ↦ ok (record db { accounts = record db.accounts { workspaces = rows } })
  | err e ↦ err e
  | panic ↦ panic
]

-- The loop over the system roles.
unfoldable pub store_roles : Kernel → String → String → List Role → Exec (Unit {0})
unfolding add_role
store_roles k tenant_id now [] = pure tt
store_roles k tenant_id now (role ∷ roles) = do
  id ← fresh_id k
  execute k (
      add_role (record {
        id = id;
        tenant_id = tenant_id;
        key = role.key;
        name = role.name;
        description = role.description;
        system = role.system;
        grants = role.grants;
        created_at = now;
      }))
  store_roles k tenant_id now roles

-- The transaction of `bootstrap_tenant`.
unfoldable pub store_tenant :
    Kernel → AuthContext → Tenant → Organization → UserRow → Exec (Unit {0})
unfolding add_tenant add_organization store_roles add_user add_assignment
store_tenant k ctx tenant org admin = transaction k (do
  execute k (add_tenant tenant)
  execute k (add_organization org)
  store_roles k tenant.id tenant.created_at system_roles
  execute k (add_user admin)
  id ← fresh_id k
  execute k
      (add_assignment (new_assignment ctx "user" admin.id "tenant_admin" id tenant.created_at))
  ev ← event_from k ctx "tenant.create" (some "tenant") (some tenant.id) none (
      some (
        object (
          from_map (
            ("admin", string admin.email)
            ∷ ("name", string tenant.name)
            ∷ ("slug", string tenant.slug)
            ∷ []))))
  insert_audit k ev)

abbrev pub new_tenant : String → String → String → String → Tenant
new_tenant id name slug now = record {
  id = id;
  name = name;
  slug = slug;
  plan = "standard";
  status = "active";
  created_at = now;
}

abbrev pub new_org : String → String → String → String → Organization
new_org id tenant_id name now = record {
  id = id;
  tenant_id = tenant_id;
  name = name;
  slug = "default";
  created_at = now;
}

-- The ids of a new tenant are drawn before its password is hashed.
unfoldable pub provision :
    Kernel → String → String → String → String → String → Exec BootstrapResult
unfolding store_tenant
provision k name slug admin_email admin_name admin_password = do
  now ← current_time k
  tenant_id ← fresh_id k
  org_id ← fresh_id k
  admin_id ← fresh_id k
  request_id ← fresh_id k
  pw_hash ← hash_password k admin_password
  let ctx = system_context tenant_id org_id request_id
  let tenant = new_tenant tenant_id name slug now
  let org = new_org org_id tenant_id name now
  store_tenant k ctx tenant org (new_user ctx admin_id admin_email admin_name pw_hash now)
  pure (record { tenant = tenant; org = org; admin_user_id = admin_id })

unfoldable pub bootstrap_tenant :
    Kernel → String → String → String → String → String → Exec BootstrapResult
unfolding validate_slug provision
bootstrap_tenant k name slug admin_email admin_name admin_password = do
  lift (validate_slug (k.to_lowercase (trim slug)))
  lift (validate_email (normalize_email k admin_email))
  lift (validate_password_strength admin_password)
  provision k name (k.to_lowercase (trim slug)) (normalize_email k admin_email) admin_name
      admin_password

unfoldable pub get_tenant : Kernel → AuthContext → Exec Tenant
get_tenant k ctx = do
  authorize k ctx Action.read "tenant" none
  found ← query k (find_tenant ctx.tenant_id)
  or_raise found (not_found "tenant not found")

-- `if !ctx.is_platform_admin && !ctx.is_system()`: the denial, and the error.
abbrev pub ensure_platform : Kernel → AuthContext → String → Bool → Exec (Unit {0})
ensure_platform k ctx action true = pure tt
ensure_platform k ctx action false = do
  audit_denial k ctx action "platform:tenants" none
  raise (forbidden "platform admin required")

unfoldable pub list_tenants : Kernel → AuthContext → Exec (List Tenant)
list_tenants k ctx = do
  ensure_platform k ctx "read" (ctx.is_platform_admin || is_system ctx)
  query k (λ db. sort_by (λ a b. str_leb b.created_at a.created_at) db.accounts.tenants)

unfoldable pub list_organizations : Kernel → AuthContext → Exec (List Organization)
list_organizations k ctx = do
  authorize k ctx Action.read "organization" none
  query k λ db.
      sort_by (λ a b. str_leb a.created_at b.created_at)
        (select (λ o. o.tenant_id == ctx.tenant_id) db.accounts.organizations)

unfoldable pub tenants_exist : Kernel → Exec Bool
tenants_exist k = query k (λ db. any (λ t. true) db.accounts.tenants)

unfoldable pub set_status : String → String → Db → Db
set_status id status db = record db {
  accounts = record db.accounts {
    tenants =
        update_where (λ t. t.id == id) (λ t. record t { status = status }) db.accounts.tenants;
  };
}

-- The transaction of `set_tenant_status`.
unfoldable pub store_tenant_status :
    Kernel → AuthContext → String → String → String → Exec (Unit {0})
unfolding set_status
store_tenant_status k ctx id before status = transaction k (do
  execute k (λ db. ok (set_status id status db))
  ev ←
      event_from k ctx "tenant.set_status" (some "tenant") (some id)
        (some (object (from_map (("status", string before) ∷ []))))
        (some (object (from_map (("status", string status) ∷ []))))
  insert_audit k ev)

unfoldable pub set_tenant_status : Kernel → AuthContext → String → String → Exec Tenant
unfolding store_tenant_status
set_tenant_status k ctx id status = do
  ensure_platform k ctx "configure" (ctx.is_platform_admin || is_system ctx)
  ensure (status == "active" || status == "suspended")
      (validation "status must be 'active' or 'suspended'")
  found ← query k (find_tenant id)
  row ← or_raise found (not_found "tenant not found")
  store_tenant_status k ctx id row.status status
  pure (record row { status = status })

-- The transaction of `create_workspace`.
unfoldable pub store_workspace : Kernel → AuthContext → Workspace → Exec (Unit {0})
unfolding add_workspace
store_workspace k ctx row = transaction k (do
  execute k (add_workspace row)
  ev ←
      event_from k ctx "workspace.create" (some "workspace") (some row.id) none
        (some (object (from_map (("name", string row.name) ∷ []))))
  insert_audit k ev)

unfoldable pub create_workspace : Kernel → AuthContext → String → Exec Workspace
unfolding store_workspace
create_workspace k ctx name = do
  authorize k ctx Action.configure "organization" none
  id ← fresh_id k
  now ← current_time k
  let row : Workspace = record {
    id = id;
    tenant_id = ctx.tenant_id;
    org_id = ctx.org_id;
    name = name;
    created_at = now;
  }
  store_workspace k ctx row
  pure row
