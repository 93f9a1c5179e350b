-- ===== src/Kernel/Principals.antt =====
-- crates/kernel/src/identity.rs: the roles of a principal; and the lookups of tenants, users and
-- service accounts that the services share
use latent_db.Prelude.{String, Bool, Option, List, ◌&&◌, ◌==◌, find, select, map, trim}
use latent_db.Kernel.Host.{Kernel}
use latent_db.Kernel.Store.{Db, Tenant, UserRow, ServiceAccountRow, RoleAssignment}
use latent_db.Kernel.Exec.{Exec, query}

-- `normalize_email` of crates/kernel/src/auth.rs
unfoldable pub normalize_email : Kernel → String → String
normalize_email k email = k.to_lowercase (trim email)

abbrev pub assigned_to : String → String → RoleAssignment → Bool
assigned_to tenant_id principal_id a = a.tenant_id == tenant_id && a.principal_id == principal_id

unfoldable pub role_keys_of : String → String → Db → List String
role_keys_of tenant_id principal_id db =
    map (λ a. a.role_key) (select (assigned_to tenant_id principal_id) db.accounts.role_assignments)

unfoldable pub roles_for_principal : Kernel → String → String → Exec (List String)
unfolding role_keys_of
roles_for_principal k tenant_id principal_id = query k (role_keys_of tenant_id principal_id)

unfoldable pub find_tenant : String → Db → Option Tenant
find_tenant id db = find (λ t. t.id == id) db.accounts.tenants

abbrev pub is_user : String → String → UserRow → Bool
is_user tenant_id id u = u.tenant_id == tenant_id && u.id == id

unfoldable pub find_user : String → String → Db → Option UserRow
find_user tenant_id id db = find (is_user tenant_id id) db.accounts.users

unfoldable pub find_service_account : String → String → Db → Option ServiceAccountRow
find_service_account tenant_id id db =
    find (λ a. a.tenant_id == tenant_id && a.id == id) db.accounts.service_accounts
