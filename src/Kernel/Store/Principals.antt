-- ===== src/Kernel/Store/Principals.antt =====
-- The tables of crates/kernel/src/store.rs that hold tenants, principals and their credentials, with
-- the structs `Tenant`, `Organization` and `Workspace` of crates/kernel/src/tenant.rs.
use latent_db.Prelude.{String, Bool, Option, List, []}
use latent_db.Contracts.Permission.{PermissionGrant}

pub record Tenant : Type 0 where
  pub id : String
  pub name : String
  pub slug : String
  pub plan : String
  pub status : String
  pub created_at : String

pub record Organization : Type 0 where
  pub id : String
  pub tenant_id : String
  pub name : String
  pub slug : String
  pub created_at : String

pub record Workspace : Type 0 where
  pub id : String
  pub tenant_id : String
  pub org_id : String
  pub name : String
  pub created_at : String

pub record UserRow : Type 0 where
  pub id : String
  pub tenant_id : String
  pub email : String
  pub name : String
  pub password_hash : String
  pub status : String
  pub is_platform_admin : Bool
  pub default_org_id : Option String
  pub created_at : String

pub record ServiceAccountRow : Type 0 where
  pub id : String
  pub tenant_id : String
  pub org_id : String
  pub name : String
  pub status : String
  pub created_at : String

pub record RoleRow : Type 0 where
  pub id : String
  pub tenant_id : String
  pub key : String
  pub name : String
  pub description : Option String
  pub system : Bool
  pub grants : List PermissionGrant
  pub created_at : String

pub record RoleAssignment : Type 0 where
  pub id : String
  pub tenant_id : String
  pub principal_type : String
  pub principal_id : String
  pub role_key : String
  pub org_id : Option String
  pub created_at : String

pub record ApiKeyRow : Type 0 where
  pub id : String
  pub tenant_id : String
  pub org_id : String
  pub principal_type : String
  pub principal_id : String
  pub name : String
  pub prefix : String
  pub token_hash : String
  pub status : String
  pub created_at : String
  pub last_used_at : Option String

pub record SessionRow : Type 0 where
  pub id : String
  pub tenant_id : String
  pub user_id : String
  pub org_id : String
  pub token_hash : String
  pub created_at : String
  pub expires_at : String
  pub revoked : Bool

-- Roles stand with the tables of the permission checks, in `Db`.
pub record Accounts : Type 0 where
  pub tenants : List Tenant
  pub organizations : List Organization
  pub workspaces : List Workspace
  pub users : List UserRow
  pub service_accounts : List ServiceAccountRow
  pub role_assignments : List RoleAssignment
  pub api_keys : List ApiKeyRow
  pub sessions : List SessionRow

abbrev pub no_accounts : Accounts
no_accounts = record {
  tenants = [];
  organizations = [];
  workspaces = [];
  users = [];
  service_accounts = [];
  role_assignments = [];
  api_keys = [];
  sessions = [];
}
