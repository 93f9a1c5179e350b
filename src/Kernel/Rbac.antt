-- ===== src/Kernel/Rbac.antt =====
-- crates/kernel/src/rbac.rs: the access decision
mod Compare
pub use Compare.{value_eq, compare_values}
use mathlib.Core.List.{flat_map}
use latent_db.Prelude.{
  String, Bool, true, false, not, ◌&&◌, ◌||◌, Option, none, some, List, [], ◌∷◌, any, all, select,
  ◌==◌, if◌then◌else◌, format, option_str_eq, unwrap_or, has_str, holds, strip_prefix,
}
use latent_db.Contracts.Json.{Value, string, get}
use latent_db.Contracts.Error.{ApiError, forbidden}
use latent_db.Contracts.Auth.{AuthContext, is_system}
use latent_db.Contracts.Permission.{
  Action, action_str, Action-discrete, Scope, PermissionGrant, new_grant, Condition, FieldRule,
  FieldRuleMode, Role, matches_resource, permits,
}
use latent_db.Contracts.Field.{ObjectTypeDef, field}
use latent_db.Contracts.Record.{Rec, owner_candidates}
use latent_db.Kernel.Host.{Kernel, Host}
use latent_db.Kernel.Store.{Db, RoleRow}
use latent_db.Kernel.Exec.{Exec, ◌>>=◌, ◌>>◌, pure, raise, query}
use latent_db.Kernel.Audit.{audit_denial}

-- A rule that denies nothing.
abbrev deny_nothing : FieldRule
deny_nothing = record { mode = FieldRuleMode.deny; fields = [] }

abbrev pub admin_grant : PermissionGrant
admin_grant = record {
  action = Action.manage;
  resource = "*";
  scope = Scope.tenant;
  fields = some deny_nothing;
  conditions = [];
}

abbrev pub system_roles : List Role
system_roles =
    record {
      id = "role_tenant_admin";
      key = "tenant_admin";
      name = "Tenant Administrator";
      description = some "Full management of this tenant";
      system = true;
      grants = admin_grant ∷ [];
    }
    ∷ record {
      id = "role_member";
      key = "member";
      name = "Member";
      description = some "Baseline read access within the organization";
      system = true;
      grants =
          new_grant Action.read "object:*" Scope.org
          ∷ new_grant Action.search "object:*" Scope.org
          ∷ new_grant Action.create "object:*" Scope.org
          ∷ new_grant Action.update "object:*" Scope.own
          ∷ new_grant Action.read "tenant" Scope.tenant
          ∷ new_grant Action.read "organization" Scope.tenant
          ∷ new_grant Action.read "report" Scope.org
          ∷ new_grant Action.read "metric" Scope.org
          ∷ new_grant Action.read "dashboard" Scope.org
          ∷ [];
    }
    ∷ []

unfoldable pub action_covered_by : Action → Action → Bool
unfolding Action-discrete
action_covered_by granted requested =
    holds (Action-discrete granted requested) || holds (Action-discrete granted Action.manage)

-- A check that needs a record passes where there is none.
abbrev pub on_target : (Rec → Bool) → Option Rec → Bool
on_target test none = true
on_target test (some r) = test r

unfoldable pub scope_ok : Scope → AuthContext → Option Rec → Bool
scope_ok Scope.platform ctx target = ctx.is_platform_admin
scope_ok Scope.tenant ctx target = true
scope_ok Scope.org ctx target = on_target (λ r. r.org_id == ctx.org_id) target
scope_ok Scope.workspace ctx target =
    on_target (λ r. option_str_eq r.workspace_id ctx.workspace_id) target
scope_ok Scope.own ctx target = on_target (λ r. has_str (owner_candidates r) ctx.actor_id) target

abbrev pub actor_attr : AuthContext → String → Option Value
actor_attr ctx attr =
    if attr == "id"
    then some (string ctx.actor_id)
    else if attr == "org_id"
    then some (string ctx.org_id)
    else none

abbrev record_attr : Option Rec → String → Option Value
record_attr none key = none
record_attr (some r) key = get r.fields key

-- The left operand of a condition, where it can be resolved.
unfoldable pub operand : Condition → AuthContext → Option Rec → Option Value
operand c ctx target = elim (strip_prefix c.field "record.") [
  | some key ↦ record_attr target key
  | none ↦ elim (strip_prefix c.field "actor.") [ some attr ↦ actor_attr ctx attr | none ↦ none ]
]

unfoldable pub eval_condition : Host → AuthContext → Option Rec → Condition → Bool
eval_condition h ctx target c = elim (operand c ctx target) [
  | none ↦ true
  | some lhs ↦ compare_values h lhs c.op c.value
]

unfoldable pub conditions_ok : Host → List Condition → AuthContext → Option Rec → Bool
conditions_ok h conditions ctx target = all (λ c. eval_condition h ctx target c) conditions

-- The test that `authorize`, `grants_allow`, `applicable_read_grants` and `grants_for` share.
unfoldable pub applies :
    Kernel → AuthContext → Action → String → Option Rec → PermissionGrant → Bool
applies k ctx action resource target g =
    action_covered_by g.action action
    && (matches_resource g resource
        && (scope_ok g.scope ctx target
            && (not k.flags.enable_advanced_permissions
                || conditions_ok k.host g.conditions ctx target)))

-- System actors and platform admins.
abbrev pub is_trusted : AuthContext → Bool
is_trusted ctx = is_system ctx || ctx.is_platform_admin

unfoldable pub grants_allow :
    Kernel → List PermissionGrant → AuthContext → Action → String → Option Rec → Bool
grants_allow k grants ctx action resource target =
    if is_trusted ctx then true else any (applies k ctx action resource target) grants

unfoldable pub applicable_read_grants :
    Kernel → List PermissionGrant → AuthContext → String → Option Rec → List PermissionGrant
applicable_read_grants k grants ctx resource target =
    select (applies k ctx Action.read resource target) grants

-- The grants of the roles that the context holds in its tenant.
unfoldable pub role_grants : AuthContext → Db → List PermissionGrant
role_grants ctx db =
    flat_map (λ (r : RoleRow). r.grants)
      (select (λ r. r.tenant_id == ctx.tenant_id && has_str ctx.role_keys r.key) db.roles)

abbrev pub is_empty {ℓ} : {A : Type ℓ} → List A → Bool
is_empty [] = true
is_empty (x ∷ xs) = false

unfoldable pub effective_grants : Kernel → AuthContext → Exec (List PermissionGrant)
effective_grants k ctx = if is_empty ctx.role_keys then pure [] else query k (role_grants ctx)

unfoldable pub grants_for :
    Kernel → AuthContext → Action → String → Option Rec → Exec (List PermissionGrant)
unfolding effective_grants
grants_for k ctx action resource target = if is_trusted ctx then pure (admin_grant ∷ []) else (do
  grants ← effective_grants k ctx
  pure (select (applies k ctx action resource target) grants))

-- The record's id, for the audit trail of a denial.
abbrev pub target_id : Option Rec → Option String
target_id none = none
target_id (some r) = some r.id

abbrev pub denied : Action → String → ApiError
denied action resource =
    forbidden (format ("not permitted: " ∷ action_str action ∷ " on " ∷ resource ∷ []))

-- The end of `authorize`, on whether some grant applies.
unfoldable pub conclude :
    Kernel → AuthContext → Action → String → Option Rec → Bool → Exec (Unit {0})
conclude k ctx action resource target true = pure tt
conclude k ctx action resource target false = do
  audit_denial k ctx (action_str action) resource (target_id target)
  raise (denied action resource)

unfoldable pub authorize : Kernel → AuthContext → Action → String → Option Rec → Exec (Unit {0})
unfolding effective_grants conclude
authorize k ctx action resource target = if is_trusted ctx then pure tt else (do
  grants ← effective_grants k ctx
  conclude k ctx action resource target (any (applies k ctx action resource target) grants))

-- Does the grant's field rule name the field as open? A grant with no rule opens no restricted one.
abbrev pub opens_field : String → PermissionGrant → Bool
opens_field key g = elim g.fields [ none ↦ false | some rule ↦ permits rule key ]

abbrev pub is_restricted : ObjectTypeDef → String → Bool
is_restricted t key = elim (field t key) [ none ↦ false | some f ↦ f.restricted ]

unfoldable pub field_permitted : List PermissionGrant → ObjectTypeDef → String → Bool
field_permitted grants t key =
    if not (is_restricted t key) then true else any (opens_field key) grants
