-- ===== src/Contracts/Permission.antt =====
-- crates/contracts/src/permission.rs: roles, grants, scopes, conditions and field rules
use latent_db.Prelude.{
  String, Bool, true, false, not, ◌||◌, Option, none, some, List, [], ◌==◌, if◌then◌else◌, has_str,
  strip_suffix,
}
use text.Mathlib.Text.{starts_with}
use latent_db.Contracts.Json.{Value}

pub data Action : Type 0 where
  create read update archive restore relate transition approve : Action
  export search configure execute dry_run manage : Action

pub action_str : Action → String
action_str Action.create = "create"
action_str Action.read = "read"
action_str Action.update = "update"
action_str Action.archive = "archive"
action_str Action.restore = "restore"
action_str Action.relate = "relate"
action_str Action.transition = "transition"
action_str Action.approve = "approve"
action_str Action.export = "export"
action_str Action.search = "search"
action_str Action.configure = "configure"
action_str Action.execute = "execute"
action_str Action.dry_run = "dry_run"
action_str Action.manage = "manage"

unfoldable pub Action-discrete : Discrete Action
Action-discrete = hlevel

pub data Scope : Type 0 where
  platform tenant org workspace own : Scope

pub data FieldRuleMode : Type 0 where
  allow deny : FieldRuleMode

pub record FieldRule : Type 0 where
  pub mode : FieldRuleMode
  pub fields : List String

pub data ConditionOp : Type 0 where
  eq ne is_in gt lt gte lte contains : ConditionOp

pub record Condition : Type 0 where
  pub field : String
  pub op : ConditionOp
  pub value : Value

pub record PermissionGrant : Type 0 where
  pub action : Action
  pub resource : String
  pub scope : Scope
  pub fields : Option FieldRule
  pub conditions : List Condition

abbrev pub new_grant : Action → String → Scope → PermissionGrant
new_grant action resource scope = record {
  action = action;
  resource = resource;
  scope = scope;
  fields = none;
  conditions = [];
}

-- `matches_resource`, on the grant's pattern
unfoldable pub matches_resource : PermissionGrant → String → Bool
matches_resource g resource =
    if g.resource == "*" || g.resource == resource
    then true
    else elim (strip_suffix g.resource "*") [
      | some prefix ↦ starts_with resource prefix
      | none ↦ false
    ]

abbrev pub permits_by : FieldRuleMode → List String → String → Bool
permits_by FieldRuleMode.allow fields field = has_str fields field
permits_by FieldRuleMode.deny fields field = not (has_str fields field)

-- `FieldRule::permits`
unfoldable pub permits : FieldRule → String → Bool
permits rule field = permits_by rule.mode rule.fields field

pub record Role : Type 0 where
  pub id : String
  pub key : String
  pub name : String
  pub description : Option String
  pub system : Bool
  pub grants : List PermissionGrant
