-- ===== src/Contracts/Builder.antt =====
-- crates/contracts/src/builder.rs: builder definitions, drafts and templates
use latent_db.Prelude.{
  replace_char, String, Bool, false, Option, none, some, List, ◌==◌, if◌then◌else◌,
}
use latent_db.Contracts.Json.{Value}
use latent_db.Contracts.Permission.{PermissionGrant}
use latent_db.Contracts.Field.{FieldDefinition, ObjectTypeDef}
use latent_db.Contracts.Record.{I64}
use latent_db.Contracts.Workflow.{WorkflowDef, WorkflowState, Transition}

pub data BuilderStatus : Type 0 where
  draft validated published : BuilderStatus

-- `status_str` and `parse_status` of crates/kernel/src/builder.rs
unfoldable pub status_str : BuilderStatus → String
status_str BuilderStatus.draft = "draft"
status_str BuilderStatus.validated = "validated"
status_str BuilderStatus.published = "published"

unfoldable pub parse_status : String → BuilderStatus
parse_status value =
    if value == "validated"
    then BuilderStatus.validated
    else if value == "published"
    then BuilderStatus.published
    else BuilderStatus.draft

pub data RelationKind : Type 0 where
  one_to_one one_to_many many_to_one many_to_many : RelationKind

pub record BuilderRelation : Type 0 where
  pub key : String
  pub label : String
  pub from_object : String
  pub to_object : String
  pub kind : RelationKind

pub data ApprovalRuleKind : Type 0 where
  mutation workflow_transition ai_action_execution : ApprovalRuleKind
  money_threshold restricted_field_update : ApprovalRuleKind

pub record ApprovalRule : Type 0 where
  pub kind : ApprovalRuleKind
  pub transition_key : Option String
  pub field : Option String
  pub threshold : Option I64

pub record BuilderDefinition : Type 0 where
  pub key : String
  pub label : String
  pub label_plural : Option String
  pub description : Option String
  pub icon : Option String
  pub module_name : Option String
  pub display_field : Option String
  pub fields : List FieldDefinition
  pub relations : List BuilderRelation
  pub workflow : Option WorkflowDef
  pub permissions : List PermissionGrant
  pub approval_rules : List ApprovalRule
  pub sensitive_ai_visibility_confirmed : Bool

abbrev workflow_key_of : Option WorkflowDef → Option String
workflow_key_of none = none
workflow_key_of (some w) = some w.key

-- `BuilderDefinition::to_object_type`
unfoldable pub to_object_type : BuilderDefinition → ObjectTypeDef
to_object_type d = record {
  id = "";
  key = d.key;
  label = d.label;
  label_plural = d.label_plural;
  description = d.description;
  system = false;
  workflow_key = workflow_key_of d.workflow;
  display_field = d.display_field;
  module_name = d.module_name;
  fields = d.fields;
}

pub record BuilderDraft : Type 0 where
  pub id : String
  pub tenant_id : String
  pub status : BuilderStatus
  pub definition : BuilderDefinition
  pub created_at : String
  pub updated_at : String
  pub published_at : Option String

pub record SaveBuilderDraftRequest : Type 0 where
  pub id : Option String
  pub definition : BuilderDefinition

pub record ValidationIssue : Type 0 where
  pub path : String
  pub message : String

pub record BuilderValidationResult : Type 0 where
  pub valid : Bool
  pub status : BuilderStatus
  pub issues : List ValidationIssue
  pub preview : Option Value

pub record PublishBuilderResult : Type 0 where
  pub draft : BuilderDraft
  pub object_type : ObjectTypeDef
  pub workflow : Option WorkflowDef

pub record BuilderTemplate : Type 0 where
  pub key : String
  pub name : String
  pub description : String
  pub objects : List BuilderDefinition

-- `workflow_state` and `workflow_transition`
unfoldable pub workflow_state : String → Bool → WorkflowState
workflow_state key terminal = record {
  key = key;
  label = replace_char "_" " " key;
  terminal = terminal;
}

unfoldable pub workflow_transition_def : String → String → String → String → Bool → Transition
workflow_transition_def key from to label approval = record {
  key = key;
  from = from;
  to = to;
  label = label;
  guard_permission = none;
  requires_approval = approval;
  approval_policy = if approval then some "default" else none;
}
