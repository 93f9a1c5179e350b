-- ===== src/Kernel/Store.antt =====
-- The tables of crates/kernel/src/store.rs that the modelled services read and write. A JSON column
-- holds the value that it encodes.
mod Principals
pub use Principals.*
use latent_db.Prelude.{ℕ, String, Bool, Option, List, [], ◌∷◌, ◌++◌, any, if◌then◌else◌}
use latent_db.Contracts.Json.{Value}
use latent_db.Contracts.Error.{Result, ok, err}
use latent_db.Contracts.Field.{ObjectTypeDef}
use latent_db.Contracts.Workflow.{WorkflowDef}
use latent_db.Contracts.Record.{Rec}
use latent_db.Contracts.Audit.{AuditEvent, Event}
use latent_db.Contracts.Builder.{BuilderDefinition}
use latent_db.Contracts.Migration.{SystemSnapshot, MigrationReport}
use latent_db.Kernel.Host.{map_db_err, unique_constraint}

pub record ObjectTypeRow : Type 0 where
  pub tenant_id : String
  pub def : ObjectTypeDef

pub record WorkflowRow : Type 0 where
  pub tenant_id : String
  pub def : WorkflowDef

pub record RelationRow : Type 0 where
  pub id : String
  pub tenant_id : String
  pub from_record : String
  pub to_record : String
  pub relation_type : String
  pub created_by : String
  pub created_at : String

pub record Task : Type 0 where
  pub id : String
  pub tenant_id : String
  pub org_id : String
  pub kind : String
  pub title : String
  pub assignee_id : Option String
  pub status : String
  pub due_at : Option String
  pub related_object_type : Option String
  pub related_record_id : Option String
  pub payload : Value
  pub created_by : String
  pub created_at : String
  pub updated_at : String

pub record Approval : Type 0 where
  pub id : String
  pub tenant_id : String
  pub org_id : String
  pub status : String
  pub policy : Option String
  pub requested_by : String
  pub decided_by : Option String
  pub decision_reason : Option String
  pub related_object_type : Option String
  pub related_record_id : Option String
  pub transition_key : Option String
  pub target_state : Option String
  pub risk_score : Option ℕ
  pub payload : Value
  pub created_at : String
  pub decided_at : Option String

pub record DraftRow : Type 0 where
  pub id : String
  pub tenant_id : String
  pub status : String
  pub key : String
  pub definition : BuilderDefinition
  pub created_at : String
  pub updated_at : String
  pub published_at : Option String

-- The value is an INTEGER column; every caller counts upwards.
pub record UsageRow : Type 0 where
  pub id : String
  pub tenant_id : String
  pub metric : String
  pub period : String
  pub value : ℕ
  pub updated_at : String

pub record MigrationRow : Type 0 where
  pub tenant_id : String
  pub status : String
  pub active_system : String
  pub selected_system_key : Option String
  pub snapshot : SystemSnapshot
  pub last_report : Option MigrationReport
  pub created_at : String
  pub updated_at : String

pub record Db : Type 0 where
  pub accounts : Accounts
  pub roles : List RoleRow
  pub object_types : List ObjectTypeRow
  pub workflows : List WorkflowRow
  pub records : List Rec
  pub relations : List RelationRow
  pub tasks : List Task
  pub approvals : List Approval
  pub audit_logs : List AuditEvent
  pub events : List Event
  pub builder_drafts : List DraftRow
  pub usage_meters : List UsageRow
  pub migration_sessions : List MigrationRow

abbrev pub empty_db : Db
empty_db = record {
  accounts = no_accounts;
  roles = [];
  object_types = [];
  workflows = [];
  records = [];
  relations = [];
  tasks = [];
  approvals = [];
  audit_logs = [];
  events = [];
  builder_drafts = [];
  usage_meters = [];
  migration_sessions = [];
}

-- `INSERT INTO`, where a row that clashes on a unique key is refused.
abbrev pub insert_row {ℓ} : {A : Type ℓ} → (A → Bool) → A → List A → Result (List A)
insert_row clash row table =
    if any clash table then err (map_db_err unique_constraint) else ok (table ++ row ∷ [])
