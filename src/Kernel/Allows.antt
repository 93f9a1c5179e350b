-- ===== src/Kernel/Allows.antt =====
-- What a guarantee must allow for the services of one context to keep to it: the audit event of a
-- denial, and each of the transactions. `Allows/…` go through the services, once for all guarantees.
pub mod Basics
pub mod Accounts
pub mod Records
pub mod Services
use latent_db.Prelude.{String, Bool, Option, ◌≡◌}
use latent_db.Contracts.Json.{Value, JsonMap}
use latent_db.Contracts.Auth.{AuthContext}
use latent_db.Contracts.Permission.{Action, PermissionGrant}
use latent_db.Contracts.Field.{ObjectTypeDef}
use latent_db.Contracts.Workflow.{Transition, WorkflowDef}
use latent_db.Contracts.Record.{Rec, Lifecycle, NewRecord, RecordPatch, RecordFilter}
use latent_db.Contracts.Audit.{AuditEvent}
use latent_db.Kernel.Host.{Kernel}
use latent_db.Kernel.Store.{Task, Approval}
use latent_db.Kernel.Exec.{transaction}
use latent_db.Kernel.Exec.Frames.{Guarantee, Frames}
use latent_db.Kernel.Audit.{insert_audit}
use latent_db.Kernel.Objects.{store_type, store_update}
use latent_db.Kernel.Workflows.{store_workflow}
use latent_db.Kernel.Records.{store_record, store_fields, store_lifecycle}
use latent_db.Kernel.Relations.{store_relation}
use latent_db.Kernel.Tasks.{store_task, store_status}
use latent_db.Kernel.Approvals.{decide_approval}
use latent_db.Kernel.Transitions.{request_approval, move_record}

-- All that a denial writes: an audit event of the context's tenant.
pub record Denies (k : Kernel) (ctx : AuthContext) (G : Guarantee) : Type 0 where
  pub audits : (ev : AuditEvent) → ev.tenant_id ≡ ctx.tenant_id → Frames G (insert_audit k ev)

pub record Allows (k : Kernel) (ctx : AuthContext) (G : Guarantee) : Type 0 where
  pub denials : Denies k ctx G
  pub stores_type : (def : ObjectTypeDef) → Frames G (store_type k ctx def)
  pub stores_update :
      (key : String) (before def : ObjectTypeDef) → Frames G (store_update k ctx key before def)
  pub stores_workflow : (def : WorkflowDef) → Frames G (store_workflow k ctx def)
  pub stores_record : (r : Rec) → r.tenant_id ≡ ctx.tenant_id → Frames G (store_record k ctx r)
  pub stores_fields :
      (r : Rec) (m : JsonMap) (id now : String) → Frames G (store_fields k ctx r m id now)
  pub stores_lifecycle :
      (r : Rec) (l : Lifecycle) (id now : String) → Frames G (store_lifecycle k ctx r l id now)
  pub stores_relation :
      (from : Rec) (from_id to_id relation_type id now : String)
      → Frames G (store_relation k ctx from from_id to_id relation_type id now)
  pub stores_task :
      (id kind title : String) (assignee ot rid : Option String) (payload : Value)
      → Frames G (store_task k ctx id kind title assignee ot rid payload)
  pub stores_status :
      (t : Task) (id status now : String) → Frames G (store_status k ctx t id status now)
  pub requests :
      (r : Rec) (id : String) (t : Transition) (current : String) (reason : Option String)
      (approval_id task_id : String)
      → Frames G (transaction k (request_approval k ctx r id t current reason approval_id task_id))
  pub moves :
      (r : Rec) (id : String) (t : Transition) (current : String) (reason : Option String)
      (now : String)
      → Frames G (transaction k (move_record k ctx r id t current reason now))
  pub decides :
      (id : String) (approved : Bool) (reason : Option String)
      → Frames G (decide_approval k ctx id approved reason)
