-- ===== src/Kernel/Writes.antt =====
-- The writes that the services of crates/kernel/src make on behalf of one tenant, as a step relation
-- on the tables, and its closure.
pub mod Basics
pub mod Stores
pub mod Approvals
use latent_db.Prelude.{String, Bool, Option, ◌≡◌, refl}
use latent_db.Contracts.Error.{Result, ok}
use latent_db.Contracts.Json.{JsonMap}
use latent_db.Contracts.Auth.{AuthContext}
use latent_db.Contracts.Field.{ObjectTypeDef}
use latent_db.Contracts.Workflow.{WorkflowDef}
use latent_db.Contracts.Record.{Rec, Lifecycle}
use latent_db.Contracts.Audit.{AuditEvent, Event}
use latent_db.Kernel.Store.{Db, ObjectTypeRow, RelationRow, Task, Approval}
use latent_db.Kernel.Exec.Frames.{Guarantee}
use latent_db.Kernel.Audit.{add_audit, add_event}
use latent_db.Kernel.Objects.{add_type, update_types}
use latent_db.Kernel.Workflows.{upsert_workflow}
use latent_db.Kernel.Records.{add_record, update_records, set_data, set_columns}
use latent_db.Kernel.Relations.{add_relation}
use latent_db.Kernel.Tasks.{add_task, set_task_status, close_tasks}
use latent_db.Kernel.Approvals.{add_approval, set_decision, set_state}

pub data Write (t : String) (d : Db) (d' : Db) : Type 0 where
  writes_audit : (ev : AuditEvent) → ev.tenant_id ≡ t → add_audit ev d ≡ ok d' → Write t d d'
  writes_event : (ev : Event) → ev.tenant_id ≡ t → add_event ev d ≡ ok d' → Write t d d'
  writes_type : (row : ObjectTypeRow) → row.tenant_id ≡ t → add_type row d ≡ ok d' → Write t d d'
  replaces_type :
      (key : String) (def : ObjectTypeDef) → d' ≡ update_types t key def d → Write t d d'
  writes_workflow : (def : WorkflowDef) → d' ≡ upsert_workflow t def d → Write t d d'
  writes_record : (r : Rec) → r.tenant_id ≡ t → add_record r d ≡ ok d' → Write t d d'
  writes_fields :
      (id : String) (m : JsonMap) (now : String)
      → d' ≡ update_records t id (set_data m now) d
      → Write t d d'
  writes_lifecycle :
      (id : String) (l : Lifecycle) (now : String)
      → d' ≡ update_records t id (set_columns l now) d
      → Write t d d'
  writes_state :
      (id state now : String) → d' ≡ update_records t id (set_state state now) d → Write t d d'
  writes_relation : (row : RelationRow) → row.tenant_id ≡ t → d' ≡ add_relation row d → Write t d d'
  writes_task : (task : Task) → task.tenant_id ≡ t → add_task task d ≡ ok d' → Write t d d'
  writes_status : (id status now : String) → d' ≡ set_task_status t id status now d → Write t d d'
  closes_tasks : (id status now : String) → d' ≡ close_tasks t id status now d → Write t d d'
  writes_approval : (a : Approval) → a.tenant_id ≡ t → add_approval a d ≡ ok d' → Write t d d'
  writes_decision :
      (ctx : AuthContext) (id : String) (approved : Bool) (reason : Option String) (now : String)
      → ctx.tenant_id ≡ t
      → d' ≡ set_decision ctx id approved reason now d
      → Write t d d'

-- Any number of writes, in order.
pub data Writes (t : String) (d : Db) : Db → Type 0 where
  none_made : Writes t d d
  then_made : {a b : Db} → Writes t d a → Write t a b → Writes t d b

pub one-Write : {t : String} {a b : Db} → Write t a b → Writes t a b
one-Write w = then_made none_made w

pub Writes-trans : (t : String) (a b c : Db) → Writes t a b → Writes t b c → Writes t a c
Writes-trans t a b c p none_made = p
Writes-trans t a b c p (then_made q w) = then_made (Writes-trans t a b _ p q) w

unfoldable pub in_tenant : String → Guarantee
in_tenant t = record { rel = Writes t; rel_refl = λ d. none_made; rel_trans = Writes-trans t }
