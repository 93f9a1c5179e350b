-- ===== src/Kernel/Audited/Stores.antt =====
-- The transactions of the services and the audit event at the end of each.
use latent_db.Prelude.{String, Option, ◌≡◌, refl, ap, arith, List, length, ◌++◌, ◌∷◌, [], suc}
use latent_db.Contracts.Json.{Value, JsonMap}
use latent_db.Contracts.Auth.{AuthContext}
use latent_db.Contracts.Audit.{AuditEvent}
use latent_db.Contracts.Field.{ObjectTypeDef}
use latent_db.Contracts.Workflow.{Transition, WorkflowDef}
use latent_db.Contracts.Record.{Rec, Lifecycle}
use latent_db.Kernel.Host.{Kernel}
use latent_db.Kernel.Store.{Task}
use latent_db.Kernel.Exec.{Exec, ◌>>=◌, transaction}
use latent_db.Kernel.Exec.Frames.{Frames, frames_rules}
use latent_db.Kernel.Audit.{event_from, insert_audit, add_audit}
use latent_db.Kernel.Histories.Lists.{inserted}
use latent_db.Kernel.Objects.{store_type, store_update}
use latent_db.Kernel.Workflows.{store_workflow}
use latent_db.Kernel.Records.{store_record, store_fields, store_lifecycle}
use latent_db.Kernel.Relations.{store_relation}
use latent_db.Kernel.Tasks.{store_task, store_status}
use latent_db.Kernel.Transitions.{request_approval, move_record}
use latent_db.Kernel.Writes.{
  in_tenant, writes_type, writes_record, writes_fields, writes_lifecycle, writes_relation,
  writes_status,
}
use latent_db.Kernel.Writes.Basics.{write_rules, writing-Frames, updating-Frames}
use latent_db.Kernel.Writes.Stores.{replace_type-Frames, workflow_written, insert_task-Frames}
use latent_db.Kernel.Writes.Approvals.{insert_approval-Frames, state_written}
use latent_db.Kernel.Audited.{audited}
use latent_db.Kernel.Audited.Rules.{
  Settles, Settles-execute, Logs, Frames-growing, Logs-left, Logs-right, Frames-logged,
}

pub longer : (xs : List AuditEvent) (x : AuditEvent) → length (xs ++ x ∷ []) ≡ suc (length xs)
longer [] x = refl
longer (y ∷ xs) x = ap suc (longer xs x)

pub insert_audit-Logs : (k : Kernel) (ev : AuditEvent) → Settles Logs (insert_audit k ev)
unfolding insert_audit add_audit
insert_audit-Logs k ev = Settles-execute Logs k _ λ d d' e.
    let q = ap (λ x. length x.audit_logs) (inserted _ _ ev d.audit_logs d' e).1 in
    let l = longer d.audit_logs ev in omega arith

module _ (k : Kernel) (ctx : AuthContext) where
  -- An action that writes within the tenant, then one that logs.
  pub then-Logs {ℓ κ} :
      {A : Type ℓ} {B : Type κ} (m : Exec A) (f : A → Exec B)
      → Frames (in_tenant ctx.tenant_id) m
      → ((a : A) → Settles Logs (f a))
      → Settles Logs (m >>= f)
  then-Logs m f fm sf = Logs-right m f (Frames-growing ctx.tenant_id m fm) sf

  pub Logs-then {ℓ κ} :
      {A : Type ℓ} {B : Type κ} (m : Exec A) (f : A → Exec B)
      → Settles Logs m
      → ((a : A) → Frames (in_tenant ctx.tenant_id) (f a))
      → Settles Logs (m >>= f)
  Logs-then m f sm ff = Logs-left m f sm λ a. Frames-growing ctx.tenant_id (f a) (ff a)

  pub event_from-then :
      (action : String) (ot rid : Option String) (b a : Option Value)
      (f : AuditEvent → Exec (Unit {0}))
      → ((ev : AuditEvent) → Settles Logs (f ev))
      → Settles Logs (event_from k ctx action ot rid b a >>= f)
  unfolding event_from
  event_from-then action ot rid b a f h = then-Logs _ f (search frames_rules) h

  pub store_type-logged : (def : ObjectTypeDef) → Frames audited (store_type k ctx def)
  unfolding store_type
  store_type-logged def = Frames-logged k _ (
      then-Logs _ _ (writing-Frames k _ _ (λ d d' e. writes_type _ refl e))
        λ _. event_from-then _ _ _ _ _ _ λ ev. insert_audit-Logs k ev)

  pub store_update-logged :
      (key : String) (before def : ObjectTypeDef)
      → Frames audited (store_update k ctx key before def)
  unfolding store_update
  store_update-logged key before def = Frames-logged k _ (
      then-Logs _ _ (replace_type-Frames k ctx key def) λ affected.
        then-Logs _ _ (search frames_rules)
          λ _. event_from-then _ _ _ _ _ _ λ ev. insert_audit-Logs k ev)

  pub store_workflow-logged : (def : WorkflowDef) → Frames audited (store_workflow k ctx def)
  unfolding store_workflow
  store_workflow-logged def = Frames-logged k _ (
      then-Logs _ _ (search frames_rules) λ id.
        then-Logs _ _ (workflow_written k ctx def)
          λ _. event_from-then _ _ _ _ _ _ λ ev. insert_audit-Logs k ev)

  pub store_record-logged :
      (r : Rec) → r.tenant_id ≡ ctx.tenant_id → Frames audited (store_record k ctx r)
  unfolding store_record
  store_record-logged r h = Frames-logged k _ (
      then-Logs _ _ (writing-Frames k _ _ (λ d d' e. writes_record r h e)) λ _.
        event_from-then _ _ _ _ _ _
          λ ev. Logs-then _ _ (insert_audit-Logs k ev) λ _. search write_rules)

  pub store_fields-logged :
      (r : Rec) (m : JsonMap) (id now : String) → Frames audited (store_fields k ctx r m id now)
  unfolding store_fields
  store_fields-logged r m id now = Frames-logged k _ (
      then-Logs _ _ (updating-Frames k _ _ (λ d d' e. writes_fields id m now e)) λ _.
        event_from-then _ _ _ _ _ _
          λ ev. Logs-then _ _ (insert_audit-Logs k ev) λ _. search write_rules)

  pub store_lifecycle-logged :
      (r : Rec) (l : Lifecycle) (id now : String)
      → Frames audited (store_lifecycle k ctx r l id now)
  unfolding store_lifecycle
  store_lifecycle-logged r l id now = Frames-logged k _ (
      then-Logs _ _ (updating-Frames k _ _ (λ d d' e. writes_lifecycle id l now e))
        λ _. event_from-then _ _ _ _ _ _ λ ev. insert_audit-Logs k ev)

  pub store_relation-logged :
      (from : Rec) (from_id to_id relation_type id now : String)
      → Frames audited (store_relation k ctx from from_id to_id relation_type id now)
  unfolding store_relation
  store_relation-logged from from_id to_id relation_type id now = Frames-logged k _ (
      then-Logs _ _ (updating-Frames k _ _ (λ d d' e. writes_relation _ refl e))
        λ _. event_from-then _ _ _ _ _ _ λ ev. insert_audit-Logs k ev)

  pub store_task-logged :
      (id kind title : String) (assignee ot rid : Option String) (payload : Value)
      → Frames audited (store_task k ctx id kind title assignee ot rid payload)
  unfolding store_task
  store_task-logged id kind title assignee ot rid payload = Frames-logged k _ (
      then-Logs _ _ (insert_task-Frames k ctx id kind title assignee ot rid payload)
        λ _. event_from-then _ _ _ _ _ _ λ ev. insert_audit-Logs k ev)

  pub store_status-logged :
      (t : Task) (id status now : String) → Frames audited (store_status k ctx t id status now)
  unfolding store_status
  store_status-logged t id status now = Frames-logged k _ (
      then-Logs _ _ (updating-Frames k _ _ (λ d d' e. writes_status id status now e))
        λ _. event_from-then _ _ _ _ _ _ λ ev. insert_audit-Logs k ev)

  pub request_approval-logged :
      (r : Rec) (id : String) (t : Transition) (current : String) (reason : Option String)
      (approval_id task_id : String)
      → Frames audited
          (transaction k (request_approval k ctx r id t current reason approval_id task_id))
  unfolding request_approval
  request_approval-logged r id t current reason approval_id task_id = Frames-logged k _ (
      then-Logs _ _ (insert_approval-Frames k ctx _ _ _ _ _ _ _ _) λ _.
        then-Logs _ _ (insert_task-Frames k ctx _ _ _ _ _ _ _) λ _.
          event_from-then _ _ _ _ _ _
            λ ev. Logs-then _ _ (insert_audit-Logs k _) λ _. search write_rules)

  pub move_record-logged :
      (r : Rec) (id : String) (t : Transition) (current : String) (reason : Option String)
      (now : String)
      → Frames audited (transaction k (move_record k ctx r id t current reason now))
  unfolding move_record
  move_record-logged r id t current reason now = Frames-logged k _ (
      then-Logs _ _ (state_written k ctx _ _ _) λ _.
        event_from-then _ _ _ _ _ _
          λ ev. Logs-then _ _ (insert_audit-Logs k _) λ _. search write_rules)
