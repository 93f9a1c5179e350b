-- ===== src/Kernel/Histories/AuditLog.antt =====
-- The table `audit_logs` of crates/kernel/src/audit.rs over the histories of the services.
use latent_db.Prelude.{String, List, [], ◌∷◌, ◌++◌, ◌≡◌, refl, ap, sym, ◌∙◌, All}
use latent_db.Contracts.Auth.{AuthContext}
use latent_db.Contracts.Audit.{AuditEvent}
use latent_db.Kernel.Host.{Kernel}
use latent_db.Kernel.Store.{Db}
use latent_db.Kernel.Exec.{State}
use latent_db.Kernel.Calls.{Call, step, run}
use latent_db.Kernel.Histories.{step_rel}
use latent_db.Kernel.Histories.Lists.{inserted}
use latent_db.Kernel.Audit.{add_audit, add_event}
use latent_db.Kernel.Objects.{add_type}
use latent_db.Kernel.Workflows.{upsert_workflow}
use latent_db.Kernel.Records.{add_record, update_records}
use latent_db.Kernel.Relations.{add_relation}
use latent_db.Kernel.Tasks.{add_task, set_task_status, close_tasks}
use latent_db.Kernel.Approvals.{add_approval, set_decision}
use latent_db.Kernel.Writes.{
  Write, Writes, none_made, then_made, in_tenant, writes_audit, writes_event, writes_type,
  replaces_type, writes_workflow, writes_record, writes_fields, writes_lifecycle, writes_state,
  writes_relation, writes_task, writes_status, closes_tasks, writes_approval, writes_decision,
}
use latent_db.Kernel.Writes.Approvals.{in_tenant-Allows}

-- The rows from `d` on are the newer ones, and each of them has the property.
abbrev pub Extends : (AuditEvent → Type 0) → Db → Db → Type 0
Extends P d d' = (l : List AuditEvent) × (d'.audit_logs ≡ d.audit_logs ++ l) × All P l

All-++ :
    (P : AuditEvent → Type 0) (xs ys : List AuditEvent) → All P xs → All P ys → All P (xs ++ ys)
All-++ P [] ys h h' = h'
All-++ P (x ∷ xs) ys (p, h) h' = (p, All-++ P xs ys h h')

++_nil : (xs : List AuditEvent) → xs ++ [] ≡ xs
++_nil [] = refl
++_nil (x ∷ xs) = ap (λ l. x ∷ l) (++_nil xs)

++_assoc : (xs ys zs : List AuditEvent) → (xs ++ ys) ++ zs ≡ xs ++ (ys ++ zs)
++_assoc [] ys zs = refl
++_assoc (x ∷ xs) ys zs = ap (λ l. x ∷ l) (++_assoc xs ys zs)

module _ {P : AuditEvent → Type 0} where
  same_log : (d d' : Db) → d'.audit_logs ≡ d.audit_logs → Extends P d d'
  same_log d d' e = ([], e ∙ sym (++_nil d.audit_logs), tt)

  Extends-trans : (a b c : Db) → Extends P a b → Extends P b c → Extends P a c
  Extends-trans a b c (l, e, h) (m, e', h') =
      (l ++ m, e' ∙ ap (λ x. x ++ m) e ∙ ++_assoc a.audit_logs l m, All-++ P l m h h')

-- The event is of the tenant.
abbrev pub IsOf : String → AuditEvent → Type 0
IsOf t ev = ev.tenant_id ≡ t

module _ (t : String) (d : Db) where
  Write-log : (d' : Db) → Write t d d' → Extends (IsOf t) d d'
  unfolding add_audit add_event add_type add_record add_task add_approval upsert_workflow
      add_relation update_records set_task_status close_tasks set_decision
  Write-log d' (writes_audit row e h) =
      (row ∷ [], ap (λ x. x.audit_logs) (inserted _ _ row d.audit_logs d' h).1, (e, tt))
  Write-log d' (writes_event row e h) =
      same_log d d' (ap (λ x. x.audit_logs) (inserted _ _ row d.events d' h).1)
  Write-log d' (writes_type row e h) =
      same_log d d' (ap (λ x. x.audit_logs) (inserted _ _ row d.object_types d' h).1)
  Write-log d' (writes_record row e h) =
      same_log d d' (ap (λ x. x.audit_logs) (inserted _ _ row d.records d' h).1)
  Write-log d' (writes_task row e h) =
      same_log d d' (ap (λ x. x.audit_logs) (inserted _ _ row d.tasks d' h).1)
  Write-log d' (writes_approval row e h) =
      same_log d d' (ap (λ x. x.audit_logs) (inserted _ _ row d.approvals d' h).1)
  Write-log d' (writes_relation row e h) = same_log d d' (ap (λ x. x.audit_logs) h)
  Write-log d' (writes_workflow def h) = same_log d d' (ap (λ x. x.audit_logs) h)
  Write-log d' (replaces_type key def h) = same_log d d' (ap (λ x. x.audit_logs) h)
  Write-log d' (writes_fields id m now h) = same_log d d' (ap (λ x. x.audit_logs) h)
  Write-log d' (writes_lifecycle id l now h) = same_log d d' (ap (λ x. x.audit_logs) h)
  Write-log d' (writes_state id state now h) = same_log d d' (ap (λ x. x.audit_logs) h)
  Write-log d' (writes_status id status now h) = same_log d d' (ap (λ x. x.audit_logs) h)
  Write-log d' (closes_tasks id status now h) = same_log d d' (ap (λ x. x.audit_logs) h)
  Write-log d' (writes_decision ctx id approved reason now e h) =
      same_log d d' (ap (λ x. x.audit_logs) h)

module _ (t : String) (d : Db) where
  pub Writes-log : (d' : Db) → Writes t d d' → Extends (IsOf t) d d'
  Writes-log d' none_made = same_log d d refl
  Writes-log d' (then_made {a} w v) = Extends-trans d a d' (Writes-log a w) (Write-log t a d' v)

-- One call adds events of the caller's tenant to the end of the audit log, if any, and changes
-- nothing of what stood there, whatever the call answers and whatever the database refuses.
pub step-log :
    (k : Kernel) (ctx : AuthContext) (c : Call) (s : State)
    → (l : List AuditEvent) × ((step k ctx c s).db.audit_logs ≡ s.db.audit_logs ++ l)
      × All (λ ev. ev.tenant_id ≡ ctx.tenant_id) l
unfolding in_tenant
step-log k ctx c s = Writes-log ctx.tenant_id s.db _ (step_rel k ctx (in_tenant-Allows k ctx) c s)

-- Over every history the audit log only grows, at its end.
pub run-log :
    (k : Kernel) (calls : List (AuthContext × Call)) (s : State)
    → (l : List AuditEvent) × ((run k calls s).db.audit_logs ≡ s.db.audit_logs ++ l)
unfolding run
run-log k [] s = ([], sym (++_nil s.db.audit_logs))
run-log k ((ctx, c) ∷ rest) s =
    let (l, e, h) = step-log k ctx c s in
    let (m, e') = run-log k rest (step k ctx c s) in
    (l ++ m, e' ∙ ap (λ x. x ++ m) e ∙ ++_assoc s.db.audit_logs l m)
