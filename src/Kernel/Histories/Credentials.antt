-- ===== src/Kernel/Histories/Credentials.antt =====
-- The accounts and the credentials, over the histories of the services of crates/kernel/src.
use latent_db.Prelude.{List, [], ◌∷◌, ◌≡◌, refl, ap, ◌∙◌, String}
use latent_db.Contracts.Auth.{AuthContext}
use latent_db.Kernel.Host.{Kernel}
use latent_db.Kernel.Store.{Db}
use latent_db.Kernel.Exec.{State}
use latent_db.Kernel.Calls.{Call, step, run}
use latent_db.Kernel.Histories.Lists.{inserted}
use latent_db.Kernel.Audit.{add_audit, add_event}
use latent_db.Kernel.Objects.{add_type, update_types}
use latent_db.Kernel.Workflows.{upsert_workflow}
use latent_db.Kernel.Records.{add_record, update_records}
use latent_db.Kernel.Relations.{add_relation}
use latent_db.Kernel.Tasks.{add_task, set_task_status, close_tasks}
use latent_db.Kernel.Approvals.{add_approval, set_decision}
use latent_db.Kernel.Writes.{
  Write, Writes, none_made, then_made, in_tenant, writes_audit, writes_event, writes_type,
  replaces_type, writes_workflow, writes_record, writes_fields, writes_lifecycle, writes_state,
  writes_relation, writes_task, writes_status, closes_tasks, writes_approval, writes_decision,
}
use latent_db.Kernel.Writes.Approvals.{in_tenant-Allows}
use latent_db.Kernel.Histories.{step_rel}

module _ (t : String) (d d' : Db) where
  Write-accounts : Write t d d' → d'.accounts ≡ d.accounts
  unfolding add_audit add_event add_type add_record add_relation add_task add_approval update_types
      update_records set_task_status close_tasks set_decision upsert_workflow
  Write-accounts (writes_audit row e h) =
      ap (λ x. x.accounts) (inserted _ _ row d.audit_logs d' h).1
  Write-accounts (writes_event row e h) = ap (λ x. x.accounts) (inserted _ _ row d.events d' h).1
  Write-accounts (writes_type row e h) =
      ap (λ x. x.accounts) (inserted _ _ row d.object_types d' h).1
  Write-accounts (writes_record row e h) = ap (λ x. x.accounts) (inserted _ _ row d.records d' h).1
  Write-accounts (writes_task row e h) = ap (λ x. x.accounts) (inserted _ _ row d.tasks d' h).1
  Write-accounts (writes_approval row e h) =
      ap (λ x. x.accounts) (inserted _ _ row d.approvals d' h).1
  Write-accounts (writes_relation row e h) = ap (λ x. x.accounts) h
  Write-accounts (writes_workflow def h) = ap (λ x. x.accounts) h
  Write-accounts (replaces_type key def h) = ap (λ x. x.accounts) h
  Write-accounts (writes_fields id m now h) = ap (λ x. x.accounts) h
  Write-accounts (writes_lifecycle id l now h) = ap (λ x. x.accounts) h
  Write-accounts (writes_state id state now h) = ap (λ x. x.accounts) h
  Write-accounts (writes_status id status now h) = ap (λ x. x.accounts) h
  Write-accounts (closes_tasks id status now h) = ap (λ x. x.accounts) h
  Write-accounts (writes_decision ctx id approved reason now e h) = ap (λ x. x.accounts) h

Writes-accounts : (t : String) (d d' : Db) → Writes t d d' → d'.accounts ≡ d.accounts
Writes-accounts t d d' none_made = refl
Writes-accounts t d d' (then_made {a} w v) = Write-accounts t a d' v ∙ Writes-accounts t d a w

-- No call of a history changes the tenants, the users, the sessions or the keys.
pub run-accounts :
    (k : Kernel) (calls : List (AuthContext × Call)) (s : State)
    → (run k calls s).db.accounts ≡ s.db.accounts
unfolding run in_tenant
run-accounts k [] s = refl
run-accounts k ((ctx, c) ∷ rest) s =
    run-accounts k rest (step k ctx c s)
    ∙ Writes-accounts ctx.tenant_id s.db _ (step_rel k ctx (in_tenant-Allows k ctx) c s)
