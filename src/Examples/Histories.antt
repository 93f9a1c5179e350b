-- ===== src/Examples/Histories.antt =====
-- Concrete runs: histories of calls.
use latent_db.Prelude.{List, ◌++◌, ◌≡◌, ◌⊎◌, ◌<◌, refl, length, All}
use latent_db.Contracts.Audit.{AuditEvent}
use latent_db.Kernel.Calls.{step, run, creates_workflow, archives_record}
use latent_db.Kernel.Audited.{content}
use latent_db.Kernel.Audited.Services.{step-audited}
use latent_db.Kernel.Histories.Isolation.{rows_of, run-rows_of}
use latent_db.Kernel.Histories.AuditLog.{step-log, run-log}
use latent_db.Examples.{kernel, flow, store, start, admin, calls}

run-rows_of_example : rows_of "acme" (run kernel calls start).db ≡ rows_of "acme" store
run-rows_of_example = run-rows_of kernel "acme" calls start (refl, (refl, tt))

step-audited_example :
    (content (step kernel admin (creates_workflow flow) start).db ≡ content store)
    ⊎ (length store.audit_logs
        < length (step kernel admin (creates_workflow flow) start).db.audit_logs)
step-audited_example = step-audited kernel admin (creates_workflow flow) start

run-log_example :
    (l : List AuditEvent) × ((run kernel calls start).db.audit_logs ≡ store.audit_logs ++ l)
run-log_example = run-log kernel calls start

step-log_example :
    (l : List AuditEvent) × ((step kernel admin (archives_record "n1") start).db.audit_logs
      ≡ store.audit_logs ++ l)
    × All (λ ev. ev.tenant_id ≡ "acme") l
step-log_example = step-log kernel admin (archives_record "n1") start
