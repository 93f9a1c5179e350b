-- ===== src/Kernel/Histories/Isolation.antt =====
-- The rows of one tenant, over the histories of the services of crates/kernel/src.
use latent_db.Prelude.{
  String, Bool, true, false, ◌&&◌, List, [], ◌∷◌, ◌≡◌, refl, ap, ◌∙◌, ◌==◌, eq_iff, arith, select,
  All,
}
use latent_db.Contracts.Auth.{AuthContext}
use latent_db.Contracts.Workflow.{WorkflowDef}
use latent_db.Kernel.Host.{Kernel}
use latent_db.Kernel.Store.{Db, Accounts}
use latent_db.Kernel.Exec.{State}
use latent_db.Kernel.Calls.{Call, step, run}
use latent_db.Kernel.Histories.Lists.{
  inserted, added-select, upserted-select, select-insert, select-update_where,
}
use latent_db.Kernel.Audit.{add_audit, add_event}
use latent_db.Kernel.Objects.{is_type, replace_def, add_type}
use latent_db.Kernel.Workflows.{is_workflow, upsert_workflow}
use latent_db.Kernel.Records.{is_record, add_record, update_records, set_data, set_columns}
use latent_db.Kernel.Relations.{add_relation}
use latent_db.Kernel.Tasks.{is_task, approval_id_is, add_task, set_task_status, close_tasks}
use latent_db.Kernel.Approvals.{is_approval, decide, add_approval, set_decision, set_state}
use latent_db.Kernel.Writes.{
  Write, Writes, none_made, then_made, in_tenant, writes_audit, writes_event, writes_type,
  replaces_type, writes_workflow, writes_record, writes_fields, writes_lifecycle, writes_state,
  writes_relation, writes_task, writes_status, closes_tasks, writes_approval, writes_decision,
}
use latent_db.Kernel.Writes.Approvals.{in_tenant-Allows}
use latent_db.Kernel.Histories.{step_rel}

-- The rows of one tenant, of every table.
abbrev accounts_of : String → Accounts → Accounts
accounts_of u a = record {
  tenants = select (λ x. x.id == u) a.tenants;
  organizations = select (λ x. x.tenant_id == u) a.organizations;
  workspaces = select (λ x. x.tenant_id == u) a.workspaces;
  users = select (λ x. x.tenant_id == u) a.users;
  service_accounts = select (λ x. x.tenant_id == u) a.service_accounts;
  role_assignments = select (λ x. x.tenant_id == u) a.role_assignments;
  api_keys = select (λ x. x.tenant_id == u) a.api_keys;
  sessions = select (λ x. x.tenant_id == u) a.sessions;
}

unfoldable pub rows_of : String → Db → Db
rows_of u db = record {
  accounts = accounts_of u db.accounts;
  roles = select (λ x. x.tenant_id == u) db.roles;
  object_types = select (λ x. x.tenant_id == u) db.object_types;
  workflows = select (λ x. x.tenant_id == u) db.workflows;
  records = select (λ x. x.tenant_id == u) db.records;
  relations = select (λ x. x.tenant_id == u) db.relations;
  tasks = select (λ x. x.tenant_id == u) db.tasks;
  approvals = select (λ x. x.tenant_id == u) db.approvals;
  audit_logs = select (λ x. x.tenant_id == u) db.audit_logs;
  events = select (λ x. x.tenant_id == u) db.events;
  builder_drafts = select (λ x. x.tenant_id == u) db.builder_drafts;
  usage_meters = select (λ x. x.tenant_id == u) db.usage_meters;
  migration_sessions = select (λ x. x.tenant_id == u) db.migration_sessions;
}

-- A row that the acting tenant's `WHERE` clause meets is not the other tenant's.
meets : (t u x : String) (b : Bool) → (t == u) ≡ false → (x == t && b) ≡ true → (x == u) ≡ false
meets t u x b ne e = let i = eq_iff x t in grind arith

module _ (t u : String) (ne : (t == u) ≡ false) (d : Db) where
  foreign : (x : String) → x ≡ t → (x == u) ≡ false
  foreign x e = ap (λ y. y == u) e ∙ ne

  upsert_workflow-rows : (def : WorkflowDef) → rows_of u (upsert_workflow t def d) ≡ rows_of u d
  unfolding upsert_workflow rows_of
  upsert_workflow-rows def =
      ap (λ x. record (rows_of u d) { workflows = x })
        (upserted-select (λ x. x.tenant_id == u) (is_workflow t def.key)
          (λ row. record row { def = def }) (record { tenant_id = t; def = def }) d.workflows ne
          (λ x h. (meets t u x.tenant_id _ ne h, meets t u x.tenant_id _ ne h)))

  Write-rows : (d' : Db) → Write t d d' → rows_of u d' ≡ rows_of u d
  unfolding rows_of add_audit add_event add_type add_record add_relation add_task add_approval
      update_records set_task_status close_tasks set_decision
  Write-rows d' (writes_audit row e h) =
      ap (rows_of u) (inserted _ _ row d.audit_logs d' h).1
      ∙ ap (λ x. record (rows_of u d) { audit_logs = x })
          (select-insert (λ x. x.tenant_id == u) row d.audit_logs (foreign row.tenant_id e))
  Write-rows d' (writes_event row e h) =
      ap (rows_of u) (inserted _ _ row d.events d' h).1
      ∙ ap (λ x. record (rows_of u d) { events = x })
          (select-insert (λ x. x.tenant_id == u) row d.events (foreign row.tenant_id e))
  Write-rows d' (writes_type row e h) =
      ap (rows_of u) (inserted _ _ row d.object_types d' h).1
      ∙ ap (λ x. record (rows_of u d) { object_types = x })
          (select-insert (λ x. x.tenant_id == u) row d.object_types (foreign row.tenant_id e))
  Write-rows d' (writes_record row e h) =
      ap (rows_of u) (inserted _ _ row d.records d' h).1
      ∙ ap (λ x. record (rows_of u d) { records = x })
          (select-insert (λ x. x.tenant_id == u) row d.records (foreign row.tenant_id e))
  Write-rows d' (writes_task row e h) =
      ap (rows_of u) (inserted _ _ row d.tasks d' h).1
      ∙ ap (λ x. record (rows_of u d) { tasks = x })
          (select-insert (λ x. x.tenant_id == u) row d.tasks (foreign row.tenant_id e))
  Write-rows d' (writes_approval row e h) =
      ap (rows_of u) (inserted _ _ row d.approvals d' h).1
      ∙ ap (λ x. record (rows_of u d) { approvals = x })
          (select-insert (λ x. x.tenant_id == u) row d.approvals (foreign row.tenant_id e))
  Write-rows d' (writes_relation row e h) =
      ap (rows_of u) h
      ∙ ap (λ x. record (rows_of u d) { relations = x })
          (added-select (λ x. x.tenant_id == u) _ row d.relations (foreign row.tenant_id e))
  Write-rows d' (writes_workflow def h) = ap (rows_of u) h ∙ upsert_workflow-rows def
  Write-rows d' (replaces_type key def h) =
      ap (rows_of u) h
      ∙ ap (λ x. record (rows_of u d) { object_types = x })
          (select-update_where (λ x. x.tenant_id == u) (is_type t key) (replace_def def)
            d.object_types (λ x m. (meets t u x.tenant_id _ ne m, meets t u x.tenant_id _ ne m)))
  Write-rows d' (writes_fields id m now h) =
      ap (rows_of u) h
      ∙ ap (λ x. record (rows_of u d) { records = x })
          (select-update_where (λ x. x.tenant_id == u) (is_record t id) (set_data m now) d.records
            (λ x m. (meets t u x.tenant_id _ ne m, meets t u x.tenant_id _ ne m)))
  Write-rows d' (writes_lifecycle id l now h) =
      ap (rows_of u) h
      ∙ ap (λ x. record (rows_of u d) { records = x })
          (select-update_where (λ x. x.tenant_id == u) (is_record t id) (set_columns l now)
            d.records (λ x m. (meets t u x.tenant_id _ ne m, meets t u x.tenant_id _ ne m)))
  Write-rows d' (writes_state id state now h) =
      ap (rows_of u) h
      ∙ ap (λ x. record (rows_of u d) { records = x })
          (select-update_where (λ x. x.tenant_id == u) (is_record t id) (set_state state now)
            d.records (λ x m. (meets t u x.tenant_id _ ne m, meets t u x.tenant_id _ ne m)))
  Write-rows d' (writes_status id status now h) =
      ap (rows_of u) h
      ∙ ap (λ x. record (rows_of u d) { tasks = x })
          (select-update_where (λ x. x.tenant_id == u) (is_task t id)
            (λ x. record x { status = status; updated_at = now }) d.tasks
            (λ x m. (meets t u x.tenant_id _ ne m, meets t u x.tenant_id _ ne m)))
  Write-rows d' (closes_tasks id status now h) =
      ap (rows_of u) h
      ∙ ap (λ x. record (rows_of u d) { tasks = x })
          (select-update_where (λ x. x.tenant_id == u)
            (λ x. x.tenant_id == t && approval_id_is x.payload id)
            (λ x. record x { status = status; updated_at = now }) d.tasks
            (λ x m. (meets t u x.tenant_id _ ne m, meets t u x.tenant_id _ ne m)))
  Write-rows d' (writes_decision ctx id approved reason now e h) =
      ap (rows_of u) h
      ∙ ap (λ x. record (rows_of u d) { approvals = x })
          (select-update_where (λ x. x.tenant_id == u) (is_approval ctx.tenant_id id)
            (decide ctx approved reason now) d.approvals
            (λ x m.
              let f = meets ctx.tenant_id u x.tenant_id _ (ap (λ y. y == u) e ∙ ne) m in (f, f)))

Writes-rows :
    (t u : String) (d d' : Db) → (t == u) ≡ false → Writes t d d' → rows_of u d' ≡ rows_of u d
Writes-rows t u d d' ne none_made = refl
Writes-rows t u d d' ne (then_made {a} w v) = Write-rows t u ne a d' v ∙ Writes-rows t u d a ne w

-- Whatever the calls of a history are, whatever the database refuses, and whoever makes them, as
-- long as none of the callers belongs to the tenant `u`, every row of `u` in every table is as it
-- was, and none has been added.
pub run-rows_of :
    (k : Kernel) (u : String) (calls : List (AuthContext × Call)) (s : State)
    → All (λ p. (p.0.tenant_id == u) ≡ false) calls
    → rows_of u (run k calls s).db ≡ rows_of u s.db
unfolding run in_tenant
run-rows_of k u [] s h = refl
run-rows_of k u ((ctx, c) ∷ rest) s (h, hs) =
    run-rows_of k u rest (step k ctx c s) hs
    ∙ Writes-rows ctx.tenant_id u s.db _ h (step_rel k ctx (in_tenant-Allows k ctx) c s)
