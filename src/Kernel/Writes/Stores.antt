-- ===== src/Kernel/Writes/Stores.antt =====
-- The transactions of the object type, workflow, record, relation and task services, as writes.
use latent_db.Prelude.{String, Option, ◌≡◌, refl}
use latent_db.Contracts.Json.{Value, JsonMap}
use latent_db.Contracts.Error.{ok}
use latent_db.Contracts.Auth.{AuthContext}
use latent_db.Contracts.Field.{ObjectTypeDef}
use latent_db.Contracts.Workflow.{WorkflowDef}
use latent_db.Contracts.Record.{Rec, Lifecycle}
use latent_db.Kernel.Host.{Kernel}
use latent_db.Kernel.Store.{Task}
use latent_db.Kernel.Exec.{execute, statement}
use latent_db.Kernel.Exec.Frames.{Frames, Frames-bind, Frames-statement, Frames-transaction}
use latent_db.Kernel.Objects.{store_type, store_update, replace_type}
use latent_db.Kernel.Workflows.{store_workflow, upsert_workflow}
use latent_db.Kernel.Records.{store_record, store_fields, store_lifecycle}
use latent_db.Kernel.Relations.{store_relation}
use latent_db.Kernel.Tasks.{insert_task, store_task, store_status, close_tasks_for_approval}
use latent_db.Kernel.Writes.{
  in_tenant, one-Write, writes_type, replaces_type, writes_workflow, writes_record, writes_fields,
  writes_lifecycle, writes_relation, writes_task, writes_status, closes_tasks,
}
use latent_db.Kernel.Writes.Basics.{write_rules, writing-Frames, updating-Frames}

module _ (k : Kernel) (ctx : AuthContext) where
  pub store_type-Frames :
      (def : ObjectTypeDef) → Frames (in_tenant ctx.tenant_id) (store_type k ctx def)
  unfolding store_type
  store_type-Frames def = Frames-transaction k _ (
      Frames-bind _ _ (writing-Frames k _ _ (λ d d' e. writes_type _ refl e))
        (λ _. search write_rules))

  pub replace_type-Frames :
      (key : String) (def : ObjectTypeDef)
      → Frames (in_tenant ctx.tenant_id) (statement k (replace_type ctx.tenant_id key def))
  unfolding replace_type in_tenant
  replace_type-Frames key def =
      Frames-statement k _ (λ d a d' e. one-Write (replaces_type key def (cc)))

  pub store_update-Frames :
      (key : String) (before def : ObjectTypeDef)
      → Frames (in_tenant ctx.tenant_id) (store_update k ctx key before def)
  unfolding store_update
  store_update-Frames key before def = search (write_rules, replace_type-Frames) depth 14

  pub workflow_written :
      (def : WorkflowDef)
      → Frames
          (in_tenant ctx.tenant_id)
          (execute k (λ db. ok (upsert_workflow ctx.tenant_id def db)))
  workflow_written def = updating-Frames k _ _ (λ d d' e. writes_workflow def e)

  pub store_workflow-Frames :
      (def : WorkflowDef) → Frames (in_tenant ctx.tenant_id) (store_workflow k ctx def)
  unfolding store_workflow
  store_workflow-Frames def = search (write_rules, workflow_written) depth 10

  pub store_record-Frames :
      (r : Rec)
      → r.tenant_id ≡ ctx.tenant_id
      → Frames (in_tenant ctx.tenant_id) (store_record k ctx r)
  unfolding store_record
  store_record-Frames r h = Frames-transaction k _ (
      Frames-bind _ _ (writing-Frames k _ _ (λ d d' e. writes_record r h e))
        (λ _. search write_rules depth 10))

  pub store_fields-Frames :
      (r : Rec) (m : JsonMap) (id now : String)
      → Frames (in_tenant ctx.tenant_id) (store_fields k ctx r m id now)
  unfolding store_fields
  store_fields-Frames r m id now = Frames-transaction k _ (
      Frames-bind _ _ (updating-Frames k _ _ (λ d d' e. writes_fields id m now e))
        (λ _. search write_rules depth 10))

  pub store_lifecycle-Frames :
      (r : Rec) (l : Lifecycle) (id now : String)
      → Frames (in_tenant ctx.tenant_id) (store_lifecycle k ctx r l id now)
  unfolding store_lifecycle
  store_lifecycle-Frames r l id now = Frames-transaction k _ (
      Frames-bind _ _ (updating-Frames k _ _ (λ d d' e. writes_lifecycle id l now e))
        (λ _. search write_rules depth 10))

  pub store_relation-Frames :
      (from : Rec) (from_id to_id relation_type id now : String)
      → Frames
          (in_tenant ctx.tenant_id)
          (store_relation k ctx from from_id to_id relation_type id now)
  unfolding store_relation
  store_relation-Frames from from_id to_id relation_type id now = Frames-transaction k _ (
      Frames-bind _ _ (updating-Frames k _ _ (λ d d' e. writes_relation _ refl e))
        (λ _. search write_rules depth 10))

  pub insert_task-Frames :
      (id kind title : String) (assignee ot rid : Option String) (payload : Value)
      → Frames (in_tenant ctx.tenant_id) (insert_task k ctx id kind title assignee ot rid payload)
  unfolding insert_task
  insert_task-Frames id kind title assignee ot rid payload =
      Frames-bind _ _ (search write_rules)
        λ now. writing-Frames k _ _ (λ d d' e. writes_task _ refl e)

  pub store_task-Frames :
      (id kind title : String) (assignee ot rid : Option String) (payload : Value)
      → Frames (in_tenant ctx.tenant_id) (store_task k ctx id kind title assignee ot rid payload)
  unfolding store_task
  store_task-Frames id kind title assignee ot rid payload =
      search (write_rules, insert_task-Frames) depth 10

  pub store_status-Frames :
      (t : Task) (id status now : String)
      → Frames (in_tenant ctx.tenant_id) (store_status k ctx t id status now)
  unfolding store_status
  store_status-Frames t id status now = Frames-transaction k _ (
      Frames-bind _ _ (updating-Frames k _ _ (λ d d' e. writes_status id status now e))
        (λ _. search write_rules depth 10))

  pub close_tasks-Frames :
      (id status : String)
      → Frames (in_tenant ctx.tenant_id) (close_tasks_for_approval k ctx.tenant_id id status)
  unfolding close_tasks_for_approval
  close_tasks-Frames id status =
      Frames-bind _ _ (search write_rules)
        λ now. updating-Frames k _ _ (λ d d' e. closes_tasks id status now e)
