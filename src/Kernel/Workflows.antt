-- ===== src/Kernel/Workflows.antt =====
-- crates/kernel/src/workflow.rs: workflow definitions
use latent_db.Prelude.{
  String, Bool, ◌&&◌, Option, none, some, List, [], ◌∷◌, ◌++◌, map, find, any, select, update_where,
  sort_by, str_leb, length, ◌==◌, if◌then◌else◌,
}
use latent_db.Contracts.Json.{number, string, object, from_map}
use latent_db.Contracts.Error.{ok, not_found}
use latent_db.Contracts.Auth.{AuthContext}
use latent_db.Contracts.Permission.{Action}
use latent_db.Contracts.Workflow.{WorkflowDef}
use latent_db.Kernel.Host.{Kernel}
use latent_db.Kernel.Store.{Db, WorkflowRow}
use latent_db.Kernel.Exec.{
  Exec, ◌>>=◌, ◌>>◌, pure, lift, or_raise, fresh_id, current_time, query, execute, transaction,
}
use latent_db.Kernel.Audit.{event_from, insert_audit}
use latent_db.Kernel.Rbac.{authorize}
use latent_db.Kernel.Validate.{validate_workflow}

abbrev pub is_workflow : String → String → WorkflowRow → Bool
is_workflow tenant_id key row = row.tenant_id == tenant_id && row.def.key == key

-- `INSERT … ON CONFLICT(tenant_id, key) DO UPDATE`
unfoldable pub upsert_workflow : String → WorkflowDef → Db → Db
upsert_workflow tenant_id def db = record db {
  workflows =
      if any (is_workflow tenant_id def.key) db.workflows
      then update_where (is_workflow tenant_id def.key) (λ row. record row { def = def })
          db.workflows
      else db.workflows ++ record { tenant_id = tenant_id; def = def } ∷ [];
}

-- The transaction of `create_workflow`.
unfoldable pub store_workflow : Kernel → AuthContext → WorkflowDef → Exec (Unit {0})
unfolding upsert_workflow
store_workflow k ctx def = transaction k (do
  id ← fresh_id k
  execute k (λ db. ok (upsert_workflow ctx.tenant_id def db))
  ev ← event_from k ctx "workflow.create" (some "workflow") (some def.key) none (
      some (
        object (
          from_map (
            ("object_type", string def.object_type)
            ∷ ("states", number (k.number_of (length def.states)))
            ∷ []))))
  insert_audit k ev)

unfoldable pub create_workflow : Kernel → AuthContext → WorkflowDef → Exec WorkflowDef
create_workflow k ctx def = do
  authorize k ctx Action.configure "workflows" none
  lift (validate_workflow def)
  now ← current_time k
  store_workflow k ctx def
  pure def

abbrev pub row_def : Option WorkflowRow → Option WorkflowDef
row_def none = none
row_def (some row) = some row.def

unfoldable pub find_workflow : String → String → Db → Option WorkflowDef
find_workflow tenant_id key db = row_def (find (is_workflow tenant_id key) db.workflows)

unfoldable pub load_workflow : Kernel → String → String → Exec (Option WorkflowDef)
unfolding find_workflow
load_workflow k tenant_id key = query k (find_workflow tenant_id key)

unfoldable pub get_workflow : Kernel → AuthContext → String → Exec WorkflowDef
get_workflow k ctx key = do
  authorize k ctx Action.read "workflows" none
  found ← load_workflow k ctx.tenant_id key
  or_raise found (not_found "workflow not found")

unfoldable pub list_workflows : Kernel → AuthContext → Exec (List WorkflowDef)
list_workflows k ctx = do
  authorize k ctx Action.read "workflows" none
  query k λ db.
      sort_by (λ a b. str_leb a.key b.key)
        (map (λ r. r.def) (select (λ r. r.tenant_id == ctx.tenant_id) db.workflows))

abbrev initial_of : Option WorkflowDef → Option String
initial_of none = none
initial_of (some w) = some w.initial_state

unfoldable pub workflow_initial_state : Kernel → String → String → Exec (Option String)
unfolding load_workflow
workflow_initial_state k tenant_id key = do
  found ← load_workflow k tenant_id key
  pure (initial_of found)
