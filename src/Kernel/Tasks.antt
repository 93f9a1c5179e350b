-- ===== src/Kernel/Tasks.antt =====
-- crates/kernel/src/task.rs
use latent_db.Prelude.{
  String, Bool, true, false, ◌&&◌, ◌||◌, Option, none, some, List, [], ◌∷◌, find, select,
  update_where, sort_by, str_leb, option_str_eq, ◌==◌, if◌then◌else◌,
}
use latent_db.Contracts.Json.{Value, string, object, entry, Fields, end, from_map}
use latent_db.Contracts.Error.{
  Result, ok, err, panic, forbidden, not_found, validation, failed_precondition,
}
use latent_db.Contracts.Auth.{AuthContext}
use latent_db.Contracts.Permission.{Action}
use latent_db.Kernel.Host.{Kernel}
use latent_db.Kernel.Store.{Db, Task, insert_row}
use latent_db.Kernel.Exec.{
  Exec, ◌>>=◌, ◌>>◌, pure, raise, or_raise, ensure, fresh_id, current_time, query, execute,
  transaction,
}
use latent_db.Kernel.Audit.{event_from, insert_audit, audit_denial}
use latent_db.Kernel.Rbac.{authorize, effective_grants, grants_allow}

unfoldable pub add_task : Task → Db → Result Db
add_task t db = elim (insert_row (λ x. x.id == t.id) t db.tasks) [
  | ok rows ↦ ok (record db { tasks = rows })
  | err e ↦ err e
  | panic ↦ panic
]

abbrev new_task :
    AuthContext
    → String
    → String
    → String
    → Option String
    → Option String
    → Option String
    → Value
    → String
    → Task
new_task ctx id kind title assignee_id related_object_type related_record_id payload now = record {
  id = id;
  tenant_id = ctx.tenant_id;
  org_id = ctx.org_id;
  kind = kind;
  title = title;
  assignee_id = assignee_id;
  status = "open";
  due_at = none;
  related_object_type = related_object_type;
  related_record_id = related_record_id;
  payload = payload;
  created_by = ctx.actor_id;
  created_at = now;
  updated_at = now;
}

-- `insert_task`
unfoldable pub insert_task :
    Kernel
    → AuthContext
    → String
    → String
    → String
    → Option String
    → Option String
    → Option String
    → Value
    → Exec (Unit {0})
unfolding add_task
insert_task k ctx id kind title assignee_id related_object_type related_record_id payload = do
  now ← current_time k
  execute k (
      add_task
        (new_task ctx id kind title assignee_id related_object_type related_record_id payload now))

abbrev pub is_task : String → String → Task → Bool
is_task tenant_id id t = t.tenant_id == tenant_id && t.id == id

unfoldable pub find_task : String → String → Db → Option Task
find_task tenant_id id db = find (is_task tenant_id id) db.tasks

-- Without the broad grant a task is seen by its assignee and its creator.
abbrev pub is_involved : AuthContext → Task → Bool
is_involved ctx t = option_str_eq t.assignee_id (some ctx.actor_id) || t.created_by == ctx.actor_id

unfoldable pub show_task : Kernel → AuthContext → String → Task → Bool → Exec Task
show_task k ctx id t true = pure t
show_task k ctx id t false = do
  audit_denial k ctx "read" "task" (some id)
  raise (forbidden "not permitted to view this task")

unfoldable pub get_task : Kernel → AuthContext → String → Exec Task
unfolding find_task
get_task k ctx id = do
  found ← query k (find_task ctx.tenant_id id)
  t ← or_raise found (not_found "task not found")
  grants ← effective_grants k ctx
  show_task k ctx id t (grants_allow k grants ctx Action.read "task" none || is_involved ctx t)

-- The transaction of `create_task`.
unfoldable pub store_task :
    Kernel
    → AuthContext
    → String
    → String
    → String
    → Option String
    → Option String
    → Option String
    → Value
    → Exec (Unit {0})
unfolding insert_task
store_task k ctx id kind title assignee_id related_object_type related_record_id payload =
    transaction k (do
      insert_task k ctx id kind title assignee_id related_object_type related_record_id payload
      ev ←
          event_from k ctx "task.create" (some "task") (some id) none
            (some (object (from_map (("kind", string kind) ∷ ("title", string title) ∷ []))))
      insert_audit k ev)

unfoldable pub create_task :
    Kernel
    → AuthContext
    → String
    → String
    → Option String
    → Option String
    → Option String
    → Value
    → Exec Task
create_task k ctx kind title assignee_id related_object_type related_record_id payload = do
  authorize k ctx Action.create "task" none
  id ← fresh_id k
  store_task k ctx id kind title assignee_id related_object_type related_record_id payload
  get_task k ctx id

-- `AND status = ?`, where a status is asked for
abbrev pub has_status : Option String → Task → Bool
has_status none t = true
has_status (some s) t = t.status == s

abbrev newest_first : List Task → List Task
newest_first = sort_by (λ a b. str_leb b.created_at a.created_at)

unfoldable pub list_tasks : Kernel → AuthContext → Bool → Option String → Exec (List Task)
list_tasks k ctx true status = query k λ db. newest_first (
    select
      (λ t.
        t.tenant_id == ctx.tenant_id
        && (option_str_eq t.assignee_id (some ctx.actor_id) && has_status status t))
      db.tasks)
list_tasks k ctx false status = do
  authorize k ctx Action.read "task" none
  query k λ db.
      newest_first (select (λ t. t.tenant_id == ctx.tenant_id && has_status status t) db.tasks)

unfoldable pub set_task_status : String → String → String → String → Db → Db
set_task_status tenant_id id status now db = record db {
  tasks =
      update_where (is_task tenant_id id) (λ t. record t { status = status; updated_at = now })
        db.tasks;
}

-- The transaction of `complete_task`.
unfoldable pub store_status :
    Kernel → AuthContext → Task → String → String → String → Exec (Unit {0})
unfolding set_task_status
store_status k ctx t id status now = transaction k (do
  execute k (λ db. ok (set_task_status ctx.tenant_id id status now db))
  ev ←
      event_from k ctx "task.update" (some "task") (some id)
        (some (object (from_map (("status", string t.status) ∷ []))))
        (some (object (from_map (("status", string status) ∷ []))))
  insert_audit k ev)

unfoldable pub complete_task : Kernel → AuthContext → String → String → Exec Task
complete_task k ctx id status = do
  ensure (status == "done" || status == "cancelled")
      (validation "status must be 'done' or 'cancelled'")
  t ← get_task k ctx id
  ensure (t.status == "open" || t.status == "in_progress")
      (failed_precondition "task is already closed")
  now ← current_time k
  store_status k ctx t id status now
  get_task k ctx id

-- `json_extract(data_json, '$.approval_id') = ?`
abbrev field_is : Fields → String → String → Bool
field_is end key s = false
field_is (entry j (string v) rest) key s = if j == key then v == s else field_is rest key s
field_is (entry j v rest) key s = if j == key then false else field_is rest key s

abbrev pub approval_id_is : Value → String → Bool
approval_id_is (object fs) id = field_is fs "approval_id" id
approval_id_is v id = false

unfoldable pub close_tasks : String → String → String → String → Db → Db
close_tasks tenant_id approval_id status now db = record db {
  tasks =
      update_where (λ t. t.tenant_id == tenant_id && approval_id_is t.payload approval_id)
        (λ t. record t { status = status; updated_at = now }) db.tasks;
}

unfoldable pub close_tasks_for_approval : Kernel → String → String → String → Exec (Unit {0})
unfolding close_tasks
close_tasks_for_approval k tenant_id approval_id status = do
  now ← current_time k
  execute k (λ db. ok (close_tasks tenant_id approval_id status now db))
