-- ===== src/Kernel/Approvals.antt =====
-- crates/kernel/src/approval.rs
use latent_db.Prelude.{
  ℕ, String, Bool, true, false, not, ◌&&◌, Option, none, some, List, [], ◌∷◌, find, select,
  update_where, sort_by, str_leb, ◌==◌, unwrap_or,
}
use latent_db.Contracts.Json.{Value, null, string, object, from_map}
use latent_db.Contracts.Error.{Result, ok, err, panic, forbidden, not_found, failed_precondition}
use latent_db.Contracts.Auth.{AuthContext}
use latent_db.Contracts.Permission.{Action}
use latent_db.Contracts.Record.{Rec}
use latent_db.Kernel.Host.{Kernel}
use latent_db.Kernel.Store.{Db, Approval, insert_row}
use latent_db.Kernel.Exec.{
  Exec, ◌>>=◌, ◌>>◌, pure, raise, or_raise, ensure, current_time, query, execute, transaction,
}
use latent_db.Kernel.Audit.{event_from, insert_audit, audit_denial, emit_on}
use latent_db.Kernel.Rbac.{authorize, is_trusted}
use latent_db.Kernel.Records.{load_record, resource_for, update_records}
use latent_db.Kernel.Tasks.{close_tasks_for_approval}

unfoldable pub add_approval : Approval → Db → Result Db
add_approval a db = elim (insert_row (λ x. x.id == a.id) a db.approvals) [
  | ok rows ↦ ok (record db { approvals = rows })
  | err e ↦ err e
  | panic ↦ panic
]

abbrev new_approval :
    AuthContext
    → String
    → Option String
    → Option String
    → Option String
    → Option String
    → Option String
    → Option ℕ
    → Value
    → String
    → Approval
new_approval ctx id policy object_type record_id transition_key target_state risk payload now =
    record {
      id = id;
      tenant_id = ctx.tenant_id;
      org_id = ctx.org_id;
      status = "pending";
      policy = policy;
      requested_by = ctx.actor_id;
      decided_by = none;
      decision_reason = none;
      related_object_type = object_type;
      related_record_id = record_id;
      transition_key = transition_key;
      target_state = target_state;
      risk_score = risk;
      payload = payload;
      created_at = now;
      decided_at = none;
    }

-- `insert_approval`
unfoldable pub insert_approval :
    Kernel
    → AuthContext
    → String
    → Option String
    → Option String
    → Option String
    → Option String
    → Option String
    → Option ℕ
    → Value
    → Exec (Unit {0})
unfolding add_approval
insert_approval k ctx id policy object_type record_id transition_key target_state risk payload = do
  now ← current_time k
  execute k (
      add_approval (
        new_approval ctx id policy object_type record_id transition_key target_state risk payload
          now))

abbrev pub is_approval : String → String → Approval → Bool
is_approval tenant_id id a = a.tenant_id == tenant_id && a.id == id

unfoldable pub find_approval : String → String → Db → Option Approval
find_approval tenant_id id db = find (is_approval tenant_id id) db.approvals

unfoldable pub load_approval : Kernel → String → String → Exec (Option Approval)
unfolding find_approval
load_approval k tenant_id id = query k (find_approval tenant_id id)

unfoldable pub get_approval : Kernel → AuthContext → String → Exec Approval
get_approval k ctx id = do
  authorize k ctx Action.read "approval" none
  found ← load_approval k ctx.tenant_id id
  or_raise found (not_found "approval not found")

unfoldable pub list_pending_approvals : Kernel → AuthContext → Exec (List Approval)
list_pending_approvals k ctx = do
  authorize k ctx Action.read "approval" none
  query k λ db.
      sort_by (λ a b. str_leb b.created_at a.created_at)
        (select (λ a. a.tenant_id == ctx.tenant_id && a.status == "pending") db.approvals)

-- Is this the requester deciding under separation of duties?
unfoldable pub is_own_request : Kernel → AuthContext → Approval → Bool
is_own_request k ctx a =
    k.flags.enable_approval_separation_of_duties
    && (a.requested_by == ctx.actor_id && not (is_trusted ctx))

unfoldable pub separate_duties : Kernel → AuthContext → String → Bool → Exec (Unit {0})
separate_duties k ctx approval_id false = pure tt
separate_duties k ctx approval_id true = do
  audit_denial k ctx "approve" "approval" (some approval_id)
  raise (forbidden "the requester cannot decide their own approval")

-- The record that the approval is about.
unfoldable pub load_target : Kernel → AuthContext → Option String → Exec (Option Rec)
load_target k ctx none = pure none
load_target k ctx (some id) = load_record k ctx.tenant_id id

abbrev state_value : Option String → Value
state_value none = null
state_value (some s) = string s

abbrev state_of : Option Rec → Option String
state_of none = none
state_of (some r) = r.workflow_state

abbrev pub set_state : String → String → Rec → Rec
set_state target_state now r = record r { workflow_state = some target_state; updated_at = now }

-- The gated transition, applied.
unfoldable pub apply_target :
    Kernel
    → AuthContext
    → String
    → Approval
    → Option Rec
    → Option String
    → String
    → Option String
    → Option String
    → Exec (Unit {0})
unfolding update_records
apply_target k ctx approval_id a target reason now (some id) (some target_state) = do
  execute k (λ db. ok (update_records ctx.tenant_id id (set_state target_state now) db))
  ev ←
      event_from k ctx "workflow.transition" (some (unwrap_or a.related_object_type "")) (some id)
        (some (object (from_map (("workflow_state", state_value (state_of target)) ∷ []))))
        (some (object (from_map (("workflow_state", string target_state) ∷ []))))
  insert_audit k (record ev { approval_id = some approval_id; reason = reason })
  emit_on k ctx "workflow.transitioned" (
      object (
        from_map (
          ("id", string id)
          ∷ ("object_type", string (unwrap_or a.related_object_type ""))
          ∷ ("to", string target_state)
          ∷ ("via_approval", string approval_id)
          ∷ [])))
apply_target k ctx approval_id a target reason now _ _ = pure tt

unfoldable pub apply_decision :
    Kernel
    → AuthContext
    → String
    → Approval
    → Option Rec
    → Bool
    → Option String
    → String
    → Exec (Unit {0})
apply_decision k ctx approval_id a target true reason now =
    apply_target k ctx approval_id a target reason now a.related_record_id a.target_state
apply_decision k ctx approval_id a target false reason now = do
  ev ←
      event_from k ctx "approval.reject" (some (unwrap_or a.related_object_type ""))
        a.related_record_id none none
  insert_audit k (record ev { approval_id = some approval_id; reason = reason })

abbrev pub new_status : Bool → String
new_status true = "approved"
new_status false = "rejected"

abbrev pub task_status : Bool → String
task_status true = "done"
task_status false = "cancelled"

abbrev pub decide : AuthContext → Bool → Option String → String → Approval → Approval
decide ctx approved reason now a = record a {
  status = new_status approved;
  decided_by = some ctx.actor_id;
  decision_reason = reason;
  decided_at = some now;
}

unfoldable pub set_decision : AuthContext → String → Bool → Option String → String → Db → Db
set_decision ctx id approved reason now db = record db {
  approvals =
      update_where (is_approval ctx.tenant_id id) (decide ctx approved reason now) db.approvals;
}

-- The transaction of `decide_approval`.
unfoldable pub store_decision :
    Kernel
    → AuthContext
    → String
    → Approval
    → Option Rec
    → Bool
    → Option String
    → String
    → Exec (Unit {0})
unfolding set_decision
store_decision k ctx approval_id a target approved reason now = transaction k (do
  apply_decision k ctx approval_id a target approved reason now
  execute k (λ db. ok (set_decision ctx approval_id approved reason now db))
  close_tasks_for_approval k ctx.tenant_id approval_id (task_status approved))

-- `decide_approval`, from the approval that was loaded.
unfoldable pub decide_found :
    Kernel → AuthContext → String → Bool → Option String → Approval → Exec Approval
decide_found k ctx approval_id approved reason a = do
  ensure (a.status == "pending") (failed_precondition "approval already decided")
  separate_duties k ctx approval_id (is_own_request k ctx a)
  target ← load_target k ctx a.related_record_id
  authorize k ctx Action.approve (resource_for (unwrap_or a.related_object_type "")) target
  now ← current_time k
  store_decision k ctx approval_id a target approved reason now
  pure (decide ctx approved reason now a)

unfoldable pub decide_approval :
    Kernel → AuthContext → String → Bool → Option String → Exec Approval
unfolding decide_found
decide_approval k ctx approval_id approved reason = do
  found ← load_approval k ctx.tenant_id approval_id
  a ← or_raise found (not_found "approval not found")
  decide_found k ctx approval_id approved reason a
