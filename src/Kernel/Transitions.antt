-- ===== src/Kernel/Transitions.antt =====
-- crates/kernel/src/transition.rs
use latent_db.Prelude.{
  String, Bool, true, false, Option, none, some, List, [], ◌∷◌, format, unwrap_or,
}
use latent_db.Contracts.Json.{string, object, from_map}
use latent_db.Contracts.Error.{ok, failed_precondition}
use latent_db.Contracts.Auth.{AuthContext}
use latent_db.Contracts.Permission.{Action}
use latent_db.Contracts.Record.{Rec}
use latent_db.Contracts.Workflow.{Transition, WorkflowDef, transition_from, available_from}
use latent_db.Kernel.Host.{Kernel}
use latent_db.Kernel.Exec.{
  Exec, ◌>>=◌, ◌>>◌, pure, or_raise, fresh_id, current_time, execute, transaction,
}
use latent_db.Kernel.Audit.{event_from, insert_audit, emit_on}
use latent_db.Kernel.Rbac.{authorize}
use latent_db.Kernel.Objects.{load_object_type}
use latent_db.Kernel.Workflows.{load_workflow}
use latent_db.Kernel.Records.{require_record, resource_for, update_records}
use latent_db.Kernel.Tasks.{insert_task}
use latent_db.Kernel.Approvals.{insert_approval, set_state}

pub record TransitionResult : Type 0 where
  pub status : String
  pub record_id : String
  pub from : String
  pub to : String
  pub approval_id : Option String

abbrev pub transitions_of : Rec → Option WorkflowDef → List Transition
transitions_of r none = []
transitions_of r (some w) = available_from w (unwrap_or r.workflow_state w.initial_state)

abbrev pub load_transitions : Kernel → AuthContext → Rec → Option String → Exec (List Transition)
load_transitions k ctx r none = pure []
load_transitions k ctx r (some key) = do
  found ← load_workflow k ctx.tenant_id key
  pure (transitions_of r found)

unfoldable pub available_transitions : Kernel → AuthContext → String → Exec (List Transition)
available_transitions k ctx record_id = do
  r ← require_record k ctx record_id "record not found"
  authorize k ctx Action.read (resource_for r.object_type) (some r)
  t ← load_object_type k ctx.tenant_id r.object_type
  load_transitions k ctx r t.workflow_key

-- The transaction that records a request for approval.
unfoldable pub request_approval :
    Kernel
    → AuthContext
    → Rec
    → String
    → Transition
    → String
    → Option String
    → String
    → String
    → Exec (Unit {0})
request_approval k ctx r record_id t current reason approval_id task_id = do
  insert_approval k ctx approval_id t.approval_policy (some r.object_type) (some record_id)
      (some t.key) (some t.to) none
      (object (from_map (("from", string current) ∷ ("to", string t.to) ∷ [])))
  insert_task k ctx task_id "approval" (format ("Approve: " ∷ t.label ∷ [])) none
      (some r.object_type) (some record_id)
      (object (from_map (("approval_id", string approval_id) ∷ ("transition", string t.key) ∷ [])))
  ev ←
      event_from k ctx "workflow.transition.requested" (some r.object_type) (some record_id)
        (some (object (from_map (("state", string current) ∷ []))))
        (some (object (from_map (("requested_state", string t.to) ∷ []))))
  insert_audit k (record ev { approval_id = some approval_id; reason = reason })
  emit_on k ctx "approval.requested" (
      object (
        from_map (
          ("approval_id", string approval_id)
          ∷ ("id", string record_id)
          ∷ ("object_type", string r.object_type)
          ∷ [])))

-- The transaction that moves the record.
unfoldable pub move_record :
    Kernel
    → AuthContext
    → Rec
    → String
    → Transition
    → String
    → Option String
    → String
    → Exec (Unit {0})
unfolding update_records
move_record k ctx r record_id t current reason now = do
  execute k (λ db. ok (update_records ctx.tenant_id record_id (set_state t.to now) db))
  ev ←
      event_from k ctx "workflow.transition" (some r.object_type) (some record_id)
        (some (object (from_map (("workflow_state", string current) ∷ []))))
        (some (object (from_map (("workflow_state", string t.to) ∷ []))))
  insert_audit k (record ev { reason = reason })
  emit_on k ctx "workflow.transitioned" (
      object (
        from_map (
          ("id", string record_id)
          ∷ ("object_type", string r.object_type)
          ∷ ("to", string t.to)
          ∷ [])))

-- The request where approval is demanded, else the move.
unfoldable pub perform_by :
    Kernel
    → AuthContext
    → Rec
    → String
    → Transition
    → String
    → Option String
    → String
    → Bool
    → Exec TransitionResult
perform_by k ctx r record_id t current reason now true = do
  approval_id ← fresh_id k
  task_id ← fresh_id k
  transaction k (request_approval k ctx r record_id t current reason approval_id task_id)
  pure (record {
    status = "pending_approval";
    record_id = record_id;
    from = current;
    to = t.to;
    approval_id = some approval_id;
  })
perform_by k ctx r record_id t current reason now false = do
  transaction k (move_record k ctx r record_id t current reason now)
  pure (record {
    status = "transitioned";
    record_id = record_id;
    from = current;
    to = t.to;
    approval_id = none;
  })

-- What follows the guard, by what the transition demands.
abbrev pub perform :
    Kernel
    → AuthContext
    → Rec
    → String
    → Transition
    → String
    → Option String
    → String
    → Exec TransitionResult
perform k ctx r record_id t current reason now =
    perform_by k ctx r record_id t current reason now t.requires_approval

unfoldable pub transition_record :
    Kernel → AuthContext → String → String → Option String → Exec TransitionResult
transition_record k ctx record_id transition_key reason = do
  r ← require_record k ctx record_id "record not found"
  ot ← load_object_type k ctx.tenant_id r.object_type
  wf_key ← or_raise ot.workflow_key (failed_precondition "object type has no workflow")
  found ← load_workflow k ctx.tenant_id wf_key
  wf ← or_raise found (failed_precondition "workflow not found")
  let current = unwrap_or r.workflow_state wf.initial_state
  t ← or_raise (transition_from wf current transition_key) (
      failed_precondition (
        format
          ("transition '" ∷ transition_key ∷ "' is not valid from state '" ∷ current ∷ "'" ∷ [])))
  authorize k ctx Action.transition (unwrap_or t.guard_permission (resource_for r.object_type))
      (some r)
  now ← current_time k
  perform k ctx r record_id t current reason now
