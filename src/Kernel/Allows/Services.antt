-- ===== src/Kernel/Allows/Services.antt =====
-- Object types, workflows, tasks, approvals and transitions (crates/kernel/src) under a guarantee.
use latent_db.Prelude.{String, Bool, true, false, Option, none, some}
use latent_db.Contracts.Json.{Value}
use latent_db.Contracts.Auth.{AuthContext}
use latent_db.Contracts.Field.{ObjectTypeDef}
use latent_db.Contracts.Workflow.{Transition, WorkflowDef}
use latent_db.Contracts.Record.{Rec}
use latent_db.Kernel.Host.{Kernel}
use latent_db.Kernel.Store.{Task}
use latent_db.Kernel.Exec.Frames.{Guarantee, Frames, Frames-pure}
use latent_db.Kernel.Objects.{
  create_object_type, update_object_type, get_object_type, list_object_types,
}
use latent_db.Kernel.Workflows.{create_workflow, get_workflow, list_workflows}
use latent_db.Kernel.Tasks.{show_task, get_task, create_task, list_tasks, complete_task}
use latent_db.Kernel.Approvals.{get_approval, load_approval, list_pending_approvals}
use latent_db.Kernel.Transitions.{
  load_transitions, available_transitions, perform_by, transition_record,
}
use latent_db.Kernel.Allows.{Allows}
use latent_db.Kernel.Allows.Basics.{basic_rules}
use latent_db.Kernel.Allows.Records.{
  load_object_type-Frames, load_workflow-Frames, require_record-Frames,
}

module _ (k : Kernel) (ctx : AuthContext) {G : Guarantee} (h : Allows k ctx G) where
  pub get_object_type-Frames : (key : String) → Frames G (get_object_type k ctx key)
  unfolding get_object_type
  get_object_type-Frames key = search (basic_rules, h.denials, load_object_type-Frames)

  pub list_object_types-Frames : Frames G (list_object_types k ctx)
  unfolding list_object_types
  list_object_types-Frames = search (basic_rules, h.denials)

  pub create_object_type-Frames : (def : ObjectTypeDef) → Frames G (create_object_type k ctx def)
  unfolding create_object_type
  create_object_type-Frames def = search (basic_rules, h.denials, h.stores_type) depth 14

  pub update_object_type-Frames :
      (key : String) (def : ObjectTypeDef) → Frames G (update_object_type k ctx key def)
  unfolding update_object_type
  update_object_type-Frames key def =
      search (basic_rules, h.denials, load_object_type-Frames, h.stores_update) depth 14

  pub create_workflow-Frames : (def : WorkflowDef) → Frames G (create_workflow k ctx def)
  unfolding create_workflow
  create_workflow-Frames def = search (basic_rules, h.denials, h.stores_workflow) depth 14

  pub get_workflow-Frames : (key : String) → Frames G (get_workflow k ctx key)
  unfolding get_workflow
  get_workflow-Frames key = search (basic_rules, h.denials, load_workflow-Frames)

  pub list_workflows-Frames : Frames G (list_workflows k ctx)
  unfolding list_workflows
  list_workflows-Frames = search (basic_rules, h.denials)

module _ (k : Kernel) (ctx : AuthContext) {G : Guarantee} (h : Allows k ctx G) where
  show_task-Frames : (id : String) (t : Task) (b : Bool) → Frames G (show_task k ctx id t b)
  unfolding show_task
  show_task-Frames id t true = Frames-pure t
  show_task-Frames id t false = search (basic_rules, h.denials)

  pub get_task-Frames : (id : String) → Frames G (get_task k ctx id)
  unfolding get_task
  get_task-Frames id = search (basic_rules, h.denials, show_task-Frames) depth 8

  pub create_task-Frames :
      (kind title : String) (assignee ot rid : Option String) (payload : Value)
      → Frames G (create_task k ctx kind title assignee ot rid payload)
  unfolding create_task
  create_task-Frames kind title assignee ot rid payload =
      search (basic_rules, h.denials, h.stores_task, get_task-Frames) depth 14

  pub list_tasks-Frames :
      (mine : Bool) (status : Option String) → Frames G (list_tasks k ctx mine status)
  unfolding list_tasks
  list_tasks-Frames true status = search (basic_rules, h.denials)
  list_tasks-Frames false status = search (basic_rules, h.denials)

  pub complete_task-Frames : (id status : String) → Frames G (complete_task k ctx id status)
  unfolding complete_task
  complete_task-Frames id status =
      search (basic_rules, h.denials, get_task-Frames, h.stores_status) depth 14

module _ (k : Kernel) (ctx : AuthContext) {G : Guarantee} (h : Allows k ctx G) where
  load_approval-Frames : (id : String) → Frames G (load_approval k ctx.tenant_id id)
  unfolding load_approval
  load_approval-Frames id = search (basic_rules, h.denials)

  pub get_approval-Frames : (id : String) → Frames G (get_approval k ctx id)
  unfolding get_approval
  get_approval-Frames id = search (basic_rules, h.denials, load_approval-Frames)

  pub list_pending_approvals-Frames : Frames G (list_pending_approvals k ctx)
  unfolding list_pending_approvals
  list_pending_approvals-Frames = search (basic_rules, h.denials)

  load_transitions-Frames :
      (r : Rec) (key : Option String) → Frames G (load_transitions k ctx r key)
  load_transitions-Frames r none = search (basic_rules, h.denials)
  load_transitions-Frames r (some key) = search (basic_rules, h.denials, load_workflow-Frames)

  pub available_transitions-Frames : (id : String) → Frames G (available_transitions k ctx id)
  unfolding available_transitions
  available_transitions-Frames id =
      search
        (
          basic_rules, h.denials, require_record-Frames, load_object_type-Frames,
          load_transitions-Frames,
        )
        depth 10

  perform_by-Frames :
      (r : Rec) (id : String) (t : Transition) (current : String) (reason : Option String)
      (now : String) (gated : Bool)
      → Frames G (perform_by k ctx r id t current reason now gated)
  unfolding perform_by
  perform_by-Frames r id t current reason now true =
      search (basic_rules, h.denials, h.requests) depth 10
  perform_by-Frames r id t current reason now false =
      search (basic_rules, h.denials, h.moves) depth 10

  pub transition_record-Frames :
      (id key : String) (reason : Option String) → Frames G (transition_record k ctx id key reason)
  unfolding transition_record
  transition_record-Frames id key reason =
      search
        (
          basic_rules, h.denials, require_record-Frames, load_object_type-Frames,
          load_workflow-Frames, perform_by-Frames,
        )
        depth 18
