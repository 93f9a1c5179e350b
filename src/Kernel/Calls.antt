-- ===== src/Kernel/Calls.antt =====
-- A history of the kernel: calls of its public services, each by some context, one after another.
use latent_db.Prelude.{String, Bool, Option, List, [], ◌∷◌}
use latent_db.Contracts.Json.{Value}
use latent_db.Contracts.Auth.{AuthContext}
use latent_db.Contracts.Field.{ObjectTypeDef}
use latent_db.Contracts.Workflow.{WorkflowDef}
use latent_db.Contracts.Record.{NewRecord, RecordPatch, RecordFilter}
use latent_db.Kernel.Host.{Kernel}
use latent_db.Kernel.Exec.{State, Exec}
use latent_db.Kernel.Objects.{
  create_object_type, update_object_type, get_object_type, list_object_types,
}
use latent_db.Kernel.Workflows.{create_workflow, get_workflow, list_workflows}
use latent_db.Kernel.Records.{
  create_record, get_record, update_record, archive_record, restore_record,
}
use latent_db.Kernel.Records.Listing.{list_records, scan_records}
use latent_db.Kernel.Relations.{relate, get_relations}
use latent_db.Kernel.Tasks.{create_task, get_task, list_tasks, complete_task}
use latent_db.Kernel.Approvals.{get_approval, list_pending_approvals, decide_approval}
use latent_db.Kernel.Transitions.{available_transitions, transition_record}

pub data Call : Type 0 where
  creates_object_type : ObjectTypeDef → Call
  updates_object_type : String → ObjectTypeDef → Call
  gets_object_type : String → Call
  lists_object_types : Call
  creates_workflow : WorkflowDef → Call
  gets_workflow : String → Call
  lists_workflows : Call
  creates_record : NewRecord → Call
  gets_record archives_record restores_record : String → Call
  updates_record : String → RecordPatch → Call
  lists_records scans_records : String → RecordFilter → Call
  relates : String → String → String → Call
  gets_relations : String → Call
  creates_task : String → String → Option String → Option String → Option String → Value → Call
  gets_task : String → Call
  lists_tasks : Bool → Option String → Call
  completes_task : String → String → Call
  gets_approval : String → Call
  lists_pending_approvals : Call
  decides_approval : String → Bool → Option String → Call
  gets_transitions : String → Call
  transitions_record : String → String → Option String → Call

-- What a call leaves behind, whatever it answers.
abbrev left {ℓ} : {A : Type ℓ} → Exec A → State → State
left m s = (m s).1

unfoldable pub step : Kernel → AuthContext → Call → State → State
step k ctx (creates_object_type def) = left (create_object_type k ctx def)
step k ctx (updates_object_type key def) = left (update_object_type k ctx key def)
step k ctx (gets_object_type key) = left (get_object_type k ctx key)
step k ctx lists_object_types = left (list_object_types k ctx)
step k ctx (creates_workflow def) = left (create_workflow k ctx def)
step k ctx (gets_workflow key) = left (get_workflow k ctx key)
step k ctx lists_workflows = left (list_workflows k ctx)
step k ctx (creates_record new) = left (create_record k ctx new)
step k ctx (gets_record id) = left (get_record k ctx id)
step k ctx (archives_record id) = left (archive_record k ctx id)
step k ctx (restores_record id) = left (restore_record k ctx id)
step k ctx (updates_record id patch) = left (update_record k ctx id patch)
step k ctx (lists_records object_type filter) = left (list_records k ctx object_type filter)
step k ctx (scans_records object_type filter) = left (scan_records k ctx object_type filter)
step k ctx (relates from_id to_id relation_type) = left (relate k ctx from_id to_id relation_type)
step k ctx (gets_relations id) = left (get_relations k ctx id)
step k ctx (creates_task kind title assignee object_type record_id payload) =
    left (create_task k ctx kind title assignee object_type record_id payload)
step k ctx (gets_task id) = left (get_task k ctx id)
step k ctx (lists_tasks mine status) = left (list_tasks k ctx mine status)
step k ctx (completes_task id status) = left (complete_task k ctx id status)
step k ctx (gets_approval id) = left (get_approval k ctx id)
step k ctx lists_pending_approvals = left (list_pending_approvals k ctx)
step k ctx (decides_approval id approved reason) = left (decide_approval k ctx id approved reason)
step k ctx (gets_transitions id) = left (available_transitions k ctx id)
step k ctx (transitions_record id key reason) = left (transition_record k ctx id key reason)

unfoldable pub run : Kernel → List (AuthContext × Call) → State → State
unfolding step
run k [] s = s
run k ((ctx, c) ∷ rest) s = run k rest (step k ctx c s)
