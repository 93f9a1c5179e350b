-- ===== src/Kernel/Histories.antt =====
-- Histories of calls of the services of crates/kernel/src under a guarantee.
pub mod Lists
pub mod Isolation
pub mod AuditLog
pub mod Credentials
use latent_db.Prelude.{String, Bool, List, [], ◌∷◌, All}
use latent_db.Contracts.Auth.{AuthContext}
use latent_db.Kernel.Host.{Kernel}
use latent_db.Kernel.Exec.{State, Exec}
use latent_db.Kernel.Exec.Frames.{Guarantee, Frames}
use latent_db.Kernel.Records.{archive_record, restore_record}
use latent_db.Kernel.Records.Listing.{scan_records}
use latent_db.Kernel.Allows.{Allows}
use latent_db.Kernel.Allows.Basics.{basic_rules}
use latent_db.Kernel.Allows.Records.{
  load_object_type-Frames, create_record-Frames, get_record-Frames, update_record-Frames,
  set_lifecycle-Frames, relate-Frames, get_relations-Frames, list_records-Frames,
}
use latent_db.Kernel.Allows.Services.{
  get_object_type-Frames, list_object_types-Frames, create_object_type-Frames,
  update_object_type-Frames, create_workflow-Frames, get_workflow-Frames, list_workflows-Frames,
  get_task-Frames, create_task-Frames, list_tasks-Frames, complete_task-Frames, get_approval-Frames,
  list_pending_approvals-Frames, available_transitions-Frames, transition_record-Frames,
}
use latent_db.Kernel.Calls.{
  Call, step, creates_object_type, updates_object_type, gets_object_type, lists_object_types,
  creates_workflow, gets_workflow, lists_workflows, creates_record, gets_record, archives_record,
  restores_record, updates_record, lists_records, scans_records, relates, gets_relations,
  creates_task, gets_task, lists_tasks, completes_task, gets_approval, lists_pending_approvals,
  decides_approval, gets_transitions, transitions_record,
}
use latent_db.Contracts.Record.{RecordFilter, Lifecycle}

module _ (k : Kernel) (ctx : AuthContext) {G : Guarantee} (h : Allows k ctx G) where
  scan_records-Frames :
      (object_type : String) (filter : RecordFilter)
      → Frames G (scan_records k ctx object_type filter)
  unfolding scan_records
  scan_records-Frames object_type filter =
      search (basic_rules, h.denials, load_object_type-Frames) depth 10

  archive_record-Frames : (id : String) → Frames G (archive_record k ctx id)
  unfolding archive_record
  archive_record-Frames id = set_lifecycle-Frames k ctx h id Lifecycle.archived

  restore_record-Frames : (id : String) → Frames G (restore_record k ctx id)
  unfolding restore_record
  restore_record-Frames id = set_lifecycle-Frames k ctx h id Lifecycle.active

  pub step_rel : (c : Call) (s : State) → G.rel s.db (step k ctx c s).db
  unfolding step
  step_rel (creates_object_type def) = (create_object_type-Frames k ctx h def).at
  step_rel (updates_object_type key def) = (update_object_type-Frames k ctx h key def).at
  step_rel (gets_object_type key) = (get_object_type-Frames k ctx h key).at
  step_rel lists_object_types = (list_object_types-Frames k ctx h).at
  step_rel (creates_workflow def) = (create_workflow-Frames k ctx h def).at
  step_rel (gets_workflow key) = (get_workflow-Frames k ctx h key).at
  step_rel lists_workflows = (list_workflows-Frames k ctx h).at
  step_rel (creates_record new) = (create_record-Frames k ctx h new).at
  step_rel (gets_record id) = (get_record-Frames k ctx h id).at
  step_rel (archives_record id) = (archive_record-Frames id).at
  step_rel (restores_record id) = (restore_record-Frames id).at
  step_rel (updates_record id patch) = (update_record-Frames k ctx h id patch).at
  step_rel (lists_records ot filter) = (list_records-Frames k ctx h ot filter).at
  step_rel (scans_records ot filter) = (scan_records-Frames ot filter).at
  step_rel (relates from_id to_id relation_type) =
      (relate-Frames k ctx h from_id to_id relation_type).at
  step_rel (gets_relations id) = (get_relations-Frames k ctx h id).at
  step_rel (creates_task kind title assignee ot rid payload) =
      (create_task-Frames k ctx h kind title assignee ot rid payload).at
  step_rel (gets_task id) = (get_task-Frames k ctx h id).at
  step_rel (lists_tasks mine status) = (list_tasks-Frames k ctx h mine status).at
  step_rel (completes_task id status) = (complete_task-Frames k ctx h id status).at
  step_rel (gets_approval id) = (get_approval-Frames k ctx h id).at
  step_rel lists_pending_approvals = (list_pending_approvals-Frames k ctx h).at
  step_rel (decides_approval id approved reason) = (h.decides id approved reason).at
  step_rel (gets_transitions id) = (available_transitions-Frames k ctx h id).at
  step_rel (transitions_record id key reason) = (transition_record-Frames k ctx h id key reason).at
