-- ===== src/Examples/Services.antt =====
-- Concrete runs: the services of records, transitions and approvals.
use latent_db.Prelude.{String, true, none, [], ◌∷◌, ◌≡◌, refl, Memᴰ, format, sort_by, insert_sorted}
use latent_db.Contracts.Permission.{Action}
use latent_db.Contracts.Field.{ObjectTypeDef}
use latent_db.Contracts.Record.{Rec}
use latent_db.Contracts.Workflow.{Transition, WorkflowDef}
use latent_db.Kernel.Exec.{State}
use mathlib.Core.List.{flat_map}
use latent_db.Contracts.Permission.{Action-discrete, matches_resource}
use latent_db.Contracts.Workflow.{transition_from}
use latent_db.Contracts.Record.{project_fields}
use latent_db.Kernel.Exec.{
  transaction, committed, rollback, execute, current_time, fresh_id, query, statement, outcome,
  settle, pure, ◌>>=◌, continue,
}
use latent_db.Contracts.Json.{Value, insert}
use latent_db.Kernel.Edits.{Writable, write_all, set_fields-Writable}
use latent_db.Kernel.Rbac.{
  authorize, effective_grants, role_grants, conclude, applies, action_covered_by, scope_ok,
  conditions_ok, applicable_read_grants, field_permitted, grants_allow,
}
use latent_db.Kernel.Access.{Granted}
use latent_db.Kernel.Objects.{find_type, load_object_type}
use latent_db.Kernel.Records.{
  find_record, load_record, require_record, project_for_read, visible_part, get_record, put_value,
  set_fields, check_field, update_records,
}
use latent_db.Kernel.Records.Listing.{
  window, list_records, candidates, matching, apply_sort, apply_filters, apply_search, show_row,
}
use latent_db.Kernel.Reads.{Reads, Shows, get_record-Reads}
use latent_db.Kernel.Audit.{event_from, insert_audit, add_audit, emit_on, add_event}
use latent_db.Kernel.Tasks.{close_tasks_for_approval, close_tasks}
use latent_db.Kernel.Workflows.{load_workflow, find_workflow}
use latent_db.Kernel.Approvals.{
  decide_approval, decide_found, load_approval, find_approval, separate_duties, is_own_request,
  load_target, store_decision, apply_decision, apply_target, set_decision,
}
use latent_db.Kernel.Transitions.{transition_record, move_record, perform_by}
use latent_db.Kernel.Gates.{Passes, transition_record-Passes}
use latent_db.Kernel.Gates.Requests.{transition_record-records}
use latent_db.Kernel.Gates.Deciders.{Decides, decide_approval-Decides}
use latent_db.Kernel.Reads.Listings.{Lists, list_records-Lists}
use latent_db.Examples.{
  kernel, member, note_type, submit, flow, note, store, start, shown_note, all_notes, note_page,
  sent, approved_request, given,
}

get_record-Reads_example : Reads kernel member "n1" store shown_note
unfolding get_record require_record load_record find_record load_object_type find_type
    project_for_read visible_part applicable_read_grants field_permitted project_fields authorize
    effective_grants role_grants conclude query statement outcome settle pure ◌>>=◌ continue applies
    action_covered_by Action-discrete matches_resource scope_ok conditions_ok flat_map format
get_record-Reads_example = get_record-Reads kernel member "n1" start shown_note refl

list_records-Lists_example :
    Granted kernel member Action.search "object:note" none store
    × ((r : Rec) × (t : ObjectTypeDef) × Lists kernel member store "note" all_notes r
        × Shows kernel member store t r shown_note)
unfolding list_records candidates matching apply_sort apply_filters apply_search window show_row
    load_object_type find_type grants_allow sort_by insert_sorted visible_part
    applicable_read_grants field_permitted project_fields authorize effective_grants role_grants
    conclude query statement outcome settle pure ◌>>=◌ continue applies action_covered_by
    Action-discrete matches_resource scope_ok conditions_ok flat_map format
list_records-Lists_example =
    list_records-Lists kernel member "note" all_notes start note_page shown_note refl
      (Memᴰ.head refl)

transition_record-Passes_example : Passes kernel member "n1" "submit" store sent
unfolding transition_record require_record load_record find_record load_object_type find_type
    load_workflow find_workflow transition_from perform_by move_record update_records transaction
    committed rollback execute current_time fresh_id event_from insert_audit add_audit emit_on
    add_event authorize effective_grants role_grants conclude query statement outcome settle pure
    ◌>>=◌ continue applies action_covered_by Action-discrete matches_resource scope_ok conditions_ok
    flat_map format
transition_record-Passes_example =
    transition_record-Passes kernel member "n1" "submit" none start sent refl

abbrev checked_submit : Transition
checked_submit = record submit { requires_approval = true }

abbrev checked_flow : WorkflowDef
checked_flow = record flow { transitions = checked_submit ∷ [] }

abbrev checked_start : State
checked_start = record start {
  db = record store { workflows = record { tenant_id = "acme"; def = checked_flow } ∷ [] };
}

transition_record-records_example :
    (transition_record kernel member "n1" "submit" none checked_start).1.db.records ≡ note ∷ []
unfolding find_record find_type find_workflow transition_from
transition_record-records_example =
    transition_record-records kernel member "n1" "submit" none checked_start note note_type "flow"
      checked_flow checked_submit refl refl refl refl refl refl

decide_approval-Decides_example : Decides kernel member "a1" true none store approved_request
unfolding decide_approval decide_found load_approval find_approval separate_duties is_own_request
    load_target load_record find_record store_decision apply_decision apply_target set_decision
    update_records close_tasks_for_approval close_tasks transaction committed rollback execute
    current_time fresh_id event_from insert_audit add_audit emit_on add_event authorize
    effective_grants role_grants conclude query statement outcome settle pure ◌>>=◌ continue applies
    action_covered_by Action-discrete matches_resource scope_ok conditions_ok flat_map format
decide_approval-Decides_example =
    decide_approval-Decides kernel member "a1" true none start approved_request refl

set_fields-Writable_example :
    (given ≡ write_all put_value given [])
    × ((key : String) (v : Value) → Memᴰ (key, v) given → Writable note_type [] key)
unfolding set_fields check_field pure ◌>>=◌ continue insert
set_fields-Writable_example =
    set_fields-Writable kernel member "object:note" none note_type [] put_value given [] given start
      refl
