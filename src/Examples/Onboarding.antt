-- ===== src/Examples/Onboarding.antt =====
-- Concrete runs: a tenant that moves from its old system to a template.
use latent_db.Prelude.{
  ◌+◌, String, true, none, some, List, [], ◌∷◌, ◌≡◌, refl, any, length, select, Memᴰ, ◌==◌, ◌&&◌,
}
use latent_db.Contracts.Field.{ObjectTypeDef, FieldDefinition, FieldType, new_field}
use latent_db.Contracts.Record.{Rec, nonneg}
use latent_db.Contracts.Builder.{BuilderDefinition}
use latent_db.Contracts.Migration.{
  SystemKind, MigrationStatus, MigrationSession, MigrationReport, parse_migration_status,
  parse_kind, migration_status_str, kind_str,
}
use latent_db.Kernel.Store.{Db, MigrationRow}
use latent_db.Kernel.Exec.{State, ◌>>=◌, pure, query, current_time, execute, fresh_id}
use latent_db.Kernel.Rbac.{authorize}
use latent_db.Kernel.Audit.{event_from, audit, add_audit}
use latent_db.Kernel.Migration.Planner.{Counts, count_of, map_fields}
use latent_db.Kernel.Migration.Plans.{build_plan}
use latent_db.Kernel.Migration.Sessions.{
  find_session, require_session, update_sessions, set_target, set_active, set_report, active_counts,
  is_live,
}
use latent_db.Kernel.Migration.Services.{set_active_system, may_activate, next_status}
use latent_db.Kernel.Migration.Totals.{carried, staying, build_plan-totals}
use latent_db.Kernel.Migration.Counts.{active_counts-length}
use latent_db.Kernel.Migration.Fields.{speaks_of, fills, map_fields-covers}
use latent_db.Kernel.Migration.Safety.{data_of, MigrationCall, serve, serve-data_of}
use latent_db.Kernel.Migration.Stored.{sessions_round_trip}
use latent_db.Kernel.Migration.Activation.{set_active_system-active}
use latent_db.Kernel.Builder.Catalog.{visible_field, simple_object}
use latent_db.Examples.{kernel, admin, note_type, store, start}

abbrev memo_type : ObjectTypeDef
memo_type = record note_type { id = "t2"; key = "memo" }

abbrev olds : List ObjectTypeDef
olds = note_type ∷ memo_type ∷ []

abbrev counts : Counts
counts = ("note", 3) ∷ ("memo", 4) ∷ []

abbrev note_fields : List FieldDefinition
note_fields =
    visible_field "title" "Title" FieldType.number
    ∷ record (new_field "due" "Due" FieldType.date) { required = true }
    ∷ []

abbrev targets : List BuilderDefinition
targets = simple_object "note" "Note" "Notes" "crm" "title" note_fields ∷ []

abbrev onboarding : MigrationRow
onboarding = record {
  tenant_id = "acme";
  status = "target_selected";
  active_system = "old";
  selected_system_key = some "crm";
  snapshot = record {
    kind = SystemKind.old;
    key = "current";
    label = "Current system";
    objects = [];
  };
  last_report = none;
  created_at = "";
  updated_at = "";
}

abbrev onboarded : MigrationSession
onboarded = record {
  tenant_id = "acme";
  status = MigrationStatus.target_selected;
  active_system = SystemKind.old;
  selected_system_key = some "crm";
  old_system = onboarding.snapshot;
  last_report = none;
  created_at = "";
  updated_at = "";
}

abbrev given_report : MigrationReport
given_report = record {
  id = "rep";
  tenant_id = "acme";
  generated_at = "";
  for_system = SystemKind.old;
  source_system = onboarding.snapshot;
  target_system = none;
  plan = none;
  summary = record {
    source_objects = 0;
    target_objects = 0;
    mapped_objects = 0;
    source_records = 0;
    records_mappable = 0;
    records_unmapped = nonneg 0;
    conflicts = 0;
  };
  notes = [];
}

abbrev moving_store : Db
moving_store = record store { migration_sessions = onboarding ∷ [] }

abbrev moving : State
moving = record start { db = moving_store }

abbrev booted : MigrationSession
booted = record onboarded {
  active_system = SystemKind.selected;
  status = next_status SystemKind.selected MigrationStatus.target_selected;
  updated_at = "2025-01-01T00:00:00Z";
}

build_plan-totals_example :
    let plan = build_plan "crm" olds counts targets in
    (carried plan.object_mappings ≡ plan.summary.source_records)
    × (plan.summary.records_mappable + staying counts targets olds ≡ plan.summary.source_records)
    × (plan.summary.records_unmapped ≡ nonneg (staying counts targets olds))
build_plan-totals_example =
    build_plan-totals "crm" olds counts targets (refl, (refl, tt)) (refl, tt)

active_counts-length_example :
    count_of (active_counts "acme" store) "note"
    ≡ length (
        select
          (λ (r : Rec). r.object_type == "note")
          (select (λ r. r.tenant_id == "acme" && is_live r.lifecycle) store.records))
active_counts-length_example = active_counts-length "acme" "note" store

map_fields-covers_example :
    let mappings = (map_fields "note" note_type note_fields []).0 in
    ((sf : FieldDefinition)
      → Memᴰ sf note_type.fields
      → any (speaks_of "note" note_type sf) mappings ≡ true)
    × ((tf : FieldDefinition)
        → Memᴰ tf note_fields
        → any (fills "note" note_type tf) mappings ≡ true)
map_fields-covers_example = map_fields-covers "note" note_type note_fields []

serve-data_of_example :
    data_of "acme" (serve kernel admin (MigrationCall.activates SystemKind.selected) moving).db
    ≡ data_of "acme" moving_store
serve-data_of_example =
    serve-data_of kernel admin (MigrationCall.activates SystemKind.selected) moving

sessions_round_trip_example :
    (find_session "acme" (update_sessions "acme" (set_target "hr" "now") moving_store)
      ≡ some (record onboarded {
        selected_system_key = some "hr";
        status = MigrationStatus.target_selected;
        updated_at = "now";
      }))
    × (find_session "acme" (
          update_sessions "acme"
            (set_active SystemKind.selected MigrationStatus.reported "now")
            moving_store)
        ≡ some (record onboarded {
          active_system = SystemKind.selected;
          status = MigrationStatus.reported;
          updated_at = "now";
        }))
    × (find_session "acme" (update_sessions "acme" (set_report given_report "now") moving_store)
        ≡ some (record onboarded {
          last_report = some given_report;
          status = MigrationStatus.reported;
          updated_at = "now";
        }))
unfolding find_session parse_migration_status parse_kind
sessions_round_trip_example =
    sessions_round_trip "acme" "hr" "now" SystemKind.selected MigrationStatus.reported given_report
      moving_store onboarded refl

set_active_system-active_example :
    (before : MigrationSession) × (find_session "acme" moving_store ≡ some before)
    × (may_activate SystemKind.selected before ≡ true)
    × (now : String) × (booted ≡ record before {
      active_system = SystemKind.selected;
      status = next_status SystemKind.selected before.status;
      updated_at = now;
    })
unfolding set_active_system ◌>>=◌ authorize pure require_session query current_time execute
    event_from fresh_id audit add_audit parse_migration_status parse_kind migration_status_str
    kind_str
set_active_system-active_example =
    set_active_system-active kernel admin SystemKind.selected moving booted refl
