-- ===== src/Kernel/Migration/Reports.antt =====
-- crates/kernel/src/migration.rs: `build_report`
use latent_db.Prelude.{
  ◌+◌, String, Option, none, some, List, [], ◌∷◌, ◌++◌, length, ltb, if◌then◌else◌, format, decimal,
}
use latent_db.Contracts.Field.{ObjectTypeDef}
use latent_db.Contracts.Record.{I64, nonneg, neg}
use latent_db.Contracts.Builder.{BuilderTemplate}
use latent_db.Contracts.Migration.{
  SystemKind, SystemSnapshot, MigrationSummary, MigrationPlan, MigrationReport, total_records,
}
use latent_db.Kernel.Builder.Templates.{template_by_key}
use latent_db.Kernel.Migration.Planner.{Counts, snapshot_from_objects}
use latent_db.Kernel.Migration.Plans.{build_plan, old_only_summary}

-- `Display` of an `i64`
abbrev signed : I64 → String
signed (nonneg n) = decimal n
signed (neg n) = format ("-" ∷ decimal (n + 1) ∷ [])

abbrev plan_for :
    String → List ObjectTypeDef → Counts → Option BuilderTemplate → Option MigrationPlan
plan_for key old_objects counts none = none
plan_for key old_objects counts (some t) = some (build_plan key old_objects counts t.objects)

-- A plan exists only where a target is selected and the report is for it.
unfoldable pub report_plan :
    SystemKind → List ObjectTypeDef → Counts → Option String → Option MigrationPlan
unfolding template_by_key
report_plan SystemKind.selected old_objects counts (some key) =
    plan_for key old_objects counts (template_by_key key)
report_plan _ old_objects counts _ = none

abbrev plan_target_system : Option MigrationPlan → Option SystemSnapshot
plan_target_system none = none
plan_target_system (some plan) = some plan.target_system

abbrev report_summary : Option MigrationPlan → SystemSnapshot → MigrationSummary
report_summary none source = old_only_summary source
report_summary (some plan) source = plan.summary

abbrev plan_notes : MigrationSummary → List String
plan_notes s =
    "This is a plan only — no records were moved, rewritten, or deleted."
    ∷ format (
        decimal s.records_mappable
        ∷ " of "
        ∷ decimal s.source_records
        ∷ " record(s) map onto the selected system; "
        ∷ signed s.records_unmapped
        ∷ " stay in the old system."
        ∷ [])
    ∷ (if ltb 0 s.conflicts
        then format (
            decimal s.conflicts
            ∷ " conflict(s) need a decision before a clean import — see `plan.conflicts`."
            ∷ [])
        else "No conflicts detected; the selected system is a clean fit.")
    ∷ []

abbrev report_notes : Option MigrationPlan → SystemKind → List String
report_notes (some plan) kind = plan_notes plan.summary
report_notes none SystemKind.old =
    "Inventory of your current (old) system. You can keep booting it; nothing here has changed."
    ∷ []
report_notes none SystemKind.selected =
    "No target system is selected, so there is nothing to migrate onto yet. Showing the old-system inventory."
    ∷ []

-- The last two arguments are the id and the time that the code draws.
unfoldable pub build_report :
    String
    → SystemKind
    → List ObjectTypeDef
    → Counts
    → Option String
    → String
    → String
    → MigrationReport
unfolding report_plan
build_report tenant_id for_system old_objects counts selected_key id now =
    let source_system = snapshot_from_objects old_objects counts in
    let plan = report_plan for_system old_objects counts selected_key in
    record {
      id = id;
      tenant_id = tenant_id;
      generated_at = now;
      for_system = for_system;
      source_system = source_system;
      target_system = plan_target_system plan;
      plan = plan;
      summary = report_summary plan source_system;
      notes =
          report_notes plan for_system
          ++ format (
              "Old system: "
              ∷ decimal (length source_system.objects)
              ∷ " object type(s), "
              ∷ decimal (total_records source_system)
              ∷ " active record(s)."
              ∷ [])
            ∷ [];
    }
