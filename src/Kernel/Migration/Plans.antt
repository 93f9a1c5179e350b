-- ===== src/Kernel/Migration/Plans.antt =====
-- crates/kernel/src/migration.rs: `build_plan`, `target_snapshot` and `build_report`
use latent_db.Prelude.{
  ℕ, ◌+◌, ◌-◌, suc, String, Bool, Option, none, some, List, [], ◌∷◌, ◌++◌, map, any, length, leb,
  ◌==◌, if◌then◌else◌, format, decimal, is_some,
}
use latent_db.Contracts.Field.{ObjectTypeDef}
use latent_db.Contracts.Record.{I64, nonneg, neg}
use latent_db.Contracts.Builder.{BuilderDefinition}
use latent_db.Contracts.Migration.{
  SystemKind, SystemSnapshot, MappingStatus, FieldMapping, ObjectMapping, ConflictKind,
  MigrationConflict, MigrationSummary, MigrationPlan, total_records,
}
use latent_db.Kernel.Migration.Planner.{
  Counts, count_of, by_key, snapshot_from_objects, map_fields, dropped_mapping,
}

-- What the loops of `build_plan` have gathered.
pub record Progress : Type 0 where
  pub object_mappings : List ObjectMapping
  pub conflicts : List MigrationConflict
  pub mapped_objects : ℕ
  pub records_mappable : ℕ

abbrev pub no_progress : Progress
no_progress = record {
  object_mappings = [];
  conflicts = [];
  mapped_objects = 0;
  records_mappable = 0;
}

abbrev new_mapping : BuilderDefinition → ObjectMapping
new_mapping def = record {
  source_object = none;
  target_object = some def.key;
  label = def.label;
  record_count = 0;
  field_mappings =
      map
        (λ tf. record {
          source_field = none;
          target_field = some tf.key;
          source_type = none;
          target_type = some tf.field_type;
          status = MappingStatus.added_in_target;
        })
        def.fields;
  note = some "New object type in the selected system; no existing data to import.";
}

abbrev matched_mapping : BuilderDefinition → ℕ → List FieldMapping → ObjectMapping
matched_mapping def record_count field_mappings = record {
  source_object = some def.key;
  target_object = some def.key;
  label = def.label;
  record_count = record_count;
  field_mappings = field_mappings;
  note = none;
}

-- The two arms of a round of the loop over the target's objects.
abbrev pub plan_matched : Counts → Progress → BuilderDefinition → Option ObjectTypeDef → Progress
plan_matched counts p def (some source) =
    let (mappings, conflicts) = map_fields def.key source def.fields p.conflicts in
    record {
      object_mappings =
          p.object_mappings ++ matched_mapping def (count_of counts def.key) mappings ∷ [];
      conflicts = conflicts;
      mapped_objects = suc p.mapped_objects;
      records_mappable = p.records_mappable + count_of counts def.key;
    }
plan_matched counts p def none = record p {
  object_mappings = p.object_mappings ++ new_mapping def ∷ [];
}

unfoldable pub plan_target : List ObjectTypeDef → Counts → Progress → BuilderDefinition → Progress
unfolding by_key count_of
plan_target old_objects counts p def = plan_matched counts p def (by_key old_objects def.key)

unfoldable pub plan_targets :
    List ObjectTypeDef → Counts → Progress → List BuilderDefinition → Progress
unfolding plan_target
plan_targets old_objects counts p [] = p
plan_targets old_objects counts p (def ∷ defs) =
    plan_targets old_objects counts (plan_target old_objects counts p def) defs

-- `target_by_key.contains_key`
abbrev pub has_target : List BuilderDefinition → String → Bool
has_target target_objects key = any (λ def. def.key == key) target_objects

abbrev unmapped_conflict : ObjectTypeDef → ℕ → MigrationConflict
unmapped_conflict source record_count = record {
  kind = ConflictKind.unmapped_source_object;
  object = source.key;
  field = none;
  detail = format (
      "'"
      ∷ source.key
      ∷ "' ("
      ∷ decimal record_count
      ∷ " record(s)) has no counterpart in the selected system"
      ∷ []);
}

abbrev unmapped_mapping : ObjectTypeDef → ℕ → ObjectMapping
unmapped_mapping source record_count = record {
  source_object = some source.key;
  target_object = none;
  label = source.label;
  record_count = record_count;
  field_mappings = map dropped_mapping source.fields;
  note = some "No counterpart in the selected system; this data stays in the old system.";
}

-- One round of the loop over the old objects.
unfoldable pub plan_source : List BuilderDefinition → Counts → Progress → ObjectTypeDef → Progress
unfolding count_of
plan_source target_objects counts p source =
    if has_target target_objects source.key then p else record p {
      object_mappings =
          p.object_mappings ++ unmapped_mapping source (count_of counts source.key) ∷ [];
      conflicts = p.conflicts ++ unmapped_conflict source (count_of counts source.key) ∷ [];
    }

unfoldable pub plan_sources :
    List BuilderDefinition → Counts → Progress → List ObjectTypeDef → Progress
unfolding plan_source
plan_sources target_objects counts p [] = p
plan_sources target_objects counts p (source ∷ sources) =
    plan_sources target_objects counts (plan_source target_objects counts p source) sources

unfoldable pub target_snapshot :
    String → List BuilderDefinition → List ObjectTypeDef → Counts → SystemSnapshot
unfolding by_key count_of
target_snapshot target_key target_objects old_objects counts = record {
  kind = SystemKind.selected;
  key = target_key;
  label = format ("Selected system: " ∷ target_key ∷ []);
  objects =
      map
        (λ def. record {
          key = def.key;
          label = def.label;
          module_name = def.module_name;
          field_keys = map (λ f. f.key) def.fields;
          record_count =
              if is_some (by_key old_objects def.key) then count_of counts def.key else 0;
        })
        target_objects;
}

-- The difference of two counts as an `i64`.
abbrev pub difference : ℕ → ℕ → I64
difference a b = if leb b a then nonneg (a - b) else neg (b - a - 1)

unfoldable pub build_plan :
    String → List ObjectTypeDef → Counts → List BuilderDefinition → MigrationPlan
unfolding plan_targets plan_sources target_snapshot
build_plan target_key old_objects counts target_objects =
    let p = plan_targets old_objects counts no_progress target_objects in
    let q = plan_sources target_objects counts p old_objects in
    let source_system = snapshot_from_objects old_objects counts in
    record {
      source_system = source_system;
      target_system = target_snapshot target_key target_objects old_objects counts;
      object_mappings = q.object_mappings;
      conflicts = q.conflicts;
      summary = record {
        source_objects = length old_objects;
        target_objects = length target_objects;
        mapped_objects = q.mapped_objects;
        source_records = total_records source_system;
        records_mappable = q.records_mappable;
        records_unmapped = difference (total_records source_system) q.records_mappable;
        conflicts = length q.conflicts;
      };
    }

unfoldable pub old_only_summary : SystemSnapshot → MigrationSummary
old_only_summary source = record {
  source_objects = length source.objects;
  target_objects = 0;
  mapped_objects = 0;
  source_records = total_records source;
  records_mappable = 0;
  records_unmapped = nonneg (total_records source);
  conflicts = 0;
}
