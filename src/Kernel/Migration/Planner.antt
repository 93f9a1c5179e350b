-- ===== src/Kernel/Migration/Planner.antt =====
-- crates/kernel/src/migration.rs: the plan that maps the installed system onto a template, and the
-- report. A `HashMap` of counts is an association list in which a key stands at most once.
use latent_db.Prelude.{
  ℕ, String, Bool, true, false, not, Option, none, some, List, [], ◌∷◌, ◌++◌, map, select, any,
  ◌==◌, if◌then◌else◌, format, or_else,
}
use mathlib.Core.List.{flat_map}
use mathlib.Core.Logic.{ite}
use latent_db.Contracts.Field.{FieldType, FieldType-discrete, FieldDefinition, ObjectTypeDef, field}
use latent_db.Contracts.Migration.{
  SystemKind, SystemSnapshot, MappingStatus, FieldMapping, ConflictKind, MigrationConflict,
}

abbrev pub Counts : Type 0
Counts = List (String × ℕ)

-- `counts.get(key).copied().unwrap_or(0)`
unfoldable pub count_of : Counts → String → ℕ
count_of [] key = 0
count_of ((j, n) ∷ m) key = if j == key then n else count_of m key

-- A `HashMap` collected from a list keeps the last entry of a key.
unfoldable pub by_key : List ObjectTypeDef → String → Option ObjectTypeDef
by_key [] key = none
by_key (o ∷ os) key = or_else (by_key os key) (if o.key == key then some o else none)

unfoldable pub snapshot_from_objects : List ObjectTypeDef → Counts → SystemSnapshot
unfolding count_of
snapshot_from_objects objects counts = record {
  kind = SystemKind.old;
  key = "installed";
  label = "Your current (old) system";
  objects =
      map
        (λ o. record {
          key = o.key;
          label = o.label;
          module_name = o.module_name;
          field_keys = map (λ f. f.key) o.fields;
          record_count = count_of counts o.key;
        })
        objects;
}

-- The derived `Debug` of `FieldType`.
unfoldable pub debug_type : FieldType → String
debug_type FieldType.text = "Text"
debug_type FieldType.long_text = "LongText"
debug_type FieldType.number = "Number"
debug_type FieldType.money = "Money"
debug_type FieldType.boolean = "Boolean"
debug_type FieldType.date = "Date"
debug_type FieldType.date_time = "DateTime"
debug_type FieldType.enum = "Enum"
debug_type FieldType.multi_enum = "MultiEnum"
debug_type FieldType.json = "Json"
debug_type FieldType.record_ref = "RecordRef"
debug_type FieldType.user_ref = "UserRef"
debug_type FieldType.file_ref = "FileRef"
debug_type FieldType.formula = "Formula"

abbrev pub same_type : FieldType → FieldType → Bool
same_type a b = ite (FieldType-discrete a b) true false

abbrev pub pair_status : FieldDefinition → FieldDefinition → MappingStatus
pair_status sf tf =
    if same_type sf.field_type tf.field_type
    then MappingStatus.mapped
    else MappingStatus.type_mismatch

-- The arms of the first loop of `map_fields`: the mapping that it pushes for a field of the target.
abbrev pub mapping_onto : FieldDefinition → Option FieldDefinition → FieldMapping
mapping_onto tf (some sf) = record {
  source_field = some sf.key;
  target_field = some tf.key;
  source_type = some sf.field_type;
  target_type = some tf.field_type;
  status = pair_status sf tf;
}
mapping_onto tf none = record {
  source_field = none;
  target_field = some tf.key;
  source_type = none;
  target_type = some tf.field_type;
  status =
      if tf.required
      then MappingStatus.missing_required_in_target
      else MappingStatus.added_in_target;
}

abbrev pub target_mapping : ObjectTypeDef → FieldDefinition → FieldMapping
target_mapping source tf = mapping_onto tf (field source tf.key)

abbrev mismatch : String → FieldDefinition → FieldDefinition → MigrationConflict
mismatch target_key sf tf = record {
  kind = ConflictKind.type_mismatch;
  object = target_key;
  field = some tf.key;
  detail = format (
      "field '"
      ∷ tf.key
      ∷ "' is "
      ∷ debug_type sf.field_type
      ∷ " in the old system but "
      ∷ debug_type tf.field_type
      ∷ " in the selected system"
      ∷ []);
}

abbrev missing : String → FieldDefinition → MigrationConflict
missing target_key tf = record {
  kind = ConflictKind.missing_required_target;
  object = target_key;
  field = some tf.key;
  detail =
      format (
        "required field '" ∷ tf.key ∷ "' has no source value; imported records need a default"
        ∷ []);
}

-- The conflicts that it pushes.
unfoldable pub conflicts_onto :
    String → FieldDefinition → Option FieldDefinition → List MigrationConflict
unfolding debug_type
conflicts_onto target_key tf (some sf) =
    if same_type sf.field_type tf.field_type then [] else mismatch target_key sf tf ∷ []
conflicts_onto target_key tf none = if tf.required then missing target_key tf ∷ [] else []

abbrev pub target_conflicts : String → ObjectTypeDef → FieldDefinition → List MigrationConflict
target_conflicts target_key source tf = conflicts_onto target_key tf (field source tf.key)

-- `target_keys.contains`, negated
abbrev pub is_homeless : List FieldDefinition → FieldDefinition → Bool
is_homeless target_fields sf = not (any (λ tf. tf.key == sf.key) target_fields)

abbrev pub dropped_mapping : FieldDefinition → FieldMapping
dropped_mapping sf = record {
  source_field = some sf.key;
  target_field = none;
  source_type = some sf.field_type;
  target_type = none;
  status = MappingStatus.dropped_from_source;
}

abbrev pub dropped_conflict : String → FieldDefinition → MigrationConflict
dropped_conflict target_key sf = record {
  kind = ConflictKind.dropped_field;
  object = target_key;
  field = some sf.key;
  detail = format (
      "old field '" ∷ sf.key
      ∷ "' has no counterpart in the selected system and would not be carried over" ∷ []);
}

-- The mappings, and the conflicts with those that were there before.
unfoldable pub map_fields :
    String
    → ObjectTypeDef
    → List FieldDefinition
    → List MigrationConflict
    → List FieldMapping × List MigrationConflict
unfolding conflicts_onto
map_fields target_key source target_fields conflicts =
    let homeless = select (is_homeless target_fields) source.fields in
    (
      map (target_mapping source) target_fields ++ map dropped_mapping homeless,
      conflicts
          ++ (flat_map (target_conflicts target_key source) target_fields
              ++ map (dropped_conflict target_key) homeless),
    )
