-- ===== src/Contracts/Migration.antt =====
-- crates/contracts/src/migration.rs: the shapes of the first-run migration
use latent_db.Prelude.{
  ℕ, ◌+◌, String, Option, none, some, List, [], ◌∷◌, ◌==◌, ◌≡◌, refl, if◌then◌else◌,
}
use latent_db.Contracts.Field.{FieldType}
use latent_db.Contracts.Record.{I64}

pub data SystemKind : Type 0 where
  old selected : SystemKind

-- `SystemKind::as_str` and `SystemKind::parse`
unfoldable pub kind_str : SystemKind → String
kind_str SystemKind.old = "old"
kind_str SystemKind.selected = "selected"

unfoldable pub parse_kind : String → Option SystemKind
parse_kind s =
    if s == "old"
    then some SystemKind.old
    else if s == "selected"
    then some SystemKind.selected
    else none

pub data MigrationStatus : Type 0 where
  booted_old target_selected reported : MigrationStatus

-- `MigrationStatus::as_str` and `MigrationStatus::parse`
unfoldable pub migration_status_str : MigrationStatus → String
migration_status_str MigrationStatus.booted_old = "booted_old"
migration_status_str MigrationStatus.target_selected = "target_selected"
migration_status_str MigrationStatus.reported = "reported"

unfoldable pub parse_migration_status : String → MigrationStatus
parse_migration_status s =
    if s == "target_selected"
    then MigrationStatus.target_selected
    else if s == "reported"
    then MigrationStatus.reported
    else MigrationStatus.booted_old

pub parse_kind-kind_str : (kind : SystemKind) → parse_kind (kind_str kind) ≡ some kind
unfolding parse_kind kind_str
parse_kind-kind_str SystemKind.old = refl
parse_kind-kind_str SystemKind.selected = refl

pub parse_migration_status-str :
    (status : MigrationStatus) → parse_migration_status (migration_status_str status) ≡ status
unfolding parse_migration_status migration_status_str
parse_migration_status-str MigrationStatus.booted_old = refl
parse_migration_status-str MigrationStatus.target_selected = refl
parse_migration_status-str MigrationStatus.reported = refl

-- The counts are numbers of rows, so they are natural numbers.
pub record SystemObject : Type 0 where
  pub key : String
  pub label : String
  pub module_name : Option String
  pub field_keys : List String
  pub record_count : ℕ

pub record SystemSnapshot : Type 0 where
  pub kind : SystemKind
  pub key : String
  pub label : String
  pub objects : List SystemObject

unfoldable pub sum_counts : List SystemObject → ℕ
sum_counts [] = 0
sum_counts (o ∷ os) = o.record_count + sum_counts os

unfoldable pub total_records : SystemSnapshot → ℕ
unfolding sum_counts
total_records s = sum_counts s.objects

pub data MappingStatus : Type 0 where
  mapped type_mismatch added_in_target dropped_from_source : MappingStatus
  missing_required_in_target : MappingStatus

pub record FieldMapping : Type 0 where
  pub source_field : Option String
  pub target_field : Option String
  pub source_type : Option FieldType
  pub target_type : Option FieldType
  pub status : MappingStatus

pub record ObjectMapping : Type 0 where
  pub source_object : Option String
  pub target_object : Option String
  pub label : String
  pub record_count : ℕ
  pub field_mappings : List FieldMapping
  pub note : Option String

pub data ConflictKind : Type 0 where
  unmapped_source_object type_mismatch missing_required_target dropped_field : ConflictKind

pub record MigrationConflict : Type 0 where
  pub kind : ConflictKind
  pub object : String
  pub field : Option String
  pub detail : String

pub record MigrationSummary : Type 0 where
  pub source_objects : ℕ
  pub target_objects : ℕ
  pub mapped_objects : ℕ
  pub source_records : ℕ
  pub records_mappable : ℕ
  pub records_unmapped : I64
  pub conflicts : ℕ

pub record MigrationPlan : Type 0 where
  pub source_system : SystemSnapshot
  pub target_system : SystemSnapshot
  pub object_mappings : List ObjectMapping
  pub conflicts : List MigrationConflict
  pub summary : MigrationSummary

pub record MigrationReport : Type 0 where
  pub id : String
  pub tenant_id : String
  pub generated_at : String
  pub for_system : SystemKind
  pub source_system : SystemSnapshot
  pub target_system : Option SystemSnapshot
  pub plan : Option MigrationPlan
  pub summary : MigrationSummary
  pub notes : List String

pub record MigrationSession : Type 0 where
  pub tenant_id : String
  pub status : MigrationStatus
  pub active_system : SystemKind
  pub selected_system_key : Option String
  pub old_system : SystemSnapshot
  pub last_report : Option MigrationReport
  pub created_at : String
  pub updated_at : String
