-- ===== src/Kernel/Migration/Sessions.antt =====
-- crates/kernel/src/migration.rs: the table of the sessions, and the counts of the live records
use latent_db.Prelude.{
  suc, String, Bool, true, false, ◌&&◌, Option, none, some, List, [], ◌∷◌, ◌++◌, find, any, select,
  update_where, ◌==◌, if◌then◌else◌, unwrap_or,
}
use latent_db.Contracts.Error.{failed_precondition}
use latent_db.Contracts.Auth.{AuthContext}
use latent_db.Contracts.Field.{ObjectTypeDef}
use latent_db.Contracts.Record.{Rec, Lifecycle}
use latent_db.Contracts.Migration.{
  SystemKind, MigrationStatus, SystemSnapshot, MigrationReport, MigrationSession, kind_str,
  parse_kind, migration_status_str, parse_migration_status,
}
use latent_db.Kernel.Host.{Kernel}
use latent_db.Kernel.Store.{Db, MigrationRow}
use latent_db.Kernel.Exec.{Exec, ◌>>=◌, pure, or_raise, query}
use latent_db.Kernel.Objects.{list_object_types}
use latent_db.Kernel.Migration.Planner.{Counts}

-- `GROUP BY object_type`, one row at a time
unfoldable pub bump : String → Counts → Counts
bump key [] = (key, 1) ∷ []
bump key ((j, n) ∷ m) = if j == key then (j, suc n) ∷ m else (j, n) ∷ bump key m

unfoldable pub group_counts : List Rec → Counts
unfolding bump
group_counts [] = []
group_counts (r ∷ rs) = bump r.object_type (group_counts rs)

abbrev pub is_live : Lifecycle → Bool
is_live Lifecycle.active = true
is_live Lifecycle.archived = false

-- `active_record_counts`
unfoldable pub active_counts : String → Db → Counts
unfolding group_counts
active_counts tenant_id db =
    group_counts (select (λ r. r.tenant_id == tenant_id && is_live r.lifecycle) db.records)

unfoldable pub old_objects_and_counts : Kernel → AuthContext → Exec (List ObjectTypeDef × Counts)
unfolding active_counts
old_objects_and_counts k ctx = do
  objects ← list_object_types k ctx
  counts ← query k (active_counts ctx.tenant_id)
  pure (objects, counts)

unfoldable pub row_to_session : MigrationRow → MigrationSession
row_to_session row = record {
  tenant_id = row.tenant_id;
  status = parse_migration_status row.status;
  active_system = unwrap_or (parse_kind row.active_system) SystemKind.old;
  selected_system_key = row.selected_system_key;
  old_system = row.snapshot;
  last_report = row.last_report;
  created_at = row.created_at;
  updated_at = row.updated_at;
}

abbrev pub session_of : Option MigrationRow → Option MigrationSession
session_of none = none
session_of (some row) = some (row_to_session row)

abbrev pub is_of : String → MigrationRow → Bool
is_of tenant_id row = row.tenant_id == tenant_id

unfoldable pub find_session : String → Db → Option MigrationSession
unfolding row_to_session
find_session tenant_id db = session_of (find (is_of tenant_id) db.migration_sessions)

unfoldable pub load_session : Kernel → String → Exec (Option MigrationSession)
unfolding find_session
load_session k tenant_id = query k (find_session tenant_id)

unfoldable pub require_session : Kernel → AuthContext → Exec MigrationSession
unfolding load_session
require_session k ctx = do
  found ← load_session k ctx.tenant_id
  or_raise found (failed_precondition "no migration session; call start_migration first")

-- The upsert of `start_migration`: a session that is there keeps its active system, its report and
-- its creation time.
unfoldable pub upsert_session :
    String → MigrationStatus → Option String → SystemSnapshot → String → Db → Db
upsert_session tenant_id status target snapshot now db = record db {
  migration_sessions =
      if any (is_of tenant_id) db.migration_sessions
      then update_where (is_of tenant_id)
          (λ row. record row {
            status = migration_status_str status;
            selected_system_key = target;
            snapshot = snapshot;
            updated_at = now;
          })
          db.migration_sessions
      else db.migration_sessions
        ++ record {
          tenant_id = tenant_id;
          status = migration_status_str status;
          active_system = kind_str SystemKind.old;
          selected_system_key = target;
          snapshot = snapshot;
          last_report = none;
          created_at = now;
          updated_at = now;
        }
          ∷ [];
}

-- `UPDATE migration_sessions SET … WHERE tenant_id = ?`
unfoldable pub update_sessions : String → (MigrationRow → MigrationRow) → Db → Db
update_sessions tenant_id f db = record db {
  migration_sessions = update_where (is_of tenant_id) f db.migration_sessions;
}

unfoldable pub set_target : String → String → MigrationRow → MigrationRow
set_target target now row = record row {
  selected_system_key = some target;
  status = migration_status_str MigrationStatus.target_selected;
  updated_at = now;
}

unfoldable pub set_active : SystemKind → MigrationStatus → String → MigrationRow → MigrationRow
set_active active status now row = record row {
  active_system = kind_str active;
  status = migration_status_str status;
  updated_at = now;
}

unfoldable pub set_report : MigrationReport → String → MigrationRow → MigrationRow
set_report report now row = record row {
  last_report = some report;
  status = migration_status_str MigrationStatus.reported;
  updated_at = now;
}
