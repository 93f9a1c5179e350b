-- ===== src/Kernel/Migration/Services.antt =====
-- crates/kernel/src/migration.rs: the services
use latent_db.Prelude.{
  String, Bool, true, Option, none, some, List, [], ◌∷◌, format, length, is_some,
}
use latent_db.Contracts.Json.{Value, null, string, object, from_map}
use latent_db.Contracts.Error.{ok, not_found, failed_precondition}
use latent_db.Contracts.Auth.{AuthContext}
use latent_db.Contracts.Permission.{Action}
use latent_db.Contracts.Builder.{BuilderDefinition, BuilderTemplate}
use latent_db.Contracts.Migration.{
  SystemKind, MigrationStatus, MigrationPlan, MigrationReport, MigrationSession, kind_str,
  total_records,
}
use latent_db.Kernel.Host.{Kernel}
use latent_db.Kernel.Exec.{
  Exec, ◌>>=◌, ◌>>◌, pure, or_raise, ensure, fresh_id, current_time, execute,
}
use latent_db.Kernel.Audit.{event_from, audit, emit_event}
use latent_db.Kernel.Rbac.{authorize}
use latent_db.Kernel.Objects.{count_value}
use latent_db.Kernel.Builder.Templates.{template_by_key}
use latent_db.Kernel.Migration.Planner.{snapshot_from_objects}
use latent_db.Kernel.Migration.Plans.{build_plan}
use latent_db.Kernel.Migration.Reports.{build_report}
use latent_db.Kernel.Migration.Sessions.{
  old_objects_and_counts, load_session, require_session, upsert_session, update_sessions,
  set_target, set_active, set_report,
}

abbrev template_objects : Option BuilderTemplate → Option (List BuilderDefinition)
template_objects none = none
template_objects (some t) = some t.objects

unfoldable pub ensure_template : String → Exec (List BuilderDefinition)
unfolding template_by_key
ensure_template key =
    or_raise (template_objects (template_by_key key))
      (not_found (format ("unknown target system '" ∷ key ∷ "'" ∷ [])))

abbrev ensure_target : Option String → Exec (Unit {0})
ensure_target none = pure tt
ensure_target (some key) = do objects ← ensure_template key; pure tt

abbrev pub first_status : Option String → MigrationStatus
first_status none = MigrationStatus.booted_old
first_status (some key) = MigrationStatus.target_selected

abbrev key_value : Option String → Value
key_value none = null
key_value (some key) = string key

-- The audit row of a change of the session.
unfoldable pub audit_change :
    Kernel → AuthContext → String → List (String × Value) → Exec (Unit {0})
audit_change k ctx action after = do
  ev ← event_from k ctx action (some "migration") none none (some (object (from_map after)))
  audit k ev

unfoldable pub start_migration : Kernel → AuthContext → Option String → Exec MigrationSession
unfolding upsert_session audit_change
start_migration k ctx target = do
  authorize k ctx Action.configure "migration" none
  ensure_target target
  old ← old_objects_and_counts k ctx
  let snapshot = snapshot_from_objects old.0 old.1
  now ← current_time k
  execute k (λ db. ok (upsert_session ctx.tenant_id (first_status target) target snapshot now db))
  audit_change k ctx "migration.start" (
      ("objects", count_value k (length snapshot.objects))
      ∷ ("records", count_value k (total_records snapshot))
      ∷ ("target", key_value target)
      ∷ [])
  require_session k ctx

unfoldable pub get_migration : Kernel → AuthContext → Exec (Option MigrationSession)
get_migration k ctx = do authorize k ctx Action.read "migration" none; load_session k ctx.tenant_id

unfoldable pub select_target_system : Kernel → AuthContext → String → Exec MigrationSession
unfolding update_sessions set_target audit_change
select_target_system k ctx target = do
  authorize k ctx Action.configure "migration" none
  objects ← ensure_template target
  session ← require_session k ctx
  now ← current_time k
  execute k (λ db. ok (update_sessions ctx.tenant_id (set_target target now) db))
  audit_change k ctx "migration.select_target" (("target", string target) ∷ [])
  require_session k ctx

-- The target must be there before it is activated.
abbrev pub may_activate : SystemKind → MigrationSession → Bool
may_activate SystemKind.old session = true
may_activate SystemKind.selected session = is_some session.selected_system_key

abbrev pub next_status : SystemKind → MigrationStatus → MigrationStatus
next_status SystemKind.selected MigrationStatus.booted_old = MigrationStatus.target_selected
next_status _ current = current

unfoldable pub set_active_system : Kernel → AuthContext → SystemKind → Exec MigrationSession
unfolding update_sessions set_active audit_change
set_active_system k ctx active = do
  authorize k ctx Action.configure "migration" none
  session ← require_session k ctx
  ensure (may_activate active session)
      (failed_precondition "select a target system before activating it")
  now ← current_time k
  execute k (λ db. ok (
      update_sessions ctx.tenant_id (set_active active (next_status active session.status) now) db))
  audit_change k ctx "migration.set_active_system" (("active", string (kind_str active)) ∷ [])
  require_session k ctx

unfoldable pub plan_migration : Kernel → AuthContext → Exec MigrationPlan
plan_migration k ctx = do
  authorize k ctx Action.read "migration" none
  session ← require_session k ctx
  key ←
      or_raise session.selected_system_key
        (failed_precondition "no target system selected to plan against")
  objects ← ensure_template key
  old ← old_objects_and_counts k ctx
  pure (build_plan key old.0 old.1 objects)

unfoldable pub generate_and_store_report : Kernel → AuthContext → SystemKind → Exec MigrationReport
unfolding update_sessions set_report audit_change
generate_and_store_report k ctx for_system = do
  session ← require_session k ctx
  old ← old_objects_and_counts k ctx
  id ← fresh_id k
  generated_at ← current_time k
  let report =
      build_report ctx.tenant_id for_system old.0 old.1 session.selected_system_key id generated_at
  now ← current_time k
  execute k (λ db. ok (update_sessions ctx.tenant_id (set_report report now) db))
  audit_change k ctx "migration.report" (
      ("conflicts", count_value k report.summary.conflicts)
      ∷ ("for_system", string (kind_str for_system))
      ∷ ("records_mappable", count_value k report.summary.records_mappable)
      ∷ ("source_records", count_value k report.summary.source_records)
      ∷ [])
  emit_event k ctx "migration.report_generated"
      (object (from_map (("for_system", string (kind_str for_system)) ∷ [])))
  pure report

unfoldable pub migration_report : Kernel → AuthContext → SystemKind → Exec MigrationReport
unfolding generate_and_store_report
migration_report k ctx for_system = do
  authorize k ctx Action.read "migration" none
  session ← require_session k ctx
  generate_and_store_report k ctx for_system

abbrev pub report_if :
    Kernel → AuthContext → Option MigrationSession → Exec (Option MigrationReport)
report_if k ctx none = pure none
report_if k ctx (some session) = do
  report ← generate_and_store_report k ctx session.active_system
  pure (some report)

unfoldable pub logout_migration_output : Kernel → AuthContext → Exec (Option MigrationReport)
unfolding generate_and_store_report
logout_migration_output k ctx = do session ← load_session k ctx.tenant_id; report_if k ctx session
