-- ===== src/Kernel/Migration/Safety.antt =====
-- crates/kernel/src/migration.rs: no service of the migration moves data
use latent_db.Prelude.{
  String, true, false, not, Option, none, some, List, [], select, ◌≡◌, refl, sym, ap, ◌∙◌, ◌==◌,
  eq_refl,
}
use latent_db.Contracts.Json.{Value}
use latent_db.Contracts.Error.{Result, ok}
use latent_db.Contracts.Auth.{AuthContext}
use latent_db.Contracts.Audit.{AuditEvent, Event}
use latent_db.Contracts.Migration.{SystemKind, MigrationStatus, SystemSnapshot, MigrationSession}
use latent_db.Kernel.Host.{Kernel}
use latent_db.Kernel.Store.{Db, MigrationRow}
use latent_db.Kernel.Exec.{State, execute}
use latent_db.Kernel.Exec.Frames.{
  Guarantee, Frames, Frames-execute, Frames-bind, Frames-query, frames_rules,
}
use latent_db.Kernel.Exec.Returns.{ok_inj}
use latent_db.Kernel.Histories.Lists.{inserted, upserted-select, select-update_where}
use latent_db.Kernel.Audit.{insert_audit, add_audit, emit_on, add_event, emit_event, audit}
use latent_db.Kernel.Allows.{Denies}
use latent_db.Kernel.Allows.Basics.{event_from-Frames, basic_rules}
use latent_db.Kernel.Objects.{list_object_types}
use latent_db.Kernel.Migration.Sessions.{
  is_of, old_objects_and_counts, load_session, require_session, upsert_session, update_sessions,
  set_target, set_active, set_report,
}
use latent_db.Kernel.Migration.Services.{
  ensure_template, audit_change, start_migration, get_migration, select_target_system,
  set_active_system, plan_migration, generate_and_store_report, migration_report,
  logout_migration_output, report_if,
}

-- All that is stored but the audit log, the events, and the tenant's own migration session.
unfoldable pub data_of : String → Db → Db
data_of t db = record db {
  audit_logs = [];
  events = [];
  migration_sessions = select (λ row. not (row.tenant_id == t)) db.migration_sessions;
}

keeps_data : String → Guarantee
keeps_data t = record {
  rel = λ a b. data_of t b ≡ data_of t a;
  rel_refl = λ d. refl;
  rel_trans = λ a b c p q. q ∙ p;
}

-- A row of the tenant's own session is outside what is kept.
own_row : (t x : String) → (x == t) ≡ true → not (x == t) ≡ false
own_row t x e = ap not e

update_sessions-data_of :
    (t : String) (f : MigrationRow → MigrationRow) (d : Db)
    → ((row : MigrationRow) → (f row).tenant_id ≡ row.tenant_id)
    → data_of t (update_sessions t f d) ≡ data_of t d
unfolding update_sessions data_of
update_sessions-data_of t f d same =
    ap (λ x. record (data_of t d) { migration_sessions = x })
      (select-update_where (λ row. not (row.tenant_id == t)) (is_of t) f d.migration_sessions
        (λ row e. (own_row t row.tenant_id e, own_row t _ (ap (λ x. x == t) (same row) ∙ e))))

upsert_session-data_of :
    (t : String) (status : MigrationStatus) (target : Option String) (snapshot : SystemSnapshot)
    (now : String) (d : Db)
    → data_of t (upsert_session t status target snapshot now d) ≡ data_of t d
unfolding upsert_session data_of
upsert_session-data_of t status target snapshot now d =
    ap (λ x. record (data_of t d) { migration_sessions = x })
      (upserted-select (λ row. not (row.tenant_id == t)) (is_of t) _ _ d.migration_sessions
        (own_row t t (eq_refl t)) (λ row e. (own_row t row.tenant_id e, own_row t row.tenant_id e)))

module _ (k : Kernel) (t : String) where
  writes-keeps_data :
      (g : Db → Db)
      → ((d : Db) → data_of t (g d) ≡ data_of t d)
      → Frames (keeps_data t) (execute k (λ db. ok (g db)))
  unfolding keeps_data
  writes-keeps_data g h = Frames-execute k _ (λ d db e. ap (data_of t) (sym (ok_inj e)) ∙ h d)

  adds-keeps_data :
      (f : Db → Result Db)
      → ((d db : Db) → f d ≡ ok db → data_of t db ≡ data_of t d)
      → Frames (keeps_data t) (execute k f)
  unfolding keeps_data
  adds-keeps_data f h = Frames-execute k f h

  insert_audit-keeps : (ev : AuditEvent) → Frames (keeps_data t) (insert_audit k ev)
  unfolding insert_audit data_of add_audit
  insert_audit-keeps ev =
      adds-keeps_data _ (λ d db e. ap (data_of t) (inserted _ _ ev d.audit_logs db e).1)

  adds_event-keeps : (ev : Event) → Frames (keeps_data t) (execute k (add_event ev))
  unfolding data_of add_event
  adds_event-keeps ev =
      adds-keeps_data _ (λ d db e. ap (data_of t) (inserted _ _ ev d.events db e).1)

  updates-keeps :
      (f : MigrationRow → MigrationRow)
      → ((row : MigrationRow) → (f row).tenant_id ≡ row.tenant_id)
      → Frames (keeps_data t) (execute k (λ db. ok (update_sessions t f db)))
  updates-keeps f same = writes-keeps_data _ (λ d. update_sessions-data_of t f d same)

  upserts-keeps :
      (status : MigrationStatus) (target : Option String) (snapshot : SystemSnapshot) (now : String)
      → Frames
          (keeps_data t)
          (execute k (λ db. ok (upsert_session t status target snapshot now db)))
  upserts-keeps status target snapshot now =
      writes-keeps_data _ (λ d. upsert_session-data_of t status target snapshot now d)

module _ (k : Kernel) (ctx : AuthContext) where
  keeps_data-Denies : Denies k ctx (keeps_data ctx.tenant_id)
  keeps_data-Denies = record { audits = λ ev e. insert_audit-keeps k ctx.tenant_id ev }

  emit_event-keeps :
      (kind : String) (payload : Value)
      → Frames (keeps_data ctx.tenant_id) (emit_event k ctx kind payload)
  unfolding emit_event emit_on
  emit_event-keeps kind payload = search (frames_rules, adds_event-keeps)

  audit_change-keeps :
      (action : String) (after : List (String × Value))
      → Frames (keeps_data ctx.tenant_id) (audit_change k ctx action after)
  unfolding audit_change audit
  audit_change-keeps action after =
      event_from-Frames k ctx keeps_data-Denies _ _ _ _ _ _
        (λ ev e. insert_audit-keeps k ctx.tenant_id ev)

ruleset keep_rules =
    (basic_rules, keeps_data-Denies, emit_event-keeps, audit_change-keeps, upserts-keeps)

module _ (k : Kernel) (ctx : AuthContext) where
  old_objects-keeps : Frames (keeps_data ctx.tenant_id) (old_objects_and_counts k ctx)
  unfolding old_objects_and_counts list_object_types
  old_objects-keeps = search keep_rules

  require_session-keeps : Frames (keeps_data ctx.tenant_id) (require_session k ctx)
  unfolding require_session load_session
  require_session-keeps = search keep_rules

  ensure_template-keeps : (key : String) → Frames (keeps_data ctx.tenant_id) (ensure_template key)
  unfolding ensure_template
  ensure_template-keeps key = search keep_rules

  generate-keeps :
      (kind : SystemKind) → Frames (keeps_data ctx.tenant_id) (generate_and_store_report k ctx kind)
  unfolding generate_and_store_report set_report
  generate-keeps kind =
      search (keep_rules, old_objects-keeps, require_session-keeps, updates-keeps) depth 20

ruleset service_rules = (
  keep_rules, old_objects-keeps, require_session-keeps, ensure_template-keeps, generate-keeps,
  updates-keeps,
)

-- The calls of the migration service.
pub data MigrationCall : Type 0 where
  starts : Option String → MigrationCall
  gets plans logs_out : MigrationCall
  selects : String → MigrationCall
  activates reports : SystemKind → MigrationCall

unfoldable pub serve : Kernel → AuthContext → MigrationCall → State → State
serve k ctx (starts target) s = (start_migration k ctx target s).1
serve k ctx gets s = (get_migration k ctx s).1
serve k ctx plans s = (plan_migration k ctx s).1
serve k ctx logs_out s = (logout_migration_output k ctx s).1
serve k ctx (selects key) s = (select_target_system k ctx key s).1
serve k ctx (activates kind) s = (set_active_system k ctx kind s).1
serve k ctx (reports kind) s = (migration_report k ctx kind s).1

module _ (k : Kernel) (ctx : AuthContext) where
  start-keeps :
      (target : Option String) → Frames (keeps_data ctx.tenant_id) (start_migration k ctx target)
  unfolding start_migration
  start-keeps none = search service_rules depth 20
  start-keeps (some key) = search service_rules depth 20

  get-keeps : Frames (keeps_data ctx.tenant_id) (get_migration k ctx)
  unfolding get_migration load_session
  get-keeps = search service_rules

  plan-keeps : Frames (keeps_data ctx.tenant_id) (plan_migration k ctx)
  unfolding plan_migration
  plan-keeps = search service_rules depth 20

  select-keeps : (key : String) → Frames (keeps_data ctx.tenant_id) (select_target_system k ctx key)
  unfolding select_target_system set_target
  select-keeps key = search service_rules depth 20

  activate-keeps :
      (kind : SystemKind) → Frames (keeps_data ctx.tenant_id) (set_active_system k ctx kind)
  unfolding set_active_system set_active
  activate-keeps kind = search service_rules depth 20

  report-keeps :
      (kind : SystemKind) → Frames (keeps_data ctx.tenant_id) (migration_report k ctx kind)
  unfolding migration_report
  report-keeps kind = search service_rules depth 20

  logout-keeps : Frames (keeps_data ctx.tenant_id) (logout_migration_output k ctx)
  unfolding logout_migration_output load_session
  logout-keeps = Frames-bind _ _ (Frames-query k _) after
    where
      after :
          (session : Option MigrationSession)
          → Frames (keeps_data ctx.tenant_id) (report_if k ctx session)
      after none = search service_rules
      after (some session) = search service_rules

  -- The migration is not destructive: whichever of its services is called, whatever the database
  -- refuses, and however the call ends, everything but the audit log, the events and the tenant's own
  -- migration session is as it was: the object types, the records, the accounts, the rest.
  pub serve-data_of :
      (c : MigrationCall) (s : State)
      → data_of ctx.tenant_id (serve k ctx c s).db ≡ data_of ctx.tenant_id s.db
  unfolding serve keeps_data
  serve-data_of (starts target) s = (start-keeps target).at s
  serve-data_of gets s = get-keeps.at s
  serve-data_of plans s = plan-keeps.at s
  serve-data_of logs_out s = logout-keeps.at s
  serve-data_of (selects key) s = (select-keeps key).at s
  serve-data_of (activates kind) s = (activate-keeps kind).at s
  serve-data_of (reports kind) s = (report-keeps kind).at s
