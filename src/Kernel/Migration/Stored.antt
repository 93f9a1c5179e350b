-- ===== src/Kernel/Migration/Stored.antt =====
-- crates/kernel/src/migration.rs: what is written to a session's row is what is read back
use latent_db.Prelude.{
  String, some, find, ◌≡◌, refl, sym, ap, ◌∙◌, ◌==◌, arith, find-update_where, unwrap_or,
  Option-cases, inl, inr,
}
use latent_db.Contracts.Migration.{
  SystemKind, MigrationStatus, MigrationReport, MigrationSession, parse_kind-kind_str,
  parse_migration_status-str,
}
use latent_db.Kernel.Store.{Db, MigrationRow}
use latent_db.Kernel.Migration.Sessions.{
  is_of, row_to_session, session_of, find_session, update_sessions, set_target, set_active,
  set_report,
}

-- The three updates of a session that is there, and what is read back of it.
update_sessions-found :
    (t : String) (f : MigrationRow → MigrationRow) (db : Db) (row : MigrationRow)
    → ((x : MigrationRow) → (f x).tenant_id ≡ x.tenant_id)
    → find (is_of t) db.migration_sessions ≡ some row
    → find_session t (update_sessions t f db) ≡ some (row_to_session (f row))
unfolding find_session update_sessions
update_sessions-found t f db row same e =
    ap session_of
      (find-update_where (is_of t) f db.migration_sessions (λ x. ap (λ y. y == t) (same x)) row e)

found_row :
    (t : String) (db : Db) (session : MigrationSession)
    → find_session t db ≡ some session
    → (row : MigrationRow) × (find (is_of t) db.migration_sessions ≡ some row)
      × (row_to_session row ≡ session)
unfolding find_session
found_row t db session e = elim (Option-cases (find (is_of t) db.migration_sessions)) [
  | inl n ↦ absurd (let d = sym (ap session_of n) ∙ e in grind arith)
  | inr (row, h) ↦ (row, h, let d = sym (ap session_of h) ∙ e in cc)
]

module _ (row : MigrationRow) (now : String) where
  set_target-session :
      (target : String)
      → row_to_session (set_target target now row) ≡ record (row_to_session row) {
        selected_system_key = some target;
        status = MigrationStatus.target_selected;
        updated_at = now;
      }
  unfolding row_to_session set_target
  set_target-session target =
      ap
        (λ x. record (row_to_session row) {
          selected_system_key = some target;
          status = x;
          updated_at = now;
        })
        (parse_migration_status-str MigrationStatus.target_selected)

  set_report-session :
      (report : MigrationReport)
      → row_to_session (set_report report now row) ≡ record (row_to_session row) {
        last_report = some report;
        status = MigrationStatus.reported;
        updated_at = now;
      }
  unfolding row_to_session set_report
  set_report-session report =
      ap
        (λ x. record (row_to_session row) {
          last_report = some report;
          status = x;
          updated_at = now;
        })
        (parse_migration_status-str MigrationStatus.reported)

  set_active-session :
      (active : SystemKind) (status : MigrationStatus)
      → row_to_session (set_active active status now row)
        ≡ record (row_to_session row) { active_system = active; status = status; updated_at = now }
  unfolding row_to_session set_active
  set_active-session active status =
      ap
        (λ x. record (row_to_session (set_active active status now row)) {
          active_system = unwrap_or x SystemKind.old;
        })
        (parse_kind-kind_str active)
      ∙ ap
          (λ x. record (row_to_session row) {
            active_system = active;
            status = x;
            updated_at = now;
          })
          (parse_migration_status-str status)

pub set_active-stored :
    (t now : String) (active : SystemKind) (status : MigrationStatus) (db : Db)
    (session : MigrationSession)
    → find_session t db ≡ some session
    → find_session t (update_sessions t (set_active active status now) db)
      ≡ some (record session { active_system = active; status = status; updated_at = now })
unfolding row_to_session set_active
set_active-stored t now active status db session e =
    let (row, h, q) = found_row t db session e in
    update_sessions-found t (set_active active status now) db row (λ x. refl) h
    ∙ ap some (
        set_active-session row now active status
        ∙ ap
            (λ (s : MigrationSession). record s {
              active_system = active;
              status = status;
              updated_at = now;
            })
            q)

-- What the services write to the tenant's session is what is read back, in each of the three updates:
-- the columns that hold names of states are parsed to the states that were meant, and every column
-- that the update does not set is as before.
pub sessions_round_trip :
    (t target now : String) (active : SystemKind) (status : MigrationStatus)
    (report : MigrationReport) (db : Db) (session : MigrationSession)
    → find_session t db ≡ some session
    → (find_session t (update_sessions t (set_target target now) db)
        ≡ some (record session {
          selected_system_key = some target;
          status = MigrationStatus.target_selected;
          updated_at = now;
        }))
      × (find_session t (update_sessions t (set_active active status now) db)
          ≡ some (record session { active_system = active; status = status; updated_at = now }))
      × (find_session t (update_sessions t (set_report report now) db)
          ≡ some (record session {
            last_report = some report;
            status = MigrationStatus.reported;
            updated_at = now;
          }))
unfolding row_to_session set_target set_report
sessions_round_trip t target now active status report db session e =
    let (row, h, q) = found_row t db session e in
    let found = update_sessions-found t in
    (
      found (set_target target now) db row (λ x. refl) h
          ∙ ap some (
              set_target-session row now target
              ∙ ap
                  (λ (s : MigrationSession). record s {
                    selected_system_key = some target;
                    status = MigrationStatus.target_selected;
                    updated_at = now;
                  })
                  q),
      set_active-stored t now active status db session e,
      found (set_report report now) db row (λ x. refl) h
          ∙ ap some (
              set_report-session row now report
              ∙ ap
                  (λ (s : MigrationSession). record s {
                    last_report = some report;
                    status = MigrationStatus.reported;
                    updated_at = now;
                  })
                  q),
    )
