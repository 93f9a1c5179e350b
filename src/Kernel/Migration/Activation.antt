-- ===== src/Kernel/Migration/Activation.antt =====
-- crates/kernel/src/migration.rs: what `set_active_system` answers
use latent_db.Prelude.{String, none, some, List, true, ◌≡◌, refl, sym, ap, ◌∙◌}
use latent_db.Contracts.Json.{Value}
use latent_db.Contracts.Error.{ok, failed_precondition}
use latent_db.Contracts.Auth.{AuthContext}
use latent_db.Contracts.Audit.{AuditEvent}
use latent_db.Contracts.Permission.{Action}
use latent_db.Contracts.Migration.{SystemKind, MigrationSession}
use latent_db.Kernel.Host.{Kernel}
use latent_db.Kernel.Store.{Db}
use latent_db.Kernel.Exec.{State, execute, current_time, ensure, ◌>>=◌, ◌>>◌}
use latent_db.Kernel.Exec.Frames.{Guarantee, Frames, Frames-execute}
use latent_db.Kernel.Exec.Returns.{
  bind-ok, update-ok, required-ok, required-db, ensure-ok, ensure_same,
}
use latent_db.Kernel.Histories.Lists.{inserted}
use latent_db.Kernel.Audit.{insert_audit, add_audit, audit}
use latent_db.Kernel.Rbac.{authorize}
use latent_db.Kernel.Allows.{Denies}
use latent_db.Kernel.Allows.Basics.{event_from-Frames, authorize-Frames}
use latent_db.Kernel.Migration.Sessions.{
  find_session, load_session, require_session, update_sessions, set_active,
}
use latent_db.Kernel.Migration.Services.{audit_change, set_active_system, may_activate, next_status}
use latent_db.Kernel.Migration.Stored.{set_active-stored}

some_inj : {a b : MigrationSession} → some a ≡ some b → a ≡ b
some_inj e = cc

-- The checks and the audit rows leave the sessions alone.
keeps_sessions : Guarantee
keeps_sessions = record {
  rel = λ a b. b.migration_sessions ≡ a.migration_sessions;
  rel_refl = λ d. refl;
  rel_trans = λ a b c p q. q ∙ p;
}

module _ (k : Kernel) (ctx : AuthContext) where
  insert_audit-keeps : (ev : AuditEvent) → Frames keeps_sessions (insert_audit k ev)
  unfolding insert_audit keeps_sessions add_audit
  insert_audit-keeps ev =
      Frames-execute k _
        (λ d db e. ap (λ x. x.migration_sessions) (inserted _ _ ev d.audit_logs db e).1)

  keeps_sessions-Denies : Denies k ctx keeps_sessions
  keeps_sessions-Denies = record { audits = λ ev e. insert_audit-keeps ev }

  audit_change-keeps :
      (action : String) (after : List (String × Value))
      → Frames keeps_sessions (audit_change k ctx action after)
  unfolding audit_change audit
  audit_change-keeps action after =
      event_from-Frames k ctx keeps_sessions-Denies _ _ _ _ _ _ (λ ev e. insert_audit-keeps ev)

  audit_change-sessions :
      (action : String) (after : List (String × Value)) (s : State)
      → (audit_change k ctx action after s).1.db.migration_sessions ≡ s.db.migration_sessions
  unfolding keeps_sessions
  audit_change-sessions action after s = (audit_change-keeps action after).at s

  authorize-sessions :
      (action : Action) (s : State)
      → (authorize k ctx action "migration" none s).1.db.migration_sessions
        ≡ s.db.migration_sessions
  unfolding keeps_sessions
  authorize-sessions action s =
      (authorize-Frames k ctx keeps_sessions-Denies action "migration" none).at s

  require_session-ok :
      (s : State) (session : MigrationSession)
      → (require_session k ctx s).0 ≡ ok session
      → find_session ctx.tenant_id s.db ≡ some session
  unfolding require_session load_session
  require_session-ok s session e = required-ok k (find_session ctx.tenant_id) _ s session e

  require_session-db : (s : State) → (require_session k ctx s).1.db ≡ s.db
  unfolding require_session load_session
  require_session-db s = required-db k (find_session ctx.tenant_id) _ s

  session_same :
      (d d' : Db)
      → d'.migration_sessions ≡ d.migration_sessions
      → find_session ctx.tenant_id d' ≡ find_session ctx.tenant_id d
  unfolding find_session
  session_same d d' e =
      ap (λ rows. find_session ctx.tenant_id (record d { migration_sessions = rows })) e

  -- The end of each service that changes the session: the statement, the audit row, the row read back.
  changed-ok :
      (g : Db → Db) (action : String) (after : List (String × Value)) (s : State)
      (session : MigrationSession)
      → ((execute k (λ db. ok (g db)) >> (audit_change k ctx action after >> require_session k ctx))
          s).0
        ≡ ok session
      → find_session ctx.tenant_id (g s.db) ≡ some session
  changed-ok g action after s session e =
      let (u, e1, h1) = bind-ok (execute k (λ db. ok (g db))) _ s session e in
      let s1 = (execute k (λ db. ok (g db)) s).1 in
      let (v, e2, h2) = bind-ok (audit_change k ctx action after) _ s1 session h1 in
      let s2 = (audit_change k ctx action after s1).1 in
      ap (find_session ctx.tenant_id) (sym (update-ok k g s u e1))
      ∙ sym (session_same s1.db s2.db (audit_change-sessions action after s1))
      ∙ require_session-ok s2 session h2

  -- The change that a `current_time` comes before.
  stamped-ok :
      (g : String → Db → Db) (action : String) (after : List (String × Value)) (s : State)
      (session : MigrationSession)
      → ((current_time k >>= λ now.
            execute k (λ db. ok (g now db))
            >> (audit_change k ctx action after >> require_session k ctx))
          s).0
        ≡ ok session
      → (now : String) × (find_session ctx.tenant_id (g now s.db) ≡ some session)
  unfolding current_time
  stamped-ok g action after s session e =
      let (now, e1, h1) = bind-ok (current_time k) _ s session e in
      (now, changed-ok (g now) action after (current_time k s).1 session h1)

  -- Where `set_active_system` returns a session, the tenant is booted into the system that it asked
  -- for, and a target is selected where that is the selected system; the target itself and the
  -- inventory are those from before the call.
  pub set_active_system-active :
      (active : SystemKind) (s : State) (session : MigrationSession)
      → (set_active_system k ctx active s).0 ≡ ok session
      → (before : MigrationSession) × (find_session ctx.tenant_id s.db ≡ some before)
        × (may_activate active before ≡ true)
        × (now : String) × (session ≡ record before {
          active_system = active;
          status = next_status active before.status;
          updated_at = now;
        })
  unfolding set_active_system
  set_active_system-active active s session e =
      let (u, e1, h1) = bind-ok (authorize k ctx Action.configure "migration" none) _ s session e in
      let s1 = (authorize k ctx Action.configure "migration" none s).1 in
      let k1 = session_same s.db s1.db (authorize-sessions Action.configure s) in
      let (before, e2, h2) = bind-ok (require_session k ctx) _ s1 session h1 in
      let s2 = (require_session k ctx s1).1 in
      let b = require_session-ok s1 before e2 in
      let d2 = require_session-db s1 in
      let (u3, e3, h3) = bind-ok (ensure (may_activate active before) _) _ s2 session h2 in
      let may = ensure-ok (may_activate active before) _ s2 u3 e3 in
      let s3 =
        (ensure (may_activate active before)
          (failed_precondition "select a target system before activating it") s2).1 in
      let d3 =
        ensure_same (may_activate active before)
          (failed_precondition "select a target system before activating it") s2 in
      let (now, r) =
        stamped-ok
          (λ now.
            update_sessions ctx.tenant_id
              (set_active active (next_status active before.status) now))
          _ _ s3 session h3 in
      let db3 : s3.db ≡ s1.db = ap (λ x. x.db) d3 ∙ d2 in
      let e5 = ap (find_session ctx.tenant_id) db3 ∙ b in
      let trip =
        set_active-stored ctx.tenant_id now active (next_status active before.status) s3.db before
          e5 in
      (before, sym k1 ∙ b, may, now, some_inj (sym r ∙ trip))
