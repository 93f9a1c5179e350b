-- ===== src/Kernel/Auth/RoundTrip.antt =====
-- crates/kernel/src/auth.rs: a login, and the token that it gives
use latent_db.Prelude.{
  ℕ, suc, String, true, false, ◌||◌, none, some, List, [], ◌∷◌, ◌++◌, any, ◌≡◌, refl, sym, ◌∙◌,
  ◌==◌, subst, inr, format, unwrap_or,
}
use latent_db.Contracts.Error.{Result, ok}
use latent_db.Contracts.Audit.{AuditEvent}
use latent_db.Kernel.Host.{Kernel}
use latent_db.Kernel.RateLimit.{reset}
use latent_db.Kernel.Store.{Db, Tenant, UserRow, SessionRow}
use latent_db.Kernel.Exec.{
  State, query, execute, pure, ◌>>=◌, ◌>>◌, continue, fresh_id, current_time, clock, random_secret,
  with_limiter, monotonic,
}
use latent_db.Kernel.Exec.Runs.{ticked, query-runs, execute-runs, then-runs, transaction-runs}
use latent_db.Kernel.Audit.{event_from, insert_audit, add_audit, audit_event}
use latent_db.Kernel.Crypto.{verify_password, new_token}
use latent_db.Kernel.Principals.{role_keys_of, roles_for_principal}
use latent_db.Kernel.Auth.Failures.{is_locked_out, entered}
use latent_db.Kernel.Auth.Login.{
  Attempt, LoginResult, limiter_key, find_by_slug, find_by_email, add_session, new_session,
  login_context, expiry, store_session, issue_session, check_password, check_status, login_user,
  login_tenant, login_unless_locked, login_attempt,
}

-- A state in which the attempt is right, and in which what is drawn is new.
pub record Ready (k : Kernel) (a : Attempt) (t : Tenant) (u : UserRow) (db : Db) : Type 0 where
  pub up : (n : ℕ) → k.db_outcome n ≡ none
  pub tenant : find_by_slug a.slug db ≡ some t
  pub user : find_by_email t.id a.email db ≡ some u
  pub active : (u.status == "active") ≡ true
  pub password : k.argon2_verify a.password u.password_hash ≡ inr true
  pub new_session_row :
      (n m : ℕ)
      → any
          (λ x.
            x.id == k.new_id n
            || x.token_hash == k.sha256_hex (format ("lds_" ∷ k.random_hex m ∷ [])))
          db.accounts.sessions
        ≡ false
  pub new_event : (n : ℕ) → any (λ (e : AuditEvent). e.id == k.new_id n) db.audit_logs ≡ false

module _ (k : Kernel) (a : Attempt) (t : Tenant) (u : UserRow) where
  abbrev pub secret : ℕ → String
  secret m = format ("lds_" ∷ k.random_hex m ∷ [])

  -- The tables after the transaction of a login.
  abbrev pub with_session : Db → SessionRow → AuditEvent → Db
  with_session db row ev = record db {
    accounts = record db.accounts { sessions = db.accounts.sessions ++ row ∷ [] };
    audit_logs = db.audit_logs ++ ev ∷ [];
  }

  add_session-runs :
      (db : Db) (row : SessionRow)
      → any (λ x. x.id == row.id || x.token_hash == row.token_hash) db.accounts.sessions ≡ false
      → add_session row db
        ≡ ok (record db {
          accounts = record db.accounts { sessions = db.accounts.sessions ++ row ∷ [] };
        })
  unfolding add_session
  add_session-runs db row e = rw (e, add_session) refl

  add_audit-runs :
      (db : Db) (ev : AuditEvent)
      → any (λ e. e.id == ev.id) db.audit_logs ≡ false
      → add_audit ev db ≡ ok (record db { audit_logs = db.audit_logs ++ ev ∷ [] })
  unfolding add_audit
  add_audit-runs db ev e = rw (e, add_audit) refl

  -- What `store_session` leaves.
  abbrev Stored : State → String → ℕ → Result (Unit {0}) × State → Type 0
  Stored s hash now p =
      (id : String) × (ev : AuditEvent) × (tick : ℕ) × (p ≡ (
        ok tt,
        record s {
          db =
              with_session s.db
                (new_session t u id hash (k.to_rfc3339 now) (k.to_rfc3339 (expiry k now))) ev;
          tick = tick;
        },
      ))

  store_session-runs :
      (keys : List String) (m now : ℕ) (s : State)
      → Ready k a t u s.db
      → Stored s
          (k.sha256_hex (secret m))
          now
          (store_session k a t u keys (k.sha256_hex (secret m)) now s)
  unfolding store_session fresh_id event_from current_time pure insert_audit ◌>>=◌ continue
  store_session-runs keys m now s r =
      let n = suc s.tick in
      let row =
        new_session t u (k.new_id n) (k.sha256_hex (secret m)) (k.to_rfc3339 now)
          (k.to_rfc3339 (expiry k now)) in
      let ctx = login_context a t u keys in
      let ev =
        audit_event ctx "auth.login" (some "user") (some u.id) none none (k.new_id (suc (suc n)))
          (k.now_rfc3339 (suc (suc (suc n)))) in
      let s1 = record s { tick = suc n } in
      let s2 = record s {
        db = record s.db {
          accounts = record s.db.accounts { sessions = s.db.accounts.sessions ++ row ∷ [] };
        };
        tick = suc (suc n);
      } in
      let s3 = record s2 { tick = suc (suc (suc (suc n))) } in
      let s4 = record s { db = with_session s.db row ev; tick = suc (suc (suc (suc (suc n)))) } in
      let record_event = event_from k ctx "auth.login" (some "user") (some u.id) none none in
      let log = λ (e : AuditEvent). insert_audit k e in
      let make = λ (id : String).
        execute k (
          add_session (
            new_session t u id (k.sha256_hex (secret m)) (k.to_rfc3339 now)
              (k.to_rfc3339 (expiry k now))))
        >> (record_event >>= log) in
      (
        k.new_id n,
        ev,
        suc s4.tick,
        transaction-runs k (fresh_id k >>= make) s s4 tt (r.up _) (r.up _) (
            then-runs (fresh_id k) make (ticked s) (k.new_id n) s1 refl
            ∙ then-runs (execute k (add_session row)) (λ x. record_event >>= log) s1 tt s2
                (execute-runs k (add_session row) s1 s2.db (r.up _)
                  (add_session-runs s.db row (r.new_session_row n m)))
            ∙ then-runs record_event log s2 ev s3 refl
            ∙ execute-runs k (add_audit ev) s3 s4.db (r.up _)
                (add_audit-runs s2.db ev (r.new_event (suc (suc n))))),
      )

  abbrev pub result : List String → ℕ → ℕ → LoginResult
  result keys m now = record {
    token = secret m;
    expires_at = k.to_rfc3339 (expiry k now);
    user_id = u.id;
    tenant_id = t.id;
    org_id = unwrap_or u.default_org_id "";
    name = u.name;
    email = a.email;
    role_keys = keys;
    is_platform_admin = u.is_platform_admin;
  }

  abbrev pub row_of : String → ℕ → ℕ → SessionRow
  row_of id m now =
      new_session t u id (k.sha256_hex (secret m)) (k.to_rfc3339 now) (k.to_rfc3339 (expiry k now))

  -- What a login that succeeds answers and leaves.
  abbrev pub Issued : State → Result LoginResult × State → Type 0
  Issued s p =
      (m : ℕ) × (n : ℕ) × (id : String) × (ev : AuditEvent) × (tick : ℕ) × (p ≡ (
        ok (result (role_keys_of t.id u.id s.db) m (k.now n)),
        record {
          db = with_session s.db (row_of id m (k.now n)) ev;
          limiter = reset (limiter_key a) s.limiter;
          tick = tick;
        },
      ))

  issue_session-runs : (s : State) → Ready k a t u s.db → Issued s (issue_session k a t u s)
  unfolding issue_session with_limiter roles_for_principal new_token random_secret clock pure ◌>>=◌
      continue
  issue_session-runs s r =
      let keys = role_keys_of t.id u.id s.db in
      let s1 = record s { limiter = reset (limiter_key a) s.limiter } in
      let s2 = ticked s1 in
      let m = s2.tick in
      let now = k.now (suc m) in
      let s4 = record s2 { tick = suc (suc m) } in
      let (id, ev, tick, e) = store_session-runs keys m now s4 r in
      let hash = k.sha256_hex (secret m) in
      let finish = λ (x : Unit {0}). pure (result keys m now) in
      let stored = then-runs (store_session k a t u keys hash now) finish s4 tt _ e in
      let rest = λ (ks : List String). new_token k "lds_" >>= λ token.
      (clock k >>= λ at.
      store_session k a t u ks token.1 at
      >> pure (record {
        token = token.0;
        expires_at = k.to_rfc3339 (expiry k at);
        user_id = u.id;
        tenant_id = t.id;
        org_id = unwrap_or u.default_org_id "";
        name = u.name;
        email = a.email;
        role_keys = ks;
        is_platform_admin = u.is_platform_admin;
      })) in
      (
        m,
        suc m,
        id,
        ev,
        tick,
        then-runs (query k (role_keys_of t.id u.id)) rest s1 keys s2
              (query-runs k (role_keys_of t.id u.id) s1 (r.up s.tick))
            ∙ stored,
      )

  -- The lookups of a login that is ready find the tenant, the user and the password.
  pub login_attempt-runs :
      (s : State)
      → Ready k a t u s.db
      → is_locked_out k a s ≡ false
      → Issued (entered k a s) (login_attempt k a s)
  unfolding login_attempt monotonic with_limiter ◌>>=◌ continue login_unless_locked login_tenant
      login_user check_status verify_password pure check_password
  login_attempt-runs s r free =
      let s1 = entered k a s in
      let s3 = ticked (ticked s1) in
      let verified : Issued s1 (check_status k a t u true s3) =
        rw r.password (issue_session-runs s3 r) in
      let checked : Issued s1 (login_user k a t (some u) s3) =
        subst (λ b. Issued s1 (check_status k a t u b s3)) (sym r.active) verified in
      let found : Issued s1 (login_tenant k a (some t) (ticked s1)) =
        rw (query-runs k (find_by_email t.id a.email) (ticked s1) (r.up (suc s1.tick)))
          (subst (λ o. Issued s1 (login_user k a t o s3)) (sym r.user) checked) in
      let admitted : Issued s1 (login_unless_locked k a false s1) =
        rw (query-runs k (find_by_slug a.slug) s1 (r.up s1.tick))
          (subst (λ o. Issued s1 (login_tenant k a o (ticked s1))) (sym r.tenant) found) in
      subst (λ b. Issued s1 (login_unless_locked k a b s1)) (sym free) admitted
