-- ===== src/Kernel/Auth/Accepts.antt =====
-- crates/kernel/src/auth.rs: whom `authenticate` lets in
use text.Mathlib.Text.{starts_with}
use latent_db.Prelude.{
  ℕ, suc, String, Bool, true, Option, none, some, ◌≡◌, refl, sym, ap, ◌∙◌, ◌==◌, Bool-cases, inl,
  inr, option_str_eq, arith, eq_iff, subst, ◌⊎◌, if◌then◌else◌,
}
use latent_db.Contracts.Error.{ok, unauthorized}
use latent_db.Contracts.Auth.{AuthContext, Source}
use latent_db.Kernel.Host.{Kernel}
use latent_db.Kernel.Store.{Db, Tenant, UserRow, SessionRow, ApiKeyRow}
use latent_db.Kernel.Exec.{State, ◌>>=◌, continue, pure, ignore, execute, query, clock, or_raise}
use latent_db.Kernel.Exec.Returns.{
  ok_inj, bind-ok, bind-step, query-ok, query-tick, or_raise-ok, or_raise-db, ensure-ok,
}
use latent_db.Kernel.Exec.Frames.{db-query, Frames, frames_rules}
use latent_db.Kernel.Exec.Steps.{
  db-reads, unchanged, query-step, fetch-step, ensure-step, check-step, time-step,
}
use latent_db.Kernel.Principals.{find_tenant, role_keys_of, roles_for_principal}
use latent_db.Kernel.Auth.{
  require_tenant_active, stamp_key, find_session, find_account, find_api_key, principal_status,
  is_current, check_expiry, session_context, accept_account, accept_session, accept_principal,
  key_context, authenticate_session, authenticate_api_key, authenticate,
}

-- The tenant is there and active.
abbrev pub TenantActive : String → Db → Type 0
TenantActive id db = (t : Tenant) × (find_tenant id db ≡ some t) × ((t.status == "active") ≡ true)

-- A session that lets its user in: not revoked, not over at the time `now`, of an active tenant and of
-- an active user.
pub record BySession (k : Kernel) (hash request_id : String) (source : Source) (now : ℕ) (db : Db)
    (ctx : AuthContext) : Type 0 where
  pub row : SessionRow
  pub user : UserRow
  pub session : find_session hash db ≡ some row
  pub current : is_current (k.parse_rfc3339 row.expires_at) now ≡ true
  pub tenant : TenantActive row.tenant_id db
  pub account : find_account row.user_id db ≡ some user
  pub active : (user.status == "active") ≡ true
  pub context :
      ctx ≡ session_context row user (role_keys_of row.tenant_id row.user_id db) request_id source

-- An API key that lets its principal in: active, of an active tenant, and of a principal of that tenant
-- that is active too.
pub record ByKey (hash request_id : String) (source : Source) (db : Db) (ctx : AuthContext)
    : Type 0 where
  pub row : ApiKeyRow
  pub key : find_api_key hash db ≡ some row
  pub tenant : TenantActive row.tenant_id db
  pub principal :
      principal_status row.principal_type row.tenant_id row.principal_id db ≡ some "active"
  pub context :
      ctx ≡ key_context row (role_keys_of row.tenant_id row.principal_id db) request_id source

option_str_eq-some : (o : Option String) (t : String) → option_str_eq o (some t) ≡ true → o ≡ some t
option_str_eq-some none t e = absurd (grind arith)
option_str_eq-some (some x) t e = ap some ((eq_iff x t).0 e)

module _ (k : Kernel) where
  require_tenant_active-ok :
      (id : String) (s : State) (u : Unit {0})
      → (require_tenant_active k id s).0 ≡ ok u
      → TenantActive id s.db
  unfolding require_tenant_active
  require_tenant_active-ok id s u e =
      let (t, h, (s1, d1, r1)) = fetch-step k (find_tenant id) _ _ s u e in
      (t, h, ensure-ok (t.status == "active") _ s1 u r1)

  require_tenant_active-Frames : (id : String) → Frames unchanged (require_tenant_active k id)
  unfolding require_tenant_active
  require_tenant_active-Frames id = search frames_rules

  check_expiry-Frames : (o : Option ℕ) → Frames unchanged (check_expiry k o)
  check_expiry-Frames none = search frames_rules
  check_expiry-Frames (some expiry) = search frames_rules

  -- The expiry is compared with the clock as it is read there.
  check_expiry-ok :
      (o : Option ℕ) (s : State) (u : Unit {0})
      → (check_expiry k o s).0 ≡ ok u
      → is_current o (k.now s.tick) ≡ true
  unfolding clock ◌>>=◌ continue
  check_expiry-ok none s u e = refl
  check_expiry-ok (some expiry) s u e = ensure-ok (is_current (some expiry) (k.now s.tick)) _ _ u e

  module _ (request_id : String) (source : Source) (ctx : AuthContext) where
    -- What the checks of the user have seen, in the tables `d`.
    abbrev SeesUser : SessionRow → Db → Type 0
    SeesUser row d =
        (user : UserRow) × (find_account row.user_id d ≡ some user)
        × ((user.status == "active") ≡ true)
        × (ctx
            ≡ session_context row user (role_keys_of row.tenant_id row.user_id d) request_id source)

    accept_account-SeesUser :
        (row : SessionRow) (s : State)
        → (accept_account k row request_id source s).0 ≡ ok ctx
        → SeesUser row s.db
    unfolding accept_account roles_for_principal pure
    accept_account-SeesUser row s e =
        let (user, h, (s1, d1, r1)) = fetch-step k (find_account row.user_id) _ _ s ctx e in
        let (active, (s2, d2, r2)) = ensure-step (user.status == "active") _ _ s1 ctx r1 in
        let (s3, d3, r3) = query-step k (role_keys_of row.tenant_id row.user_id) _ s2 ctx r2 in
        (
          user,
          h,
          active,
          sym (ok_inj r3)
              ∙ ap
                  (λ d.
                    session_context row user (role_keys_of row.tenant_id row.user_id d) request_id
                      source)
                  (d2 ∙ d1),
        )

    accept_session-sees :
        (row : SessionRow) (s : State)
        → (accept_session k row request_id source s).0 ≡ ok ctx
        → (is_current (k.parse_rfc3339 row.expires_at) (k.now s.tick) ≡ true)
          × TenantActive row.tenant_id s.db
          × SeesUser row s.db
    unfolding accept_session
    accept_session-sees row s e =
        let x = k.parse_rfc3339 row.expires_at in
        let check = check_expiry k x in
        let (u1, h1, (s1, d1, r1)) =
          check-step check _ s ctx (db-reads check (check_expiry-Frames x) s) e in
        let member = require_tenant_active k row.tenant_id in
        let (u2, h2, (s2, d2, r2)) =
          check-step member _ s1 ctx
            (db-reads member (require_tenant_active-Frames row.tenant_id) s1) r1 in
        (
          check_expiry-ok x s u1 h1,
          subst (TenantActive row.tenant_id) d1 (require_tenant_active-ok row.tenant_id s1 u2 h2),
          subst (SeesUser row) (d2 ∙ d1) (accept_account-SeesUser row s2 r2),
        )

    pub session-BySession :
        (hash : String) (s : State)
        → (authenticate_session k hash request_id source s).0 ≡ ok ctx
        → BySession k hash request_id source (k.now (suc s.tick)) s.db ctx
    unfolding authenticate_session
    session-BySession hash s e =
        let (found, s0, h0, t0, e0, r0) = bind-step (query k (find_session hash)) _ s ctx e in
        let (row, s1, h1, t1, e1, r1) =
          bind-step (or_raise found (unauthorized "invalid or expired session")) _ s0 ctx r0 in
        let same : s1 ≡ s0 =
          sym t1 ∙ or_raise-db found (unauthorized "invalid or expired session") s0 in
        let at : s1.tick ≡ suc s.tick =
          ap (λ x. x.tick) (same ∙ sym t0) ∙ query-tick k (find_session hash) s in
        let d1 : s1.db ≡ s.db = ap (λ x. x.db) (same ∙ sym t0) ∙ db-query k (find_session hash) s in
        let session = query-ok k (find_session hash) s found h0 ∙ or_raise-ok found _ s0 row h1 in
        let (current, tenant, sees) = accept_session-sees row s1 r1 in
        let (user, account, active, context) = subst (SeesUser row) d1 sees in
        record {
          row = row;
          user = user;
          session = session;
          current =
              subst (λ n. is_current (k.parse_rfc3339 row.expires_at) (k.now n) ≡ true) at current;
          tenant = subst (TenantActive row.tenant_id) d1 tenant;
          account = account;
          active = active;
          context = context;
        }

    abbrev SeesPrincipal : ApiKeyRow → Db → Type 0
    SeesPrincipal row d =
        (principal_status row.principal_type row.tenant_id row.principal_id d ≡ some "active")
        × (ctx ≡ key_context row (role_keys_of row.tenant_id row.principal_id d) request_id source)

    accept_principal-SeesPrincipal :
        (row : ApiKeyRow) (s : State)
        → (accept_principal k row request_id source s).0 ≡ ok ctx
        → SeesPrincipal row s.db
    unfolding accept_principal roles_for_principal pure
    accept_principal-SeesPrincipal row s e =
        let status = principal_status row.principal_type row.tenant_id row.principal_id in
        let (s1, d1, r1) = query-step k status _ s ctx e in
        let (active, (s2, d2, r2)) =
          ensure-step (option_str_eq (status s.db) (some "active")) _ _ s1 ctx r1 in
        let (s3, d3, r3) = query-step k (role_keys_of row.tenant_id row.principal_id) _ s2 ctx r2 in
        let (now, (s4, d4, r4)) = time-step k _ s3 ctx r3 in
        let (u5, h5, r5) =
          bind-ok (ignore (execute k (λ db. ok (stamp_key row.id now db)))) _ s4 ctx r4 in
        (
          option_str_eq-some (status s.db) "active" active,
          sym (ok_inj r5)
              ∙ ap
                  (λ d.
                    key_context row (role_keys_of row.tenant_id row.principal_id d) request_id
                      source)
                  (d2 ∙ d1),
        )

    pub key-ByKey :
        (hash : String) (s : State)
        → (authenticate_api_key k hash request_id source s).0 ≡ ok ctx
        → ByKey hash request_id source s.db ctx
    unfolding authenticate_api_key
    key-ByKey hash s e =
        let (row, key, (s1, d1, r1)) = fetch-step k (find_api_key hash) _ _ s ctx e in
        let member = require_tenant_active k row.tenant_id in
        let (u2, h2, (s2, d2, r2)) =
          check-step member _ s1 ctx
            (db-reads member (require_tenant_active-Frames row.tenant_id) s1) r1 in
        let (principal, context) =
          subst (SeesPrincipal row) (d2 ∙ d1) (accept_principal-SeesPrincipal row s2 r2) in
        record {
          row = row;
          key = key;
          tenant =
              subst (TenantActive row.tenant_id) d1
                (require_tenant_active-ok row.tenant_id s1 u2 h2);
          principal = principal;
          context = context;
        }

  -- Whoever is let in by a token holds either a session that is not revoked, of an active tenant and an
  -- active user, and whose expiry, where it can be parsed, lies after the reading of the clock that the
  -- call makes next after it has read the session; or an active API key, of an active tenant and of a principal of that
  -- tenant that is active. The context is that of the session's user or of the key's principal, with
  -- the roles assigned to it in that tenant; an API key never gives a platform administrator.
  pub authenticate-Accepts :
      (token request_id : String) (source : Source) (s : State) (ctx : AuthContext)
      → (authenticate k token request_id source s).0 ≡ ok ctx
      → BySession k (k.sha256_hex token) request_id source (k.now (suc s.tick)) s.db ctx
        ⊎ ByKey (k.sha256_hex token) request_id source s.db ctx
  unfolding authenticate
  authenticate-Accepts token request_id source s ctx e =
      elim (Bool-cases (starts_with token "ldb_")) [
        | inl b ↦ inr (key-ByKey request_id source ctx (k.sha256_hex token) s (chosen b))
        | inr b ↦ inl (session-BySession request_id source ctx (k.sha256_hex token) s (chosen b))
      ]
    where
      hash : String
      hash = k.sha256_hex token

      chosen :
          {c : Bool}
          → starts_with token "ldb_" ≡ c
          → ((if c
                then authenticate_api_key k hash request_id source
                else authenticate_session k hash request_id source)
              s).0
            ≡ ok ctx
      chosen q =
          subst
            (λ c.
              ((if c
                  then authenticate_api_key k hash request_id source
                  else authenticate_session k hash request_id source)
                s).0
              ≡ ok ctx)
            q e
