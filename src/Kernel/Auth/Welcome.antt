-- ===== src/Kernel/Auth/Welcome.antt =====
-- crates/kernel/src/auth.rs: the token of a login is accepted
use Prim.Native.String.{compare, ◌++◌ as append}
use text.Mathlib.Text.{starts_with, is_eq}
use text.Mathlib.TextPositions.{slice-append_left}
use latent_db.Prelude.{
  ℕ, suc, String, Bool, true, false, ◌||◌, none, some, List, [], ◌∷◌, ◌++◌, any, find, ◌≡◌, refl,
  ap, ◌==◌, eq_refl, arith, format, Bool-cases, inl, inr,
}
use latent_db.Contracts.Error.{ok}
use latent_db.Contracts.Auth.{AuthContext, Source}
use latent_db.Kernel.Host.{Kernel}
use latent_db.Kernel.Store.{Db, Tenant, UserRow, SessionRow}
use latent_db.Kernel.Exec.{State, pure, ◌>>=◌, ◌>>◌, continue, clock}
use latent_db.Kernel.RateLimit.{reset}
use latent_db.Kernel.Auth.Failures.{is_locked_out, entered}
use latent_db.Kernel.Auth.Login.{
  Attempt, LoginResult, limiter_key, login_context, expiry, login_attempt,
}
use latent_db.Kernel.Auth.RoundTrip.{
  Ready, with_session, row_of, result, secret, login_attempt-runs,
}
use latent_db.Kernel.Exec.Runs.{ticked, query-runs}
use latent_db.Kernel.Principals.{find_tenant, role_keys_of, roles_for_principal}
use latent_db.Kernel.Auth.{
  is_live_session, find_session, find_account, session_context, authenticate_session,
  accept_session, accept_account, require_tenant_active, authenticate, is_current,
}

-- A session that lets its user in, in the tables `d`, at every time of the clock.
record Live (k : Kernel) (d : Db) (hash : String) (row : SessionRow) (t : Tenant) (u : UserRow)
    : Type 0 where
  pub up : (n : ℕ) → k.db_outcome n ≡ none
  pub session : find_session hash d ≡ some row
  pub expiry : ℕ
  pub parsed : k.parse_rfc3339 row.expires_at ≡ some expiry
  pub before : (n : ℕ) → is_current (some expiry) (k.now n) ≡ true
  pub tenant : find_tenant row.tenant_id d ≡ some t
  pub tenant_active : (t.status == "active") ≡ true
  pub account : find_account row.user_id d ≡ some u
  pub active : (u.status == "active") ≡ true

module _ (k : Kernel) (hash request_id : String) (source : Source) (row : SessionRow) (t : Tenant)
    (u : UserRow) where
  abbrev context : Db → AuthContext
  context d = session_context row u (role_keys_of row.tenant_id row.user_id d) request_id source

  account-runs :
      (s : State)
      → Live k s.db hash row t u
      → (accept_account k row request_id source s).0 ≡ ok (context s.db)
  unfolding accept_account roles_for_principal ◌>>=◌ continue pure
  account-runs s l =
      rw
        (
          query-runs k (find_account row.user_id) s (l.up s.tick),
          l.account,
          l.active,
          query-runs k (role_keys_of row.tenant_id row.user_id) (ticked s) (l.up (suc s.tick)),
        )
        refl

  tenant-runs :
      (s : State)
      → Live k s.db hash row t u
      → ((require_tenant_active k row.tenant_id >> accept_account k row request_id source) s).0
        ≡ ok (context s.db)
  unfolding require_tenant_active ◌>>=◌ continue pure
  tenant-runs s l =
      rw (query-runs k (find_tenant row.tenant_id) s (l.up s.tick), l.tenant, l.tenant_active)
        (account-runs (ticked s) l)

  session-runs :
      (s : State)
      → Live k s.db hash row t u
      → (accept_session k row request_id source s).0 ≡ ok (context s.db)
  unfolding accept_session ◌>>=◌ continue clock pure
  session-runs s l = rw (l.parsed, l.before s.tick) (tenant-runs (ticked s) l)

  authenticate_session-runs :
      (s : State)
      → Live k s.db hash row t u
      → (authenticate_session k hash request_id source s).0 ≡ ok (context s.db)
  unfolding authenticate_session ◌>>=◌ continue pure
  authenticate_session-runs s l =
      rw (query-runs k (find_session hash) s (l.up s.tick), l.session) (session-runs (ticked s) l)

-- A new session is the one that is found for its hash.
find-added :
    (p : SessionRow → Bool) (hash : String) (rows : List SessionRow) (row : SessionRow)
    → ((x : SessionRow) → p x ≡ false → is_live_session hash x ≡ false)
    → any p rows ≡ false
    → is_live_session hash row ≡ true
    → find (is_live_session hash) (rows ++ row ∷ []) ≡ some row
find-added p hash [] row h n e = rw e refl
find-added p hash (x ∷ rows) row h n e = elim (Bool-cases (p x)) [
  | inl y ↦ absurd (grind arith)
  | inr y ↦
      let n' : any p rows ≡ false = grind arith in
      let ih = find-added p hash rows row h n' e in let z = h x y in grind arith
]

session_prefix : (secret : String) → starts_with (format ("lds_" ∷ secret ∷ [])) "ldb_" ≡ false
unfolding format
session_prefix secret =
    ap (λ v. is_eq (compare v "ldb_")) (slice-append_left "lds_" (append secret ""))

-- What the rows and the clock must be for a fresh session to count: the tenant and the user are found
-- by their ids, and the formatted expiry is parsed back and lies after every reading of the clock.
pub record Known (k : Kernel) (t : Tenant) (u : UserRow) (db : Db) : Type 0 where
  pub parsed : (n : ℕ) → k.parse_rfc3339 (k.to_rfc3339 n) ≡ some n
  pub before : (n m : ℕ) → is_current (some (expiry k (k.now n))) (k.now m) ≡ true
  pub tenant : find_tenant t.id db ≡ some t
  pub tenant_active : (t.status == "active") ≡ true
  pub account : find_account u.id db ≡ some u

module _ (k : Kernel) (a : Attempt) (t : Tenant) (u : UserRow) where
  -- Where the credentials are right and the key is not locked out, the login returns a token, and the
  -- token is accepted in the state that the login leaves: the context is that of the user, in the
  -- user's tenant, with the roles that are assigned there; and the key's failures are forgotten. This
  -- is on the conditions that the database is up; that no session has an id or a token's hash, and no
  -- event an id, that can be drawn; that the tenant is active and found by its slug and by its id, and the user active and
  -- found by the email and by the id; that a formatted time parses back to itself; and that every
  -- reading of the clock lies before the expiry that is computed from any reading of it.
  pub login-authenticate :
      (request_id : String) (source : Source) (s : State)
      → Ready k a t u s.db
      → Known k t u s.db
      → is_locked_out k a s ≡ false
      → let (answer, s') = login_attempt k a s in
        (given : LoginResult) × (answer ≡ ok given)
        × (s'.limiter ≡ reset (limiter_key a) (entered k a s).limiter)
        × ((authenticate k given.token request_id source s').0
            ≡ ok (record (login_context a t u (role_keys_of t.id u.id s.db)) {
              request_id = request_id;
              source = source;
            }))
  unfolding authenticate find_tenant find_account find_session role_keys_of
  login-authenticate request_id source s r n free =
      let (m, at, id, ev, tick, e) = login_attempt-runs k a t u s r free in
      let row = row_of k a t u id m (k.now at) in
      let hash = k.sha256_hex (secret k a t u m) in
      let live : Live k (with_session k a t u s.db row ev) hash row t u = record {
        up = r.up;
        session =
            find-added (λ x. x.id == k.new_id 0 || x.token_hash == hash) hash s.db.accounts.sessions
              row (λ x h. grind arith) (r.new_session_row 0 m) (rw (eq_refl hash) refl);
        expiry = expiry k (k.now at);
        parsed = n.parsed (expiry k (k.now at));
        before = n.before at;
        tenant = n.tenant;
        tenant_active = n.tenant_active;
        account = n.account;
        active = r.active;
      } in
      rw e (
        result k a t u (role_keys_of t.id u.id s.db) m (k.now at),
        refl,
        refl,
        rw (session_prefix (k.random_hex m))
            (authenticate_session-runs k hash request_id source row t u _ live),
      )
