-- ===== src/Kernel/Auth/Revoked.antt =====
-- crates/kernel/src/auth.rs: credentials that no longer let anyone in
use text.Mathlib.Text.{starts_with}
use latent_db.Prelude.{
  String, false, Option, none, ◌≡◌, ap, ◌∙◌, ◌==◌, arith, subst, if◌then◌else◌, find-update_none,
}
use latent_db.Contracts.Error.{ok}
use latent_db.Contracts.Auth.{AuthContext, Source}
use latent_db.Contracts.Migration.{MigrationReport}
use latent_db.Kernel.Host.{Kernel}
use latent_db.Kernel.Store.{Db, SessionRow}
use latent_db.Kernel.Exec.{State, query, execute, pure, ◌>>=◌, ◌>>◌}
use latent_db.Kernel.Exec.Returns.{bind-ok, update-ok, bind_run}
use latent_db.Kernel.Auth.{
  is_live_session, find_session, authenticate_session, authenticate_api_key, authenticate,
}
use latent_db.Kernel.Auth.Accepts.{session-BySession}
use latent_db.Kernel.Auth.Logout.{update_sessions, revoke, revoke_token, logout_report, logout}

find_session-revoke_token :
    (hash : String) (db : Db) → find_session hash (revoke_token hash db) ≡ none
unfolding find_session revoke_token update_sessions
find_session-revoke_token hash db =
    find-update_none (is_live_session hash) (λ x. x.token_hash == hash) revoke db.accounts.sessions
      (λ x e. grind arith) (λ x e. grind arith)

module _ (k : Kernel) (token : String) where
  -- The statement that ends a logout.
  revoking-ok :
      (report : Option MigrationReport) (s : State) (b : Option MigrationReport)
      → let m = execute k (λ db. ok (revoke_token (k.sha256_hex token) db)) >> pure report in
        (m s).0 ≡ ok b → find_session (k.sha256_hex token) (m s).1.db ≡ none
  unfolding pure
  revoking-ok report s b e =
      let m = execute k (λ db. ok (revoke_token (k.sha256_hex token) db)) in
      let (u, h, r) = bind-ok m (λ _. pure report) s b e in
      ap (λ p. find_session (k.sha256_hex token) p.1.db) (bind_run m (λ _. pure report) s u h)
      ∙ ap (find_session (k.sha256_hex token))
          (update-ok k (revoke_token (k.sha256_hex token)) s u h)
      ∙ find_session-revoke_token (k.sha256_hex token) s.db

  logout-find_session :
      (s : State) (report : Option MigrationReport)
      → (logout k token s).0 ≡ ok report
      → find_session (k.sha256_hex token) (logout k token s).1.db ≡ none
  unfolding logout
  logout-find_session s report e =
      let hash = k.sha256_hex token in
      let end =
        λ (r : Option MigrationReport). execute k (λ db. ok (revoke_token hash db)) >> pure r in
      let ask = λ (f : Option SessionRow). logout_report k f >>= end in
      let (found, h1, r1) = bind-ok (query k (find_session hash)) ask s report e in
      let s1 = (query k (find_session hash) s).1 in
      let (made, h2, r2) = bind-ok (logout_report k found) end s1 report r1 in
      let run =
        bind_run (query k (find_session hash)) ask s found h1
        ∙ bind_run (logout_report k found) end s1 made h2 in
      ap (λ p. find_session hash p.1.db) run
      ∙ revoking-ok made (logout_report k found s1).1 report r2

  -- A session that was logged out lets nobody in: in the state that a returned logout leaves, whatever
  -- became of the report, the token is refused.
  pub logout-authenticate :
      (request_id : String) (source : Source) (s : State) (report : Option MigrationReport)
      (ctx : AuthContext)
      → starts_with token "ldb_" ≡ false
      → (logout k token s).0 ≡ ok report
      → ¬ ((authenticate k token request_id source (logout k token s).1).0 ≡ ok ctx)
  unfolding authenticate
  logout-authenticate request_id source s report ctx session e h =
      let b = session-BySession k request_id source ctx (k.sha256_hex token) (logout k token s).1 (
        subst
          (λ c.
            ((if c
                then authenticate_api_key k (k.sha256_hex token) request_id source
                else authenticate_session k (k.sha256_hex token) request_id source)
              (logout k token s).1).0
            ≡ ok ctx)
          session h) in
      let n = logout-find_session s report e in let q = b.session in absurd (grind arith)
