-- ===== src/Kernel/Auth/Logout.antt =====
-- crates/kernel/src/auth.rs: logout, revocation and the purge of old sessions
use latent_db.Prelude.{
  ℕ, String, Bool, true, not, ◌&&◌, ◌||◌, Option, none, some, length, select, update_where, ◌==◌,
  str_leb,
}
use latent_db.Contracts.Error.{ok}
use latent_db.Contracts.Auth.{system_context}
use latent_db.Contracts.Migration.{MigrationReport}
use latent_db.Kernel.Host.{Kernel}
use latent_db.Kernel.RateLimit.{prune}
use latent_db.Kernel.Store.{Db, SessionRow}
use latent_db.Kernel.Exec.{
  Exec, ◌>>=◌, ◌>>◌, pure, fresh_id, current_time, monotonic, with_limiter, query, statement,
  execute, recover,
}
use latent_db.Kernel.Migration.Services.{logout_migration_output}
use latent_db.Kernel.Auth.{find_session}

unfoldable pub update_sessions : (SessionRow → Bool) → (SessionRow → SessionRow) → Db → Db
update_sessions p f db = record db {
  accounts = record db.accounts { sessions = update_where p f db.accounts.sessions };
}

abbrev pub revoke : SessionRow → SessionRow
revoke x = record x { revoked = true }

unfoldable pub revoke_token : String → Db → Db
unfolding update_sessions
revoke_token token_hash db = update_sessions (λ x. x.token_hash == token_hash) revoke db

-- The report for a tenant that is still being onboarded; whatever goes wrong with it, there is none.
unfoldable pub logout_report : Kernel → Option SessionRow → Exec (Option MigrationReport)
logout_report k none = pure none
logout_report k (some row) = do
  request_id ← fresh_id k
  recover (logout_migration_output k (system_context row.tenant_id row.org_id request_id)) none

unfoldable pub logout : Kernel → String → Exec (Option MigrationReport)
unfolding find_session logout_report revoke_token
logout k token = do
  found ← query k (find_session (k.sha256_hex token))
  report ← logout_report k found
  execute k (λ db. ok (revoke_token (k.sha256_hex token) db))
  pure report

abbrev pub is_users : String → String → SessionRow → Bool
is_users tenant_id user_id x = x.tenant_id == tenant_id && x.user_id == user_id && not x.revoked

unfoldable pub revoke_user : String → String → Db → Db
unfolding update_sessions
revoke_user tenant_id user_id db = update_sessions (is_users tenant_id user_id) revoke db

-- The answer is the number of rows that the statement meets.
unfoldable pub revoke_sessions_for_user : Kernel → String → String → Exec ℕ
unfolding revoke_user
revoke_sessions_for_user k tenant_id user_id = statement k λ db. ok (
  length (select (is_users tenant_id user_id) db.accounts.sessions),
  revoke_user tenant_id user_id db,
)

-- Times are compared as texts.
abbrev pub is_over : String → SessionRow → Bool
is_over now x = x.revoked || str_leb x.expires_at now

unfoldable pub purge : String → Db → Db
purge now db = record db {
  accounts = record db.accounts {
    sessions = select (λ x. not (is_over now x)) db.accounts.sessions;
  };
}

unfoldable pub cleanup_expired_sessions : Kernel → Exec ℕ
unfolding purge
cleanup_expired_sessions k = do
  now ← current_time k
  statement k λ db. ok (length (select (is_over now) db.accounts.sessions), purge now db)

-- `Kernel::run_housekeeping` of crates/kernel/src/lib.rs
unfoldable pub run_housekeeping : Kernel → Exec (Unit {0})
unfolding cleanup_expired_sessions
run_housekeeping k = do
  purged ← cleanup_expired_sessions k
  now ← monotonic k
  with_limiter (λ m. (tt, prune now m))
