-- ===== src/Kernel/Auth/Refusals.antt =====
-- crates/kernel/src/auth.rs: the logins that are refused
use latent_db.Prelude.{ℕ, suc, String, true, false, Option, none, some, ◌≡◌, sym, ◌==◌, inr, subst}
use latent_db.Contracts.Error.{Result, ApiError, err, unauthorized}
use latent_db.Kernel.Host.{Kernel}
use latent_db.Kernel.RateLimit.{record_failure}
use latent_db.Kernel.Store.{Db, Tenant, UserRow}
use latent_db.Kernel.Exec.{State, ◌>>=◌, continue, monotonic, with_limiter, pure}
use latent_db.Kernel.Crypto.{verify_password}
use latent_db.Kernel.Auth.Login.{
  Attempt, LoginResult, limiter_key, login_failure, check_password, check_status, login_user,
  find_by_email, login_tenant, find_by_slug, login_unless_locked, login_attempt,
}
use latent_db.Kernel.Exec.Runs.{query-runs}
use latent_db.Kernel.Auth.Failures.{login_failure-ends, is_locked_out, entered}

-- Why a login is refused: the reason that the audit log gets, and the caller does not.
pub data Refused (k : Kernel) (a : Attempt) (db : Db) : String → Type 0 where
  unknown_tenant : find_by_slug a.slug db ≡ none → Refused k a db "unknown_tenant"
  unknown_user :
      (t : Tenant)
      → find_by_slug a.slug db ≡ some t
      → find_by_email t.id a.email db ≡ none
      → Refused k a db "unknown_user"
  user_inactive :
      (t : Tenant) (u : UserRow)
      → find_by_slug a.slug db ≡ some t
      → find_by_email t.id a.email db ≡ some u
      → (u.status == "active") ≡ false
      → Refused k a db "user_inactive"
  bad_password :
      (t : Tenant) (u : UserRow)
      → find_by_slug a.slug db ≡ some t
      → find_by_email t.id a.email db ≡ some u
      → (u.status == "active") ≡ true
      → k.argon2_verify a.password u.password_hash ≡ inr false
      → Refused k a db "bad_password"

module _ (k : Kernel) (a : Attempt) (up : (n : ℕ) → k.db_outcome n ≡ none) where
  abbrev invalid : ApiError
  invalid = unauthorized "invalid credentials"

  abbrev tick_on : State → State
  tick_on s = record s { tick = suc s.tick }

  -- The answer, with the failure counted at some instant.
  abbrev pub IsInvalid : State → Result LoginResult × State → Type 0
  IsInvalid s p =
      (now : ℕ) × (p.0 ≡ err invalid)
      × (p.1.limiter ≡ (record_failure (limiter_key a) now s.limiter).1)
      × (p.1.db.accounts ≡ s.db.accounts)

  login_failure-IsInvalid : (reason : String) (s : State) → IsInvalid s (login_failure k a reason s)
  login_failure-IsInvalid reason s =
      let (e, l, h) = login_failure-ends k a reason s in (k.instant s.tick, e, l, h)

  checked-IsInvalid :
      (t : Tenant) (u : UserRow) (s : State)
      → k.argon2_verify a.password u.password_hash ≡ inr false
      → IsInvalid s (check_status k a t u true s)
  unfolding check_status verify_password ◌>>=◌ continue pure check_password
  checked-IsInvalid t u s e = rw e (login_failure-IsInvalid "bad_password" s)

  status-IsInvalid :
      (t : Tenant) (u : UserRow) (s : State)
      → (u.status == "active") ≡ false
      → IsInvalid s (login_user k a t (some u) s)
  unfolding login_user check_status
  status-IsInvalid t u s e =
      subst (λ b. IsInvalid s (check_status k a t u b s)) (sym e)
        (login_failure-IsInvalid "user_inactive" s)

  password-IsInvalid :
      (t : Tenant) (u : UserRow) (s : State)
      → (u.status == "active") ≡ true
      → k.argon2_verify a.password u.password_hash ≡ inr false
      → IsInvalid s (login_user k a t (some u) s)
  unfolding login_user
  password-IsInvalid t u s e w =
      subst (λ b. IsInvalid s (check_status k a t u b s)) (sym e) (checked-IsInvalid t u s w)

  -- What the two lookups find decides.
  tenant-IsInvalid :
      (s : State) (o : Option Tenant)
      → find_by_slug a.slug s.db ≡ o
      → IsInvalid s (login_tenant k a o (tick_on s))
      → IsInvalid s (login_unless_locked k a false s)
  unfolding login_unless_locked ◌>>=◌ continue
  tenant-IsInvalid s o e h =
      rw (query-runs k (find_by_slug a.slug) s (up s.tick))
        (subst (λ x. IsInvalid s (login_tenant k a x (tick_on s))) (sym e) h)

  user-IsInvalid :
      (s : State) (t : Tenant) (o : Option UserRow)
      → find_by_slug a.slug s.db ≡ some t
      → find_by_email t.id a.email s.db ≡ o
      → IsInvalid s (login_user k a t o (tick_on (tick_on s)))
      → IsInvalid s (login_unless_locked k a false s)
  unfolding login_tenant ◌>>=◌ continue
  user-IsInvalid s t o e f h = tenant-IsInvalid s (some t) e (
      rw (query-runs k (find_by_email t.id a.email) (tick_on s) (up (suc s.tick)))
        (subst (λ x. IsInvalid s (login_user k a t x (tick_on (tick_on s)))) (sym f) h))

  Refused-IsInvalid :
      (reason : String) (s : State)
      → Refused k a s.db reason
      → IsInvalid s (login_unless_locked k a false s)
  unfolding login_tenant login_user
  Refused-IsInvalid reason s (unknown_tenant e) =
      tenant-IsInvalid s none e (login_failure-IsInvalid "unknown_tenant" (tick_on s))
  Refused-IsInvalid reason s (unknown_user t e f) =
      user-IsInvalid s t none e f (login_failure-IsInvalid "unknown_user" (tick_on (tick_on s)))
  Refused-IsInvalid reason s (user_inactive t u e f i) =
      user-IsInvalid s t (some u) e f (status-IsInvalid t u (tick_on (tick_on s)) i)
  Refused-IsInvalid reason s (bad_password t u e f i w) =
      user-IsInvalid s t (some u) e f (password-IsInvalid t u (tick_on (tick_on s)) i w)

  -- A login is refused in one way only: whether it is the tenant, the user, the user's status or the
  -- password that is wrong, the caller gets the same error, the failure is counted for the same key,
  -- and no account is touched. The database is taken to be up, and the key not to be locked out.
  pub login_attempt-Refused :
      (reason : String) (s : State)
      → is_locked_out k a s ≡ false
      → Refused k a s.db reason
      → IsInvalid (entered k a s) (login_attempt k a s)
  unfolding login_attempt monotonic with_limiter ◌>>=◌ continue
  login_attempt-Refused reason s e h =
      subst (λ b. IsInvalid (entered k a s) (login_unless_locked k a b (entered k a s))) (sym e)
        (Refused-IsInvalid reason (entered k a s) h)
