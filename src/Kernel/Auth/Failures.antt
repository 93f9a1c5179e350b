-- ===== src/Kernel/Auth/Failures.antt =====
-- crates/kernel/src/auth.rs: how a failed login ends
use latent_db.Prelude.{
  suc, String, Bool, true, Option, none, some, ◌≡◌, refl, sym, ◌∙◌, arith, subst,
}
use latent_db.Contracts.Error.{Result, ApiError, ok, err, panic, unauthorized}
use latent_db.Contracts.Audit.{AuditEvent}
use latent_db.Kernel.Host.{Kernel, DbError}
use latent_db.Kernel.RateLimit.{is_locked, record_failure}
use latent_db.Kernel.Store.{Db}
use latent_db.Kernel.Exec.{
  State, ◌>>=◌, continue, statement, outcome, settle, execute, ignore, monotonic, with_limiter,
  raise, pure, fresh_id, current_time,
}
use latent_db.Kernel.Allows.Accounts.{same_accounts, insert_audit-accounts}
use latent_db.Kernel.Audit.{event_from, audit, insert_audit}
use latent_db.Kernel.Auth.Login.{
  Attempt, LoginResult, limiter_key, audit_login_failure, login_failure, too_many,
  login_unless_locked, login_attempt,
}

-- A statement leaves the limiter as it is.
settle-limiter {ℓ} :
    {A : Type ℓ} (s : State) (r : Result (A × Db)) → (settle s r).1.limiter ≡ s.limiter
unfolding settle
settle-limiter s (ok (a, db)) = refl
settle-limiter s (err e) = refl
settle-limiter s panic = refl

pub outcome-limiter {ℓ} :
    {A : Type ℓ} (s : State) (o : Option DbError) (f : Db → Result (A × Db))
    → (outcome s o f).1.limiter ≡ s.limiter
unfolding outcome settle
outcome-limiter s none f = settle-limiter s (f s.db)
outcome-limiter s (some e) f = refl

pub execute-limiter :
    (k : Kernel) (f : Db → Result Db) (s : State) → (execute k f s).1.limiter ≡ s.limiter
unfolding execute statement
execute-limiter k f s = outcome-limiter s (k.db_outcome s.tick) _

-- The audit row of a failed login leaves the accounts and the limiter as they are.
audit_accounts :
    (k : Kernel) (ev : AuditEvent) (s : State) → (insert_audit k ev s).1.db.accounts ≡ s.db.accounts
unfolding same_accounts
audit_accounts k ev s = (insert_audit-accounts k ev).at s

-- How a refused login ends: the answer, the failure in the limiter, the accounts untouched.
abbrev pub EndsAs : State → State → ApiError → Result LoginResult × State → Type 0
EndsAs s t x p = (p.0 ≡ err x) × (p.1.limiter ≡ t.limiter) × (p.1.db.accounts ≡ s.db.accounts)

module _ (k : Kernel) (a : Attempt) where
  abbrev pub Silent : State → Result (Unit {0}) × State → Type 0
  Silent s p = (p.0 ≡ ok tt) × (p.1.limiter ≡ s.limiter) × (p.1.db.accounts ≡ s.db.accounts)

  audit_login_failure-Silent :
      (reason : String) (s : State) → Silent s (audit_login_failure k a reason s)
  unfolding audit_login_failure event_from fresh_id current_time pure ◌>>=◌ continue ignore audit
      insert_audit
  audit_login_failure-Silent reason s = (refl, execute-limiter k _ _, audit_accounts k _ _)

  failing-ends :
      (p : Result (Unit {0}) × State) (s t : State) (x : ApiError)
      → Silent t p
      → t.db.accounts ≡ s.db.accounts
      → EndsAs s t x (continue p (λ u. raise x))
  unfolding continue raise
  failing-ends (ok u, t') s t x (e, l, h) acc = (refl, l, h ∙ acc)
  failing-ends (err y, t') s t x (e, l, h) acc = absurd (grind arith)
  failing-ends (panic, t') s t x (e, l, h) acc = absurd (grind arith)

  -- The state in which the failure stands in the limiter.
  abbrev pub counted : State → State
  counted s = record s {
    limiter = (record_failure (limiter_key a) (k.instant s.tick) s.limiter).1;
    tick = suc s.tick;
  }

  pub login_failure-ends :
      (reason : String) (s : State)
      → EndsAs s (counted s) (unauthorized "invalid credentials") (login_failure k a reason s)
  unfolding login_failure monotonic with_limiter ◌>>=◌ continue
  login_failure-ends reason s =
      failing-ends (audit_login_failure k a reason (counted s)) s (counted s) _
        (audit_login_failure-Silent reason (counted s)) refl

  -- The state after the limiter has been asked.
  abbrev pub entered : State → State
  entered s = record s {
    limiter = (is_locked (limiter_key a) (k.instant s.tick) s.limiter).1;
    tick = suc s.tick;
  }

  abbrev pub is_locked_out : State → Bool
  is_locked_out s = (is_locked (limiter_key a) (k.instant s.tick) s.limiter).0

  pub rate_limited-ends :
      (s t : State)
      → t.db.accounts ≡ s.db.accounts
      → EndsAs s t too_many (login_unless_locked k a true t)
  unfolding login_unless_locked ◌>>=◌
  rate_limited-ends s t acc =
      failing-ends (audit_login_failure k a "rate_limited" t) s t too_many
        (audit_login_failure-Silent "rate_limited" t) acc

  -- Whoever is locked out is told so, whatever the credentials are and whatever the database does; the
  -- attempt is not counted, and no account is touched.
  pub login_attempt-locked :
      (s : State) → is_locked_out s ≡ true → EndsAs s (entered s) too_many (login_attempt k a s)
  unfolding login_attempt monotonic with_limiter ◌>>=◌ continue
  login_attempt-locked s e =
      subst (λ b. EndsAs s (entered s) too_many (login_unless_locked k a b (entered s))) (sym e)
        (rate_limited-ends s (entered s) refl)
