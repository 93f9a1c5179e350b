-- ===== src/Kernel/Auth/Quiet.antt =====
-- The actions of crates/kernel/src/auth.rs that leave the login limiter alone, one rule for each way to
-- build an action.
use latent_db.Prelude.{◌≡◌, refl, ◌∙◌}
use latent_db.Contracts.Error.{Result, ApiError, ok, err, panic}
use latent_db.Kernel.Host.{Kernel}
use latent_db.Kernel.RateLimit.{Limiter}
use latent_db.Kernel.Store.{Db}
use latent_db.Kernel.Exec.{
  Exec, State, ◌>>=◌, continue, pure, raise, statement, query, execute, clock, current_time,
  fresh_id, random_secret, with_limiter, transaction, committed, rollback,
}
use latent_db.Kernel.Auth.Failures.{outcome-limiter, execute-limiter}

-- The action leaves the limiter as it is, however it ends.
pub record Quiet {ℓ} {A : Type ℓ} (m : Exec A) : Type 0 where
  pub at : (s : State) → (m s).1.limiter ≡ s.limiter

module _ {ℓ} {A : Type ℓ} where
  pub Quiet-pure : (a : A) → Quiet (pure a)
  unfolding pure
  Quiet-pure a = record { at = λ s. refl }

  pub Quiet-raise : (e : ApiError) → Quiet (raise {A = A} e)
  unfolding raise
  Quiet-raise e = record { at = λ s. refl }

  pub Quiet-query : (k : Kernel) (f : Db → A) → Quiet (query k f)
  unfolding query statement
  Quiet-query k f = record { at = λ s. outcome-limiter s (k.db_outcome s.tick) _ }

module _ (k : Kernel) where
  pub Quiet-execute : (f : Db → Result Db) → Quiet (execute k f)
  Quiet-execute f = record { at = execute-limiter k f }

  pub Quiet-fresh_id : Quiet (fresh_id k)
  unfolding fresh_id
  Quiet-fresh_id = record { at = λ s. refl }

  pub Quiet-clock : Quiet (clock k)
  unfolding clock
  Quiet-clock = record { at = λ s. refl }

  pub Quiet-current_time : Quiet (current_time k)
  unfolding current_time
  Quiet-current_time = record { at = λ s. refl }

  pub Quiet-random_secret : Quiet (random_secret k)
  unfolding random_secret
  Quiet-random_secret = record { at = λ s. refl }

module _ {ℓ κ} {A : Type ℓ} {B : Type κ} where
  continue-limiter :
      (m : Limiter) (p : Result A × State) (f : A → Exec B)
      → p.1.limiter ≡ m
      → ((a : A) → Quiet (f a))
      → (continue p f).1.limiter ≡ m
  unfolding continue
  continue-limiter m (ok a, s) f e h = (h a).at s ∙ e
  continue-limiter m (err x, s) f e h = e
  continue-limiter m (panic, s) f e h = e

  pub Quiet-bind :
      (m : Exec A) (f : A → Exec B) → Quiet m → ((a : A) → Quiet (f a)) → Quiet (m >>= f)
  unfolding ◌>>=◌
  Quiet-bind m f q h = record { at = λ s. continue-limiter s.limiter (m s) f (q.at s) h }

module _ {ℓ} {A : Type ℓ} where
  rollback-limiter : (d : Db) (p : Result A × State) → (rollback d p).1.limiter ≡ p.1.limiter
  unfolding rollback
  rollback-limiter d (ok a, s) = refl
  rollback-limiter d (err e, s) = refl
  rollback-limiter d (panic, s) = refl

  committed-Quiet : (k : Kernel) (body : Exec A) → Quiet body → Quiet (committed k body)
  unfolding committed
  committed-Quiet k body q =
      Quiet-bind _ _ (Quiet-query k _)
        λ _. Quiet-bind body _ q λ a. Quiet-bind _ _ (Quiet-query k _) λ _. Quiet-pure a

  pub Quiet-transaction : (k : Kernel) (body : Exec A) → Quiet body → Quiet (transaction k body)
  unfolding transaction
  Quiet-transaction k body q = record {
    at = λ s. rollback-limiter s.db (committed k body s) ∙ (committed-Quiet k body q).at s;
  }

-- What follows a call of the limiter, where the rest of the chain is quiet.
module _ {ℓ κ} {A : Type ℓ} {B : Type κ} where
  pub after_limiter :
      (f : Limiter → A × Limiter) (g : A → Exec B)
      → ((a : A) → Quiet (g a))
      → (s : State) → ((with_limiter f >>= g) s).1.limiter ≡ (f s.limiter).1
  unfolding ◌>>=◌ continue with_limiter
  after_limiter f g h s = (h _).at _

pub ruleset quiet_rules = (
  Quiet-pure, Quiet-raise, Quiet-query, Quiet-execute, Quiet-fresh_id, Quiet-clock,
  Quiet-current_time, Quiet-random_secret, Quiet-bind, Quiet-transaction,
)
