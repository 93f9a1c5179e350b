-- ===== src/Kernel/Auth/Forgets.antt =====
-- crates/kernel/src/auth.rs: what a login that goes through leaves in the limiter
use latent_db.Prelude.{◌≡◌}
use latent_db.Contracts.Error.{Result}
use latent_db.Kernel.Host.{Kernel}
use latent_db.Kernel.RateLimit.{reset}
use latent_db.Kernel.Exec.{Exec, State}
use latent_db.Kernel.Auth.Login.{Attempt, LoginResult, limiter_key}
use latent_db.Kernel.Auth.Quiet.{Quiet}

module _ (k : Kernel) (a : Attempt) where
  -- The limiter after a login that returned.
  abbrev Forgets : State → Result LoginResult × State → Type 0
  Forgets s p = p.1.limiter ≡ reset (limiter_key a) s.limiter
