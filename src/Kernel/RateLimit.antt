-- ===== src/Kernel/RateLimit.antt =====
-- crates/kernel/src/ratelimit.rs: the failure windows of the login. An instant is a number of
-- milliseconds on the monotonic clock, and is an argument of each call.
pub mod Lockout
pub mod Pruning
use Prim.Native.Nat.{◌%◌, ◌^◌}
use latent_db.Prelude.{
  ℕ, ◌+◌, ◌-◌, ◌<◌, suc, String, Bool, true, false, Option, none, some, List, [], ◌∷◌, ◌==◌,
  if◌then◌else◌, ltb, leb, not, select,
}

abbrev pub max_failures : ℕ
max_failures = 10

-- `WINDOW_SECS`, in milliseconds
abbrev pub window : ℕ
window = 900000

pub record FailureWindow : Type 0 where
  pub window_start : ℕ
  pub failures : ℕ

-- The map of the limiter; a key stands in it at most once.
abbrev pub Limiter : Type 0
Limiter = List (String × FailureWindow)

unfoldable pub lookup : String → Limiter → Option FailureWindow
lookup key [] = none
lookup key ((j, w) ∷ m) = if j == key then some w else lookup key m

-- `HashMap::remove`
unfoldable pub remove : String → Limiter → Limiter
remove key m = select (λ e. not (e.0 == key)) m

unfoldable pub put : String → FailureWindow → Limiter → Limiter
unfolding remove
put key w m = (key, w) ∷ remove key m

-- `elapsed() >= WINDOW`
abbrev pub is_stale : ℕ → FailureWindow → Bool
is_stale now w = leb window (now - w.window_start)

abbrev pub locked_by : String → ℕ → Limiter → Option FailureWindow → Bool × Limiter
locked_by key now m none = (false, m)
locked_by key now m (some w) =
    if is_stale now w then (false, remove key m) else (leb max_failures w.failures, m)

-- The answer, and the map that is left.
unfoldable pub is_locked : String → ℕ → Limiter → Bool × Limiter
unfolding lookup
is_locked key now m = locked_by key now m (lookup key m)

abbrev pub fresh_window : ℕ → FailureWindow
fresh_window now = record { window_start = now; failures = 0 }

abbrev pub current_window : ℕ → Option FailureWindow → FailureWindow
current_window now none = fresh_window now
current_window now (some w) = if is_stale now w then fresh_window now else w

-- `failures += 1` on a u32
abbrev pub bump : ℕ → ℕ
bump n = (n + 1) % 2 ^ 32

unfoldable pub record_failure : String → ℕ → Limiter → ℕ × Limiter
unfolding lookup put
record_failure key now m =
    let w = current_window now (lookup key m) in
    (bump w.failures, put key (record w { failures = bump w.failures }) m)

unfoldable pub reset : String → Limiter → Limiter
unfolding remove
reset key m = remove key m

unfoldable pub prune : ℕ → Limiter → Limiter
prune now m = select (λ e. not (is_stale now e.1)) m
