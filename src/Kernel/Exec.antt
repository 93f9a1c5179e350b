-- ===== src/Kernel/Exec.antt =====
-- The async methods of the kernel as actions on the store: a result, and the store left behind.
-- Each statement, id and timestamp takes one number of the host's schedule.
pub mod Frames
pub mod Returns
pub mod Steps
pub mod Runs
pub mod Commits
use latent_db.Prelude.{ℕ, suc, String, Bool, true, false, Option, none, some, ◌⊎◌}
use latent_db.Contracts.Error.{ApiError, Result, ok, err, panic}
use latent_db.Kernel.Host.{Kernel, DbError, map_db_err}
use latent_db.Kernel.Store.{Db}
use latent_db.Kernel.RateLimit.{Limiter}

-- The limiter of the logins is in memory: no transaction takes its changes back.
pub record State : Type 0 where
  pub db : Db
  pub limiter : Limiter
  pub tick : ℕ

abbrev pub Exec {ℓ} : Type ℓ → Type ℓ
Exec A = State → Result A × State

unfoldable pub continue {ℓ κ} :
    {A : Type ℓ} {B : Type κ} → Result A × State → (A → Exec B) → Result B × State
continue (ok a, s) f = f a s
continue (err e, s) f = (err e, s)
continue (panic, s) f = (panic, s)

-- The operator `?` after `.await`
infixl 5 ◌>>=◌ ◌>>◌
unfoldable pub ◌>>=◌ {ℓ κ} : {A : Type ℓ} {B : Type κ} → Exec A → (A → Exec B) → Exec B
unfolding continue
◌>>=◌ m f s = continue (m s) f

abbrev pub ◌>>◌ {ℓ} : {B : Type ℓ} → Exec (Unit {0}) → Exec B → Exec B
m >> n = m >>= λ _. n

unfoldable pub pure {ℓ} : {A : Type ℓ} → A → Exec A
pure a s = (ok a, s)

unfoldable pub raise {ℓ} : {A : Type ℓ} → ApiError → Exec A
raise e s = (err e, s)

-- A panic of the code itself.
unfoldable pub crash {ℓ} : {A : Type ℓ} → Exec A
crash s = (panic, s)

-- A result that is at hand, returned or raised.
abbrev pub lift {ℓ} : {A : Type ℓ} → Result A → Exec A
lift (ok a) = pure a
lift (err e) = raise e
lift panic = crash

-- `ok_or_else`
abbrev pub or_raise {ℓ} : {A : Type ℓ} → Option A → ApiError → Exec A
or_raise none e = raise e
or_raise (some a) e = pure a

-- `if !test { return Err(e) }`
abbrev pub ensure : Bool → ApiError → Exec (Unit {0})
ensure true e = pure tt
ensure false e = raise e

-- `let _ = …`: the result is dropped
unfoldable pub ignore {ℓ} : {A : Type ℓ} → Exec A → Exec (Unit {0})
ignore m s = (ok tt, (m s).1)

-- `unwrap_or`, on the result of a call
unfoldable pub rescue {ℓ} : {A : Type ℓ} → A → Result A × State → Result A × State
rescue d (ok a, s) = (ok a, s)
rescue d (err e, s) = (ok d, s)
rescue d (panic, s) = (panic, s)

unfoldable pub recover {ℓ} : {A : Type ℓ} → Exec A → A → Exec A
unfolding rescue
recover m d s = rescue d (m s)

-- A call of the login limiter.
unfoldable pub with_limiter {ℓ} : {A : Type ℓ} → (Limiter → A × Limiter) → Exec A
with_limiter f s = (ok (f s.limiter).0, record s { limiter = (f s.limiter).1 })

unfoldable pub fresh_id : Kernel → Exec String
fresh_id k s = (ok (k.new_id s.tick), record s { tick = suc s.tick })

unfoldable pub current_time : Kernel → Exec String
current_time k s = (ok (k.now_rfc3339 s.tick), record s { tick = suc s.tick })

-- `ids::now`, and `Instant::now`
unfoldable pub clock : Kernel → Exec ℕ
clock k s = (ok (k.now s.tick), record s { tick = suc s.tick })

unfoldable pub monotonic : Kernel → Exec ℕ
monotonic k s = (ok (k.instant s.tick), record s { tick = suc s.tick })

-- 32 bytes of the random source, in hexadecimal
unfoldable pub random_secret : Kernel → Exec String
random_secret k s = (ok (k.random_hex s.tick), record s { tick = suc s.tick })

unfoldable pub drawn_salt : Kernel → Exec (String ⊎ String)
drawn_salt k s = (ok (k.salt s.tick), record s { tick = suc s.tick })

-- What a statement leaves: a refused one leaves the tables as they were.
unfoldable pub settle {ℓ} : {A : Type ℓ} → State → Result (A × Db) → Result A × State
settle s (ok (a, db)) = (ok a, record s { db = db; tick = suc s.tick })
settle s (err e) = (err e, record s { tick = suc s.tick })
settle s panic = (panic, record s { tick = suc s.tick })

unfoldable pub outcome {ℓ} :
    {A : Type ℓ} → State → Option DbError → (Db → Result (A × Db)) → Result A × State
unfolding settle
outcome s none f = settle s (f s.db)
outcome s (some e) f = settle s (err (map_db_err e))

-- One SQL statement.
unfoldable pub statement {ℓ} : {A : Type ℓ} → Kernel → (Db → Result (A × Db)) → Exec A
unfolding outcome
statement k f s = outcome s (k.db_outcome s.tick) f

-- A `SELECT`.
unfoldable pub query {ℓ} : {A : Type ℓ} → Kernel → (Db → A) → Exec A
unfolding statement
query k f = statement k (λ db. ok (f db, db))

-- An `INSERT`, `UPDATE` or `DELETE`.
unfoldable pub execute : Kernel → (Db → Result Db) → Exec (Unit {0})
unfolding statement
execute k f =
    statement k (λ db. elim (f db) [ ok db' ↦ ok (tt, db') | err e ↦ err e | panic ↦ panic ])

-- A transaction that is dropped without `commit` leaves the tables as it found them.
unfoldable pub rollback {ℓ} : {A : Type ℓ} → Db → Result A × State → Result A × State
rollback db (ok a, s) = (ok a, s)
rollback db (err e, s) = (err e, record s { db = db })
rollback db (panic, s) = (panic, record s { db = db })

-- `begin`, the body, `commit`
unfoldable pub committed {ℓ} : {A : Type ℓ} → Kernel → Exec A → Exec A
unfolding query pure ◌>>=◌
committed k body = do query k (λ db. tt); a ← body; query k (λ db. tt); pure a

unfoldable pub transaction {ℓ} : {A : Type ℓ} → Kernel → Exec A → Exec A
unfolding rollback committed
transaction k body s = rollback s.db (committed k body s)
