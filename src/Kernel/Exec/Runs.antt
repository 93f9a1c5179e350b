-- ===== src/Kernel/Exec/Runs.antt =====
-- How single actions run where the database takes every statement.
use latent_db.Prelude.{suc, none, ◌≡◌, refl, ap, ◌∙◌}
use latent_db.Contracts.Error.{Result, ok}
use latent_db.Kernel.Host.{Kernel}
use latent_db.Kernel.Store.{Db}
use latent_db.Kernel.Exec.{
  Exec, State, query, execute, statement, outcome, settle, transaction, committed, rollback, pure,
  ◌>>=◌, continue,
}

abbrev pub ticked : State → State
ticked s = record s { tick = suc s.tick }

-- A read that the database does not refuse.
pub query-runs {ℓ} :
    {A : Type ℓ} (k : Kernel) (f : Db → A) (s : State)
    → k.db_outcome s.tick ≡ none
    → query k f s ≡ (ok (f s.db), ticked s)
unfolding query statement outcome settle
query-runs k f s e = rw e refl

pub execute-runs :
    (k : Kernel) (f : Db → Result Db) (s : State) (d : Db)
    → k.db_outcome s.tick ≡ none
    → f s.db ≡ ok d
    → execute k f s ≡ (ok tt, record s { db = d; tick = suc s.tick })
unfolding execute statement outcome settle
execute-runs k f s d e h = rw (e, h) refl

-- A chain whose first action is known to run.
pub then-runs {ℓ κ} :
    {A : Type ℓ} {B : Type κ} (m : Exec A) (f : A → Exec B) (s : State) (a : A) (s' : State)
    → m s ≡ (ok a, s')
    → (m >>= f) s ≡ f a s'
unfolding ◌>>=◌ continue
then-runs m f s a s' e = rw e refl

module _ {ℓ} {A : Type ℓ} (k : Kernel) (body : Exec A) (s s' : State) (a : A)
    (begins : k.db_outcome s.tick ≡ none) (commits : k.db_outcome s'.tick ≡ none)
    (runs : body (ticked s) ≡ (ok a, s')) where
  committed_runs : committed k body s ≡ (ok a, ticked s')
  unfolding committed pure
  committed_runs =
      then-runs (query k (λ db. tt)) _ s tt (ticked s) (query-runs k (λ db. tt) s begins)
      ∙ then-runs body _ (ticked s) a s' runs
      ∙ then-runs (query k (λ db. tt)) _ s' tt (ticked s') (query-runs k (λ db. tt) s' commits)

  -- A transaction whose body runs is committed.
  pub transaction-runs : transaction k body s ≡ (ok a, ticked s')
  unfolding transaction rollback
  transaction-runs = ap (rollback s.db) committed_runs
