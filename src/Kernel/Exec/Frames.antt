-- ===== src/Kernel/Exec/Frames.antt =====
-- What an action may do to the tables, one rule for each way to build an action.
use latent_db.Prelude.{Bool, true, false, Option, none, some, ◌≡◌, refl, if◌then◌else◌}
use latent_db.Contracts.Error.{ApiError, Result, ok, err, panic}
use latent_db.Kernel.Host.{Kernel, DbError}
use latent_db.Kernel.Store.{Db}
use latent_db.Kernel.Exec.{
  Exec, State, ◌>>=◌, continue, pure, raise, crash, lift, or_raise, ensure, ignore, fresh_id,
  current_time, clock, monotonic, random_secret, statement, outcome, settle, query, execute,
  transaction, committed, rollback,
}

-- A relation between the tables before and after, which composes.
pub record Guarantee : Type 1 where
  pub rel : Db → Db → Type 0
  pub rel_refl : (d : Db) → rel d d
  pub rel_trans : (a b c : Db) → rel a b → rel b c → rel a c

-- `m` keeps to the guarantee, whether it returns, raises or panics.
pub record Frames {ℓ} {A : Type ℓ} (G : Guarantee) (m : Exec A) : Type 0 where
  pub at : (s : State) → G.rel s.db (m s).1.db

module _ {ℓ} {A : Type ℓ} {G : Guarantee} where
  pub Frames-pure : (a : A) → Frames G (pure a)
  unfolding pure
  Frames-pure a = record { at = λ s. G.rel_refl s.db }

  pub Frames-raise : (e : ApiError) → Frames G (raise {A = A} e)
  unfolding raise
  Frames-raise e = record { at = λ s. G.rel_refl s.db }

  pub Frames-crash : Frames G (crash {A = A})
  unfolding crash
  Frames-crash = record { at = λ s. G.rel_refl s.db }

  pub Frames-lift : (r : Result A) → Frames G (lift r)
  Frames-lift (ok a) = Frames-pure a
  Frames-lift (err e) = Frames-raise e
  Frames-lift panic = Frames-crash

  pub Frames-or_raise : (o : Option A) (e : ApiError) → Frames G (or_raise o e)
  Frames-or_raise none e = Frames-raise e
  Frames-or_raise (some a) e = Frames-pure a

  pub Frames-if :
      (b : Bool) (m n : Exec A) → Frames G m → Frames G n → Frames G (if b then m else n)
  Frames-if true m n fm fn = fm
  Frames-if false m n fm fn = fn

-- A statement that the host refuses, or that reads, leaves the tables as they are.
query_outcome {ℓ} :
    {A : Type ℓ} (s : State) (o : Option DbError) (f : Db → A)
    → (outcome s o (λ db. ok (f db, db))).1.db ≡ s.db
unfolding outcome settle
query_outcome s none f = refl
query_outcome s (some e) f = refl

pub db-query {ℓ} : {A : Type ℓ} (k : Kernel) (f : Db → A) (s : State) → (query k f s).1.db ≡ s.db
unfolding query
db-query k f s = query_outcome s (k.db_outcome s.tick) f

module _ (G : Guarantee) where
  rel_of_eq : {a b : Db} → b ≡ a → G.rel a b
  rel_of_eq {a} {b} e = rw e (G.rel_refl a)

  settle_rel {ℓ} :
      {A : Type ℓ} (s : State) (r : Result (A × Db))
      → ((a : A) (db : Db) → r ≡ ok (a, db) → G.rel s.db db)
      → G.rel s.db (settle s r).1.db
  unfolding settle
  settle_rel s (ok (a, db)) keep = keep a db refl
  settle_rel s (err e) keep = G.rel_refl s.db
  settle_rel s panic keep = G.rel_refl s.db

  outcome_rel {ℓ} :
      {A : Type ℓ} (s : State) (o : Option DbError) (f : Db → Result (A × Db))
      → ((a : A) (db : Db) → f s.db ≡ ok (a, db) → G.rel s.db db)
      → G.rel s.db (outcome s o f).1.db
  unfolding outcome settle
  outcome_rel s none f keep = settle_rel s (f s.db) keep
  outcome_rel s (some e) f keep = G.rel_refl s.db

  written_rel :
      (s : State) (r : Result Db)
      → ((db : Db) → r ≡ ok db → G.rel s.db db)
      → G.rel s.db
          (settle {A = Unit {0}} s
            (elim r [ ok db ↦ ok (tt, db) | err e ↦ err e | panic ↦ panic ])).1.db
  unfolding settle
  written_rel s (ok db) keep = keep db refl
  written_rel s (err e) keep = G.rel_refl s.db
  written_rel s panic keep = G.rel_refl s.db

  execute_rel :
      (s : State) (o : Option DbError) (f : Db → Result Db)
      → ((db : Db) → f s.db ≡ ok db → G.rel s.db db)
      → G.rel s.db
          (outcome {A = Unit {0}} s o
            (λ d. elim (f d) [ ok db ↦ ok (tt, db) | err e ↦ err e | panic ↦ panic ])).1.db
  unfolding outcome settle
  execute_rel s none f keep = written_rel s (f s.db) keep
  execute_rel s (some e) f keep = G.rel_refl s.db

  rollback_rel {ℓ} :
      {A : Type ℓ} (d : Db) (p : Result A × State) → G.rel d p.1.db → G.rel d (rollback d p).1.db
  unfolding rollback
  rollback_rel d (ok a, s) h = h
  rollback_rel d (err e, s) h = G.rel_refl d
  rollback_rel d (panic, s) h = G.rel_refl d

  continue_rel {ℓ κ} :
      {A : Type ℓ} {B : Type κ} (d : Db) (p : Result A × State) (f : A → Exec B)
      → G.rel d p.1.db
      → ((a : A) → Frames G (f a))
      → G.rel d (continue p f).1.db
  unfolding continue
  continue_rel d (ok a, s) f h ff = G.rel_trans d s.db _ h ((ff a).at s)
  continue_rel d (err e, s) f h ff = h
  continue_rel d (panic, s) f h ff = h

module _ {ℓ} {A : Type ℓ} {G : Guarantee} where
  pub Frames-statement :
      (k : Kernel) (f : Db → Result (A × Db))
      → ((d : Db) (a : A) (db : Db) → f d ≡ ok (a, db) → G.rel d db)
      → Frames G (statement k f)
  unfolding statement
  Frames-statement k f keep = record {
    at = λ s. outcome_rel G s (k.db_outcome s.tick) f (keep s.db);
  }

  pub Frames-query : (k : Kernel) (f : Db → A) → Frames G (query k f)
  Frames-query k f = record { at = λ s. rel_of_eq G (db-query k f s) }

  pub Frames-ignore : (m : Exec A) → Frames G m → Frames G (ignore m)
  unfolding ignore
  Frames-ignore m fm = record { at = fm.at }

module _ {G : Guarantee} where
  pub Frames-execute :
      (k : Kernel) (f : Db → Result Db)
      → ((d db : Db) → f d ≡ ok db → G.rel d db)
      → Frames G (execute k f)
  unfolding execute statement
  Frames-execute k f keep = record { at = λ s. execute_rel G s (k.db_outcome s.tick) f (keep s.db) }

  pub Frames-fresh_id : (k : Kernel) → Frames G (fresh_id k)
  unfolding fresh_id
  Frames-fresh_id k = record { at = λ s. G.rel_refl s.db }

  pub Frames-current_time : (k : Kernel) → Frames G (current_time k)
  unfolding current_time
  Frames-current_time k = record { at = λ s. G.rel_refl s.db }

  pub Frames-clock : (k : Kernel) → Frames G (clock k)
  unfolding clock
  Frames-clock k = record { at = λ s. G.rel_refl s.db }

  pub Frames-monotonic : (k : Kernel) → Frames G (monotonic k)
  unfolding monotonic
  Frames-monotonic k = record { at = λ s. G.rel_refl s.db }

  pub Frames-random_secret : (k : Kernel) → Frames G (random_secret k)
  unfolding random_secret
  Frames-random_secret k = record { at = λ s. G.rel_refl s.db }

  pub Frames-ensure : (b : Bool) (e : ApiError) → Frames G (ensure b e)
  Frames-ensure true e = Frames-pure tt
  Frames-ensure false e = Frames-raise e

module _ {ℓ κ} {A : Type ℓ} {B : Type κ} {G : Guarantee} where
  pub Frames-bind :
      (m : Exec A) (f : A → Exec B) → Frames G m → ((a : A) → Frames G (f a)) → Frames G (m >>= f)
  unfolding ◌>>=◌
  Frames-bind m f fm ff = record { at = λ s. continue_rel G s.db (m s) f (fm.at s) ff }

module _ {ℓ} {A : Type ℓ} {G : Guarantee} where
  committed-Frames : (k : Kernel) (body : Exec A) → Frames G body → Frames G (committed k body)
  unfolding committed
  committed-Frames k body fb =
      Frames-bind _ _ (Frames-query k _)
        λ _. Frames-bind body _ fb λ a. Frames-bind _ _ (Frames-query k _) λ _. Frames-pure a

  pub Frames-transaction :
      (k : Kernel) (body : Exec A) → Frames G body → Frames G (transaction k body)
  unfolding transaction
  Frames-transaction k body fb = record {
    at = λ s. rollback_rel G s.db (committed k body s) ((committed-Frames k body fb).at s);
  }

pub ruleset frames_rules = (
  Frames-pure, Frames-raise, Frames-crash, Frames-lift, Frames-or_raise, Frames-ensure, Frames-if,
  Frames-query, Frames-ignore, Frames-fresh_id, Frames-current_time, Frames-clock, Frames-monotonic,
  Frames-random_secret, Frames-bind, Frames-transaction,
)
