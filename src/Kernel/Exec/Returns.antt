-- ===== src/Kernel/Exec/Returns.antt =====
-- How a chain of actions returns, and what its steps have been.
use latent_db.Prelude.{suc, Bool, true, false, Option, none, some, ◌≡◌, refl, sym, ap, ◌∙◌, arith}
use latent_db.Contracts.Error.{ApiError, Result, ok, err, panic}
use latent_db.Kernel.Host.{Kernel, DbError}
use latent_db.Kernel.Store.{Db}
use latent_db.Kernel.Exec.{
  Exec, State, query, execute, statement, outcome, settle, pure, raise, ◌>>=◌, continue, or_raise,
  ensure,
}
use latent_db.Kernel.Exec.Frames.{db-query}

pub ok_inj {ℓ} : {A : Type ℓ} {a b : A} → ok a ≡ ok b → a ≡ b
ok_inj e = cc

-- Where a chain returns, its first action returned, and the rest ran from the state it left.
module _ {ℓ κ} {A : Type ℓ} {B : Type κ} where
  continue-ok :
      (p : Result A × State) (f : A → Exec B) (b : B)
      → (continue p f).0 ≡ ok b
      → (a : A) × (p.0 ≡ ok a) × ((f a p.1).0 ≡ ok b)
  unfolding continue
  continue-ok (ok a, s) f b e = (a, refl, e)
  continue-ok (err x, s) f b e = absurd (grind arith)
  continue-ok (panic, s) f b e = absurd (grind arith)

  pub bind-ok :
      (m : Exec A) (f : A → Exec B) (s : State) (b : B)
      → ((m >>= f) s).0 ≡ ok b
      → (a : A) × ((m s).0 ≡ ok a) × ((f a (m s).1).0 ≡ ok b)
  unfolding ◌>>=◌
  bind-ok m f s b e = continue-ok (m s) f b e

  continue_run :
      (p : Result A × State) (f : A → Exec B) (a : A) → p.0 ≡ ok a → continue p f ≡ f a p.1
  unfolding continue
  continue_run (ok x, s) f a e = ap (λ y. f y s) (ok_inj e)
  continue_run (err x, s) f a e = absurd (grind arith)
  continue_run (panic, s) f a e = absurd (grind arith)

  -- The rest of a chain is the rest of its run.
  pub bind_run :
      (m : Exec A) (f : A → Exec B) (s : State) (a : A) → (m s).0 ≡ ok a → (m >>= f) s ≡ f a (m s).1
  unfolding ◌>>=◌
  bind_run m f s a e = continue_run (m s) f a e

  -- Both at once: a chain that returned has got past its first action.
  pub bind-step :
      (m : Exec A) (f : A → Exec B) (s : State) (b : B)
      → ((m >>= f) s).0 ≡ ok b
      → (a : A) × (s' : State) × ((m s).0 ≡ ok a)
        × ((m s).1 ≡ s')
        × ((m >>= f) s ≡ f a s')
        × ((f a s').0 ≡ ok b)
  bind-step m f s b e =
      let (a, h, r) = bind-ok m f s b e in (a, (m s).1, h, refl, bind_run m f s a h, r)

-- A statement takes one number of the schedule, however it ends.
module _ {ℓ} {A : Type ℓ} where
  query_outcome-tick :
      (s : State) (o : Option DbError) (f : Db → A)
      → (outcome s o (λ db. ok (f db, db))).1.tick ≡ suc s.tick
  unfolding outcome settle
  query_outcome-tick s none f = refl
  query_outcome-tick s (some x) f = refl

  pub query-tick : (k : Kernel) (f : Db → A) (s : State) → (query k f s).1.tick ≡ suc s.tick
  unfolding query statement
  query-tick k f s = query_outcome-tick s (k.db_outcome s.tick) f

module _ {ℓ} {A : Type ℓ} where
  outcome-ok :
      (s : State) (o : Option DbError) (f : Db → A) (a : A)
      → (outcome s o (λ db. ok (f db, db))).0 ≡ ok a
      → f s.db ≡ a
  unfolding outcome settle
  outcome-ok s none f a e = (cc)
  outcome-ok s (some x) f a e = absurd (grind arith)

  pub query-ok : (k : Kernel) (f : Db → A) (s : State) (a : A) → (query k f s).0 ≡ ok a → f s.db ≡ a
  unfolding query statement
  query-ok k f s a e = outcome-ok s (k.db_outcome s.tick) f a e

  pub or_raise-ok :
      (o : Option A) (e : ApiError) (s : State) (a : A) → (or_raise o e s).0 ≡ ok a → o ≡ some a
  unfolding raise pure
  or_raise-ok none e s a h = absurd (grind arith)
  or_raise-ok (some b) e s a h = let q : b ≡ a = (cc) in ap some q

  pub or_raise-db : (o : Option A) (e : ApiError) (s : State) → (or_raise o e s).1 ≡ s
  unfolding raise pure
  or_raise-db none e s = refl
  or_raise-db (some b) e s = refl

module _ {ℓ} {A : Type ℓ} where
  -- A query for a row that must be there.
  pub required-ok :
      (k : Kernel) (f : Db → Option A) (x : ApiError) (s : State) (a : A)
      → ((query k f >>= λ found. or_raise found x) s).0 ≡ ok a
      → f s.db ≡ some a
  required-ok k f x s a e =
      let (found, h, h') = bind-ok (query k f) (λ found. or_raise found x) s a e in
      query-ok k f s found h ∙ or_raise-ok found x (query k f s).1 a h'

  required_db :
      (p : Result (Option A) × State) (x : ApiError)
      → (continue p (λ found. or_raise found x)).1.db ≡ p.1.db
  unfolding continue
  required_db (ok o, s) x = ap (λ t. t.db) (or_raise-db o x s)
  required_db (err e, s) x = refl
  required_db (panic, s) x = refl

  pub required-db :
      (k : Kernel) (f : Db → Option A) (x : ApiError) (s : State)
      → ((query k f >>= λ found. or_raise found x) s).1.db ≡ s.db
  unfolding ◌>>=◌
  required-db k f x s = required_db (query k f s) x ∙ db-query k f s

written-ok :
    (s : State) (o : Option DbError) (f : Db → Result Db) (u : Unit {0})
    → (outcome s o (λ db. elim (f db) [ ok db' ↦ ok (tt, db') | err e ↦ err e | panic ↦ panic ])).0
      ≡ ok u
    → f s.db
      ≡ ok
          (outcome {A = Unit {0}} s o
            (λ db. elim (f db) [ ok db' ↦ ok (tt, db') | err e ↦ err e | panic ↦ panic ])).1.db
unfolding outcome settle
written-ok s none f u e = settled (f s.db) e
  where
    settled :
        (r : Result Db)
        → (settle {A = Unit {0}} s
            (elim r [ ok db' ↦ ok (tt, db') | err e ↦ err e | panic ↦ panic ])).0
          ≡ ok u
        → r
          ≡ ok
              (settle {A = Unit {0}} s
                (elim r [ ok db' ↦ ok (tt, db') | err e ↦ err e | panic ↦ panic ])).1.db
    settled (ok db) e = refl
    settled (err x) e = absurd (grind arith)
    settled panic e = absurd (grind arith)
written-ok s (some x) f u e = absurd (grind arith)

-- A statement that returned has written what it computes.
pub execute-ok :
    (k : Kernel) (f : Db → Result Db) (s : State) (u : Unit {0})
    → (execute k f s).0 ≡ ok u
    → f s.db ≡ ok (execute k f s).1.db
unfolding execute statement
execute-ok k f s u e = written-ok s (k.db_outcome s.tick) f u e

-- A statement that always succeeds leaves what it computes.
pub update-ok :
    (k : Kernel) (g : Db → Db) (s : State) (u : Unit {0})
    → (execute k (λ db. ok (g db)) s).0 ≡ ok u
    → (execute k (λ db. ok (g db)) s).1.db ≡ g s.db
update-ok k g s u e = sym (ok_inj (execute-ok k (λ db. ok (g db)) s u e))

pub ensure-ok :
    (b : Bool) (e : ApiError) (s : State) (u : Unit {0}) → (ensure b e s).0 ≡ ok u → b ≡ true
unfolding raise
ensure-ok true e s u h = refl
ensure-ok false e s u h = absurd (grind arith)

pub ensure_same : (b : Bool) (e : ApiError) (s : State) → (ensure b e s).1 ≡ s
unfolding raise pure
ensure_same true e s = refl
ensure_same false e s = refl
