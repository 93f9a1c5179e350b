-- ===== src/Kernel/Audited/Rules.antt =====
-- What holds of an action whenever it returns, and of a transaction around it.
use latent_db.Prelude.{
  String, List, ◌∷◌, [], ◌++◌, length, ◌≤◌, ◌<◌, ◌≡◌, refl, inr, arith, Option, none, some,
}
use latent_db.Contracts.Error.{Result, ok, err, panic}
use latent_db.Contracts.Audit.{AuditEvent}
use latent_db.Kernel.Host.{Kernel, DbError}
use latent_db.Kernel.Store.{Db}
use latent_db.Kernel.Exec.{
  Exec, State, ◌>>=◌, continue, query, committed, transaction, rollback, settle, outcome, statement,
  execute,
}
use latent_db.Kernel.Exec.Frames.{Guarantee, Frames, frames_rules}
use latent_db.Kernel.Histories.AuditLog.{Writes-log}
use latent_db.Kernel.Writes.{in_tenant}
use latent_db.Kernel.Audited.{audited, events_logged, logged_refl}

-- Wherever `m` returns, the tables before and after are related.
pub record Settles {ℓ} {A : Type ℓ} (R : Db → Db → Type 0) (m : Exec A) : Type ℓ where
  pub at : (s : State) (a : A) → (m s).0 ≡ ok a → R s.db (m s).1.db

module _ {ℓ κ} {A : Type ℓ} {B : Type κ} (Q : Db → Type 0) where
  continue_settles :
      (p : Result A × State) (f : A → Exec B) (b : B)
      → ((a : A) → p.0 ≡ ok a → (f a p.1).0 ≡ ok b → Q (f a p.1).1.db)
      → (continue p f).0 ≡ ok b
      → Q (continue p f).1.db
  unfolding continue
  continue_settles (ok a, s) f b h e = h a refl e
  continue_settles (err x, s) f b h e = grind arith
  continue_settles (panic, s) f b h e = grind arith

module _ {ℓ κ} {A : Type ℓ} {B : Type κ} (G : Guarantee) where
  pub Settles-bind :
      (m : Exec A) (f : A → Exec B)
      → Settles G.rel m
      → ((a : A) → Settles G.rel (f a))
      → Settles G.rel (m >>= f)
  unfolding ◌>>=◌
  Settles-bind m f sm sf = record {
    at = λ s b.
        continue_settles (G.rel s.db) (m s) f b
          λ a e e'. G.rel_trans _ _ _ (sm.at s a e) ((sf a).at (m s).1 b e');
  }

pub Settles-Frames {ℓ} : {A : Type ℓ} (G : Guarantee) (m : Exec A) → Frames G m → Settles G.rel m
Settles-Frames G m fm = record { at = λ s a e. fm.at s }

module _ {ℓ} {A : Type ℓ} (G : Guarantee) where
  committed-Settles :
      (k : Kernel) (body : Exec A) → Settles G.rel body → Settles G.rel (committed k body)
  unfolding committed
  committed-Settles k body sb =
      Settles-bind G (query k (λ db. tt)) _ (Settles-Frames G _ (search frames_rules))
        λ _. Settles-bind G body _ sb λ a. Settles-Frames G _ (search frames_rules)

  rollback_settles :
      (d : Db) (p : Result A × State)
      → ((a : A) → p.0 ≡ ok a → G.rel d p.1.db)
      → G.rel d (rollback d p).1.db
  unfolding rollback
  rollback_settles d (ok a, s) h = h a refl
  rollback_settles d (err e, s) h = G.rel_refl d
  rollback_settles d (panic, s) h = G.rel_refl d

  -- A transaction keeps to what its body keeps to where it returns.
  pub Frames-transaction-Settles :
      (k : Kernel) (body : Exec A) → Settles G.rel body → Frames G (transaction k body)
  unfolding transaction
  Frames-transaction-Settles k body sb = record {
    at = λ s. rollback_settles s.db (committed k body s) ((committed-Settles k body sb).at s);
  }

-- A statement, where it is not refused.
written_settles :
    (s : State) (r : Result Db) (Q : Db → Type 0) (a : Unit {0})
    → ((db : Db) → r ≡ ok db → Q db)
    → (settle {A = Unit {0}} s (elim r [ ok db ↦ ok (tt, db) | err e ↦ err e | panic ↦ panic ])).0
      ≡ ok a
    → Q
        (settle {A = Unit {0}} s
          (elim r [ ok db ↦ ok (tt, db) | err e ↦ err e | panic ↦ panic ])).1.db
unfolding settle
written_settles s (ok db) Q a h e = h db refl
written_settles s (err x) Q a h e = grind arith
written_settles s panic Q a h e = grind arith

outcome_settles :
    (s : State) (o : Option DbError) (f : Db → Result Db) (Q : Db → Type 0) (a : Unit {0})
    → ((db : Db) → f s.db ≡ ok db → Q db)
    → (outcome {A = Unit {0}} s o
        (λ d. elim (f d) [ ok db ↦ ok (tt, db) | err e ↦ err e | panic ↦ panic ])).0
      ≡ ok a
    → Q
        (outcome {A = Unit {0}} s o
          (λ d. elim (f d) [ ok db ↦ ok (tt, db) | err e ↦ err e | panic ↦ panic ])).1.db
unfolding outcome settle
outcome_settles s none f Q a h e = written_settles s (f s.db) Q a h e
outcome_settles s (some x) f Q a h e = grind arith

pub Settles-execute :
    (R : Db → Db → Type 0) (k : Kernel) (f : Db → Result Db)
    → ((d d' : Db) → f d ≡ ok d' → R d d')
    → Settles R (execute k f)
unfolding execute statement
Settles-execute R k f h = record {
  at = λ s a e. outcome_settles s (k.db_outcome s.tick) f (R s.db) a (h s.db) e;
}

-- The audit log grows, by any number of events or by at least one.
abbrev pub Grows : Db → Db → Type 0
Grows a b = events_logged a ≤ events_logged b

abbrev pub Logs : Db → Db → Type 0
Logs a b = events_logged a < events_logged b

pub Grows-trans : (a b c : Db) → Grows a b → Grows b c → Grows a c
Grows-trans a b c l m = omega arith

unfoldable pub growing : Guarantee
growing = record { rel = Grows; rel_refl = λ d. logged_refl _; rel_trans = Grows-trans }

length_append : (xs ys : List AuditEvent) → length xs ≤ length (xs ++ ys)
length_append [] ys = omega arith
length_append (x ∷ xs) ys = let ih = length_append xs ys in omega arith

module _ {ℓ} {A : Type ℓ} where
  -- Whatever writes within a tenant lets the log grow.
  pub Frames-growing : (t : String) (m : Exec A) → Frames (in_tenant t) m → Frames growing m
  unfolding growing in_tenant
  Frames-growing t m fm = record {
    at = λ s.
        let (l, e, h) = Writes-log t s.db _ (fm.at s) in
        let g = length_append s.db.audit_logs l in rw e g;
  }

module _ {ℓ κ} {A : Type ℓ} {B : Type κ} where
  pub Logs-left :
      (m : Exec A) (f : A → Exec B)
      → Settles Logs m
      → ((a : A) → Frames growing (f a))
      → Settles Logs (m >>= f)
  unfolding ◌>>=◌ growing
  Logs-left m f sm ff = record {
    at = λ s b.
        continue_settles (Logs s.db) (m s) f b
          λ a e e'. let g = sm.at s a e in let h = (ff a).at (m s).1 in omega arith;
  }

  pub Logs-right :
      (m : Exec A) (f : A → Exec B)
      → Frames growing m
      → ((a : A) → Settles Logs (f a))
      → Settles Logs (m >>= f)
  unfolding ◌>>=◌ growing
  Logs-right m f fm sf = record {
    at = λ s b.
        continue_settles (Logs s.db) (m s) f b
          λ a e e'. let g = fm.at s in let h = (sf a).at (m s).1 b e' in omega arith;
  }

module _ {ℓ} {A : Type ℓ} where
  -- A transaction that logs whenever it commits accounts for all that it changes.
  pub Frames-logged :
      (k : Kernel) (body : Exec A) → Settles Logs body → Frames audited (transaction k body)
  unfolding audited
  Frames-logged k body sb =
      Frames-transaction-Settles audited k body
        (record { at = λ s a e. let l = sb.at s a e in (omega arith, inr l) })
