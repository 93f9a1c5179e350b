-- ===== src/Kernel/Exec/Commits.antt =====
-- What a transaction that returned has done.
use latent_db.Prelude.{◌≡◌, refl, sym, ap, ◌∙◌, arith}
use latent_db.Contracts.Error.{Result, ok, err, panic}
use latent_db.Kernel.Host.{Kernel}
use latent_db.Kernel.Store.{Db}
use latent_db.Kernel.Exec.{Exec, State, query, transaction, committed, rollback, pure, ◌>>=◌}
use latent_db.Kernel.Exec.Frames.{db-query}
use latent_db.Kernel.Exec.Returns.{bind-step}

module _ {ℓ} {A : Type ℓ} where
  rollback-ok :
      (db : Db) (p : Result A × State) (a : A)
      → (rollback db p).0 ≡ ok a
      → (rollback db p ≡ p) × (p.0 ≡ ok a)
  unfolding rollback
  rollback-ok db (ok x, s) a e = (refl, e)
  rollback-ok db (err x, s) a e = absurd (grind arith)
  rollback-ok db (panic, s) a e = absurd (grind arith)

  committed-ok :
      (k : Kernel) (body : Exec A) (s : State) (a : A)
      → (committed k body s).0 ≡ ok a
      → (s0 : State) × (s0.db ≡ s.db)
        × ((body s0).0 ≡ ok a)
        × ((committed k body s).1.db ≡ (body s0).1.db)
  unfolding committed pure
  committed-ok k body s a e =
      let end = λ (x : A). query k (λ db. tt) >>= λ _. pure x in
      let (u, s0, h1, t1, r1, e1) = bind-step (query k (λ db. tt)) (λ _. body >>= end) s a e in
      let (b, s1, h2, t2, r2, e2) = bind-step body end s0 a e1 in
      let (v, s2, h3, t3, r3, e3) = bind-step (query k (λ db. tt)) (λ _. pure b) s1 a e2 in
      let at_end =
        ap (λ p. p.1.db) (r1 ∙ r2 ∙ r3) ∙ ap (λ x. x.db) (sym t3) ∙ db-query k (λ db. tt) s1 in
      (
        s0,
        ap (λ x. x.db) (sym t1) ∙ db-query k (λ db. tt) s,
        h2 ∙ e3,
        at_end ∙ ap (λ x. x.db) (sym t2),
      )

  pub transaction-ok :
      (k : Kernel) (body : Exec A) (s : State) (a : A)
      → (transaction k body s).0 ≡ ok a
      → (s0 : State) × (s0.db ≡ s.db)
        × ((body s0).0 ≡ ok a)
        × ((transaction k body s).1.db ≡ (body s0).1.db)
  unfolding transaction
  transaction-ok k body s a e =
      let (r, h) = rollback-ok s.db (committed k body s) a e in
      let (s0, d0, h0, r0) = committed-ok k body s a h in (s0, d0, h0, ap (λ p. p.1.db) r ∙ r0)
