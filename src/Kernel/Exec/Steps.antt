-- ===== src/Kernel/Exec/Steps.antt =====
-- One step at a time through a chain that returned: what the step gave, and the rest of the chain,
-- from a state with the same tables where the step only reads.
use latent_db.Prelude.{Bool, true, Option, some, ℕ, String, ◌≡◌, refl, ap, ◌∙◌}
use latent_db.Contracts.Error.{ApiError, ok}
use latent_db.Kernel.Host.{Kernel}
use latent_db.Kernel.Store.{Db}
use latent_db.Kernel.Exec.{Exec, State, query, ◌>>=◌, ◌>>◌, or_raise, ensure, clock, current_time}
use latent_db.Kernel.Exec.Frames.{Guarantee, Frames, db-query}
use latent_db.Kernel.Exec.Returns.{
  bind-ok, query-ok, or_raise-ok, or_raise-db, ensure-ok, ensure_same,
}

-- Actions that leave every table as it is.
unfoldable pub unchanged : Guarantee
unchanged = record { rel = λ a b. b ≡ a; rel_refl = λ d. refl; rel_trans = λ a b c p q. q ∙ p }

pub db-reads {ℓ} : {A : Type ℓ} (m : Exec A) → Frames unchanged m → (s : State) → (m s).1.db ≡ s.db
unfolding unchanged
db-reads m f s = f.at s

module _ {B : Type 0} where
  -- What is left of the chain, after a step that left the tables `d` alone.
  abbrev pub Rest : Db → Exec B → B → Type 0
  Rest d m b = (s : State) × (s.db ≡ d) × ((m s).0 ≡ ok b)

  pub query-step {ℓ} :
      {A : Type ℓ} (k : Kernel) (f : Db → A) (g : A → Exec B) (s : State) (b : B)
      → ((query k f >>= g) s).0 ≡ ok b
      → Rest s.db (g (f s.db)) b
  query-step k f g s b e =
      let (a, h, r) = bind-ok (query k f) g s b e in
      let q = query-ok k f s a h in
      ((query k f s).1, db-query k f s, ap (λ x. (g x (query k f s).1).0) q ∙ r)

  pub or_raise-step :
      {A : Type 0} (o : Option A) (x : ApiError) (g : A → Exec B) (s : State) (b : B)
      → ((or_raise o x >>= g) s).0 ≡ ok b
      → (a : A) × (o ≡ some a) × Rest s.db (g a) b
  or_raise-step o x g s b e =
      let (a, h, r) = bind-ok (or_raise o x) g s b e in
      (a, or_raise-ok o x s a h, ((or_raise o x s).1, ap (λ t. t.db) (or_raise-db o x s), r))

  pub fetch-step :
      {A : Type 0} (k : Kernel) (f : Db → Option A) (x : ApiError) (g : A → Exec B) (s : State)
      (b : B)
      → ((query k f >>= λ found. (or_raise found x >>= g)) s).0 ≡ ok b
      → (a : A) × (f s.db ≡ some a) × Rest s.db (g a) b
  fetch-step k f x g s b e =
      let (s1, d1, r1) = query-step k f (λ found. (or_raise found x >>= g)) s b e in
      let (a, h, (s2, d2, r2)) = or_raise-step (f s.db) x g s1 b r1 in (a, h, (s2, d2 ∙ d1, r2))

  pub ensure-step :
      (c : Bool) (x : ApiError) (m : Exec B) (s : State) (b : B)
      → ((ensure c x >> m) s).0 ≡ ok b
      → (c ≡ true) × Rest s.db m b
  ensure-step c x m s b e =
      let (u, h, r) = bind-ok (ensure c x) (λ _. m) s b e in
      (ensure-ok c x s u h, ((ensure c x s).1, ap (λ t. t.db) (ensure_same c x s), r))

  -- A check that only reads, as a part of a chain.
  pub check-step :
      (m : Exec (Unit {0})) (n : Exec B) (s : State) (b : B)
      → (m s).1.db ≡ s.db
      → ((m >> n) s).0 ≡ ok b
      → (u : Unit {0}) × ((m s).0 ≡ ok u) × Rest s.db n b
  check-step m n s b keep e = let (u, h, r) = bind-ok m (λ _. n) s b e in (u, h, ((m s).1, keep, r))

  pub clock-step :
      (k : Kernel) (g : ℕ → Exec B) (s : State) (b : B)
      → ((clock k >>= g) s).0 ≡ ok b
      → (now : ℕ) × Rest s.db (g now) b
  unfolding clock
  clock-step k g s b e =
      let (now, h, r) = bind-ok (clock k) g s b e in (now, ((clock k s).1, refl, r))

  pub time-step :
      (k : Kernel) (g : String → Exec B) (s : State) (b : B)
      → ((current_time k >>= g) s).0 ≡ ok b
      → (now : String) × Rest s.db (g now) b
  unfolding current_time
  time-step k g s b e =
      let (now, h, r) = bind-ok (current_time k) g s b e in (now, ((current_time k s).1, refl, r))
