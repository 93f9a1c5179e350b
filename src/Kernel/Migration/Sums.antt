-- ===== src/Kernel/Migration/Sums.antt =====
-- Sums over the rows of two tables that share keys: what the migration plan of
-- crates/kernel/src/migration.rs adds up.
use latent_db.Prelude.{
  ℕ, ◌+◌, String, Bool, true, false, not, ◌||◌, List, [], ◌∷◌, any, ◌≡◌, refl, sym, ap, ◌∙◌, ◌==◌,
  eq_iff, arith, if◌then◌else◌, Bool-cases, inl, inr,
}

module _ {A : Type 0} (key : A → String) where
  -- No two rows have the same key.
  abbrev pub Distinct : List A → Type 0
  Distinct [] = Unit
  Distinct (r ∷ rows) = (any (λ x. key x == key r) rows ≡ false) × Distinct rows

pub eq_comm : (s t : String) → (s == t) ≡ (t == s)
eq_comm s t = elim (Bool-cases (s == t)) [
  | inl e ↦
      let h = eq_iff t s in let q : s ≡ t = (eq_iff s t).0 e in let r = h.1 (sym q) in grind arith
  | inr e ↦ elim (Bool-cases (t == s)) [
    | inl h ↦ let r = (eq_iff s t).1 (sym ((eq_iff t s).0 h)) in grind arith
    | inr h ↦ grind arith
  ]
]

module _ {A : Type 0} (key : A → String) (f : String → ℕ) where
  unfoldable pub sum_where : (A → Bool) → List A → ℕ
  sum_where p [] = 0
  sum_where p (x ∷ xs) = (if p x then f (key x) else 0) + sum_where p xs

  pub sum_where-ext :
      (p q : A → Bool) (xs : List A) → ((x : A) → p x ≡ q x) → sum_where p xs ≡ sum_where q xs
  unfolding sum_where
  sum_where-ext p q [] h = refl
  sum_where-ext p q (x ∷ xs) h = let e = h x in let ih = sum_where-ext p q xs h in grind arith

  pub sum_where-not :
      (p : A → Bool) (xs : List A)
      → sum_where p xs + sum_where (λ x. not (p x)) xs ≡ sum_where (λ x. true) xs
  unfolding sum_where
  sum_where-not p [] = refl
  sum_where-not p (x ∷ xs) = let ih = sum_where-not p xs in ground (arith, ih)

  sum_where-or :
      (p q : A → Bool) (xs : List A)
      → ((x : A) → p x ≡ true → q x ≡ false)
      → sum_where (λ x. p x || q x) xs ≡ sum_where p xs + sum_where q xs
  unfolding sum_where
  sum_where-or p q [] h = refl
  sum_where-or p q (x ∷ xs) h =
      let ih = sum_where-or p q xs h in
      let d = h x in
      elim (Bool-cases (p x)) [
        | inl e ↦ let n = d e in ground (arith, ih)
        | inr e ↦ ground (arith, ih)
      ]

  sum_where-none :
      (k : String) (xs : List A)
      → any (λ x. key x == k) xs ≡ false
      → sum_where (λ x. k == key x) xs ≡ 0
  unfolding sum_where
  sum_where-none k [] h = refl
  sum_where-none k (x ∷ xs) h =
      let c = eq_comm k (key x) in let ih = sum_where-none k xs in grind arith

  -- With distinct keys at most one row has the key.
  sum_where-one :
      (k : String) (xs : List A)
      → Distinct key xs
      → sum_where (λ x. k == key x) xs ≡ (if any (λ x. key x == k) xs then f k else 0)
  unfolding sum_where
  sum_where-one k [] d = refl
  sum_where-one k (x ∷ xs) (n, d) =
      let c = eq_comm k (key x) in
      let ih = sum_where-one k xs d in
      elim (Bool-cases (k == key x)) [
        | inl e ↦
            let q : k ≡ key x = (eq_iff k (key x)).0 e in
            let none = sum_where-none k xs (rw q n) in let w = ap f q in ground (arith, none, w)
        | inr e ↦ ground (arith, ih)
      ]

module _ {A B : Type 0} (ka : A → String) (kb : B → String) (f : String → ℕ) where
  -- The keys that two tables share add up alike on both sides.
  pub sum_where-shared :
      (xs : List A) (ys : List B)
      → Distinct ka xs
      → Distinct kb ys
      → sum_where ka f (λ a. any (λ b. kb b == ka a) ys) xs
        ≡ sum_where kb f (λ b. any (λ a. ka a == kb b) xs) ys
  unfolding sum_where
  sum_where-shared [] ys dx dy = nothing_shared ys
    where
      nothing_shared : (zs : List B) → 0 ≡ sum_where kb f (λ b. false) zs
      nothing_shared [] = refl
      nothing_shared (z ∷ zs) = let ih = nothing_shared zs in omega arith
  sum_where-shared (x ∷ xs) ys (n, dx) dy =
      let one = sum_where-one kb f (ka x) ys dy in
      let ih = sum_where-shared xs ys dx dy in
      let split =
        sum_where-or kb f (λ b. ka x == kb b) (λ b. any (λ a. ka a == kb b) xs) ys
          (λ b e. ap (λ y. any (λ a. ka a == y) xs) (sym ((eq_iff (ka x) (kb b)).0 e)) ∙ n) in
      omega arith
