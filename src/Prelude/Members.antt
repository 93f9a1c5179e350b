-- ===== src/Prelude/Members.antt =====
-- Elements of a list, and the Boolean searches that find them.
use mathlib.Core.Path.{subst, ◌≡◌, refl, ap, sym, ◌∙◌}
use mathlib.Core.Logic.{◌⊎◌, inl, inr}
use mathlib.Core.Bool.{Bool, true, false}
use mathlib.Core.List.{List, [], ◌∷◌, map, reverse, reverse_aux, flat_map, Memᴰ}
use mathlib.Core.List.Memᴰ
use mathlib.Core.Option.{none, some}
use native.Mathlib.Omega.{arith}
use latent_db.Prelude.Tests.{if◌then◌else◌, Bool-cases}
use Prim.Native.Nat.{ℕ, zero, suc}
use latent_db.Prelude.Lists.{
  length, find, update_where, any, select, take, drop, insert_sorted, sort_by,
}

module _ {ℓ} {A : Type ℓ} (p : A → Bool) where
  pub mem-of-any : (xs : List A) → any p xs ≡ true → (x : A) × Memᴰ x xs × (p x ≡ true)
  mem-of-any [] e = grind arith
  mem-of-any (y ∷ xs) e = elim (Bool-cases (p y)) [
    | inl h ↦ (y, Memᴰ.head refl, h)
    | inr h ↦
        let e' : any p xs ≡ true = grind arith in
        let (x, m, q) = mem-of-any xs e' in (x, Memᴰ.tail m, q)
  ]

  pub any-of-mem : {x : A} (xs : List A) → Memᴰ x xs → p x ≡ true → any p xs ≡ true
  any-of-mem [] m h = absurd (Memᴰ.not-nil m)
  any-of-mem {x} (y ∷ xs) (Memᴰ.head e) h = let h' : p y ≡ true = ap p (sym e) ∙ h in grind arith
  any-of-mem {x} (y ∷ xs) (Memᴰ.tail m) h =
      let ih = any-of-mem xs m h in
      elim (Bool-cases (p y)) [ inl q ↦ grind arith | inr q ↦ grind arith ]

  pub mem-select : {x : A} (xs : List A) → Memᴰ x xs → p x ≡ true → Memᴰ x (select p xs)
  mem-select [] m h = absurd (Memᴰ.not-nil m)
  mem-select {x} (y ∷ xs) (Memᴰ.head e) h =
      let h' : p y ≡ true = ap p (sym e) ∙ h in rw h' (Memᴰ.head e)
  mem-select {x} (y ∷ xs) (Memᴰ.tail m) h =
      let ih = mem-select xs m h in
      elim (Bool-cases (p y)) [ inl q ↦ rw q (Memᴰ.tail ih) | inr q ↦ rw q ih ]

  select-step :
      (x y : A) (xs : List A) (b : Bool)
      → p y ≡ b
      → Memᴰ x (if b then y ∷ select p xs else select p xs)
      → (Memᴰ x (select p xs) → Memᴰ x xs × (p x ≡ true))
      → Memᴰ x (y ∷ xs) × (p x ≡ true)
  select-step x y xs true e (Memᴰ.head q) ih = (Memᴰ.head q, ap p q ∙ e)
  select-step x y xs true e (Memᴰ.tail m) ih = let (n, h) = ih m in (Memᴰ.tail n, h)
  select-step x y xs false e m ih = let (n, h) = ih m in (Memᴰ.tail n, h)

  pub select-mem : {x : A} (xs : List A) → Memᴰ x (select p xs) → Memᴰ x xs × (p x ≡ true)
  select-mem {x} [] m = absurd (Memᴰ.not-nil m)
  select-mem {x} (y ∷ xs) m = select-step x y xs (p y) refl m (select-mem xs)

module _ {ℓ κ} {A : Type ℓ} {B : Type κ} (f : A → List B) where
  pub mem-flat_map :
      {x : A} {b : B} (xs : List A) → Memᴰ x xs → Memᴰ b (f x) → Memᴰ b (flat_map f xs)
  unfolding flat_map
  mem-flat_map [] m n = absurd (Memᴰ.not-nil m)
  mem-flat_map {x} {b} (y ∷ xs) (Memᴰ.head e) n =
      Memᴰ.append_left (flat_map f xs) (subst (λ z. Memᴰ b (f z)) e n)
  mem-flat_map {x} {b} (y ∷ xs) (Memᴰ.tail m) n = Memᴰ.append_right (f y) (mem-flat_map xs m n)

  pub flat_map-mem :
      {b : B} (xs : List A) → Memᴰ b (flat_map f xs) → (x : A) × Memᴰ x xs × Memᴰ b (f x)
  unfolding flat_map
  flat_map-mem [] m = absurd (Memᴰ.not-nil m)
  flat_map-mem (y ∷ xs) m = elim (Memᴰ.append_cases (f y) m) [
    | inl n ↦ (y, Memᴰ.head refl, n)
    | inr n ↦ let (x, i, j) = flat_map-mem xs n in (x, Memᴰ.tail i, j)
  ]

module _ {ℓ} {A : Type ℓ} where
  pub take-mem : {x : A} (n : ℕ) (xs : List A) → Memᴰ x (take n xs) → Memᴰ x xs
  take-mem zero xs m = absurd (Memᴰ.not-nil m)
  take-mem (suc n) [] m = absurd (Memᴰ.not-nil m)
  take-mem (suc n) (y ∷ xs) (Memᴰ.head e) = Memᴰ.head e
  take-mem (suc n) (y ∷ xs) (Memᴰ.tail m) = Memᴰ.tail (take-mem n xs m)

  pub drop-mem : {x : A} (n : ℕ) (xs : List A) → Memᴰ x (drop n xs) → Memᴰ x xs
  drop-mem zero xs m = m
  drop-mem (suc n) [] m = absurd (Memᴰ.not-nil m)
  drop-mem (suc n) (y ∷ xs) m = Memᴰ.tail (drop-mem n xs m)

  insert_step :
      (x a y : A) (xs : List A) (leq : A → A → Bool) (b : Bool)
      → (Memᴰ x (insert_sorted leq a xs) → Memᴰ x (a ∷ xs))
      → Memᴰ x (if b then a ∷ y ∷ xs else y ∷ insert_sorted leq a xs)
      → Memᴰ x (a ∷ y ∷ xs)
  insert_step x a y xs leq true ih m = m
  insert_step x a y xs leq false ih (Memᴰ.head e) = Memᴰ.tail (Memᴰ.head e)
  insert_step x a y xs leq false ih (Memᴰ.tail m) = elim (Memᴰ.cases_cons (ih m)) [
    | inl e ↦ Memᴰ.head e
    | inr n ↦ Memᴰ.tail (Memᴰ.tail n)
  ]

  insert_sorted-mem :
      {x : A} (leq : A → A → Bool) (a : A) (xs : List A)
      → Memᴰ x (insert_sorted leq a xs)
      → Memᴰ x (a ∷ xs)
  unfolding insert_sorted
  insert_sorted-mem leq a [] m = m
  insert_sorted-mem {x} leq a (y ∷ xs) m =
      insert_step x a y xs leq (leq a y) (insert_sorted-mem leq a xs) m

  pub sort_by-mem : {x : A} (leq : A → A → Bool) (xs : List A) → Memᴰ x (sort_by leq xs) → Memᴰ x xs
  unfolding sort_by
  sort_by-mem leq [] m = m
  sort_by-mem leq (y ∷ xs) m = elim (Memᴰ.cases_cons (insert_sorted-mem leq y (sort_by leq xs) m)) [
    | inl e ↦ Memᴰ.head e
    | inr n ↦ Memᴰ.tail (sort_by-mem leq xs n)
  ]

  reverse_aux-mem : {x : A} (xs ys : List A) → Memᴰ x (reverse_aux xs ys) → Memᴰ x xs ⊎ Memᴰ x ys
  reverse_aux-mem [] ys m = inr m
  reverse_aux-mem (y ∷ xs) ys m = elim (reverse_aux-mem xs (y ∷ ys) m) [
    | inl n ↦ inl (Memᴰ.tail n)
    | inr n ↦ elim (Memᴰ.cases_cons n) [ inl e ↦ inl (Memᴰ.head e) | inr i ↦ inr i ]
  ]

  pub reverse-mem : {x : A} (xs : List A) → Memᴰ x (reverse xs) → Memᴰ x xs
  reverse-mem xs m = elim (reverse_aux-mem xs [] m) [ inl n ↦ n | inr n ↦ absurd (Memᴰ.not-nil n) ]

module _ {ℓ κ} {A : Type ℓ} {B : Type κ} where
  pub map-mem :
      {b : B} (f : A → B) (xs : List A) → Memᴰ b (map f xs) → (a : A) × Memᴰ a xs × (b ≡ f a)
  map-mem f [] m = absurd (Memᴰ.not-nil m)
  map-mem f (x ∷ xs) (Memᴰ.head e) = (x, Memᴰ.head refl, e)
  map-mem f (x ∷ xs) (Memᴰ.tail m) = let (a, n, e) = map-mem f xs m in (a, Memᴰ.tail n, e)

  pub mem-map : {a : A} (f : A → B) (xs : List A) → Memᴰ a xs → Memᴰ (f a) (map f xs)
  mem-map f [] m = absurd (Memᴰ.not-nil m)
  mem-map f (x ∷ xs) (Memᴰ.head e) = Memᴰ.head (ap f e)
  mem-map f (x ∷ xs) (Memᴰ.tail m) = Memᴰ.tail (mem-map f xs m)

  pub length-map : (f : A → B) (xs : List A) → length (map f xs) ≡ length xs
  length-map f [] = refl
  length-map f (x ∷ xs) = ap suc (length-map f xs)

-- What `find` finds, and that it finds what is there.
pub find-of-any {ℓ} :
    {A : Type ℓ} (p : A → Bool) (xs : List A)
    → any p xs ≡ true
    → (x : A) × (find p xs ≡ some x) × (p x ≡ true)
find-of-any p [] e = absurd (grind arith)
find-of-any p (y ∷ xs) e = elim (Bool-cases (p y)) [
  | inl h ↦ (y, grind arith, h)
  | inr h ↦
      let e' : any p xs ≡ true = grind arith in
      let (x, f, q) = find-of-any p xs e' in (x, grind arith, q)
]

-- What `find` finds after an update of the rows that it looks for, and of other rows.
pub find-update_where {ℓ} :
    {A : Type ℓ} (q : A → Bool) (f : A → A) (rows : List A)
    → ((x : A) → q (f x) ≡ q x)
    → (row : A) → find q rows ≡ some row
    → find q (update_where q f rows) ≡ some (f row)
find-update_where q f [] h row e = absurd (grind arith)
find-update_where q f (x ∷ rows) h row e =
    let hx = h x in
    elim (Bool-cases (q x)) [
      | inl y ↦ grind arith
      | inr y ↦ let ih = find-update_where q f rows h row in grind arith
    ]

pub find-update_none {ℓ} :
    {A : Type ℓ} (p q : A → Bool) (f : A → A) (rows : List A)
    → ((x : A) → q x ≡ true → p (f x) ≡ false)
    → ((x : A) → q x ≡ false → p x ≡ false)
    → find p (update_where q f rows) ≡ none
find-update_none p q f [] h g = refl
find-update_none p q f (x ∷ rows) h g =
    let ih = find-update_none p q f rows h g in
    elim (Bool-cases (q x)) [
      | inl y ↦ let e = h x y in grind arith
      | inr y ↦ let e = g x y in grind arith
    ]

-- What is found after an update of the rows of the same test has been updated.
pub find-updated {ℓ} :
    {A : Type ℓ} (q : A → Bool) (f : A → A) (rows : List A)
    → ((x : A) → q (f x) ≡ q x)
    → (y : A) → find q (update_where q f rows) ≡ some y
    → (x : A) × (y ≡ f x)
find-updated q f [] h y e = absurd (grind arith)
find-updated q f (x ∷ rows) h y e =
    let hx = h x in
    elim (Bool-cases (q x)) [
      | inl b ↦ (x, grind arith)
      | inr b ↦ find-updated q f rows h y (grind arith)
    ]

-- What is found after any update stood in the rows: updated, or not met by the update.
pub find-after_update {ℓ} :
    {A : Type ℓ} (p q : A → Bool) (f : A → A) (rows : List A) (y : A)
    → find p (update_where q f rows) ≡ some y
    → (p y ≡ true) × (((x : A) × (y ≡ f x)) ⊎ (q y ≡ false))
find-after_update p q f [] y e = absurd (grind arith)
find-after_update p q f (x ∷ rows) y e =
    let x' = if q x then f x else x in
    elim (Bool-cases (p x')) [
      | inr b ↦ find-after_update p q f rows y (grind arith)
      | inl b ↦ elim (Bool-cases (q x)) [
        | inl c ↦ (grind arith, inl (x, grind arith))
        | inr c ↦ (grind arith, inr (grind arith))
      ]
    ]
