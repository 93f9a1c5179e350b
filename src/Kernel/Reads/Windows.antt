-- ===== src/Kernel/Reads/Windows.antt =====
-- The arithmetic of a page: the slice of a listing.
use latent_db.Prelude.{
  ℕ, zero, suc, ◌+◌, ◌-◌, ◌≤◌, ◌<◌, min, List, [], ◌∷◌, ◌≡◌, refl, ap, sym, ◌∙◌, ◌⊎◌, inl, inr,
  length, take, drop, leb, arith, Bool-cases,
}
use latent_db.Contracts.Error.{ok, panic}
use latent_db.Contracts.Record.{I64, nonneg, neg, clamp_limit}
use latent_db.Kernel.Records.Listing.{window, i64_max}

take_all {ℓ} : {A : Type ℓ} (n : ℕ) (xs : List A) → length xs ≤ n → take n xs ≡ xs
take_all zero [] h = refl
take_all (suc n) [] h = refl
take_all zero (x ∷ xs) h = absurd (omega arith)
take_all (suc n) (x ∷ xs) h = ap (λ l. x ∷ l) (take_all n xs (omega arith))

drop_all {ℓ} : {A : Type ℓ} (n : ℕ) (xs : List A) → length xs ≤ n → drop n xs ≡ []
drop_all zero [] h = refl
drop_all (suc n) [] h = refl
drop_all zero (x ∷ xs) h = absurd (omega arith)
drop_all (suc n) (x ∷ xs) h = drop_all n xs (omega arith)

take-nil {ℓ} : {A : Type ℓ} (n : ℕ) → take {A = A} n [] ≡ []
take-nil zero = refl
take-nil (suc n) = refl

length-drop {ℓ} : {A : Type ℓ} (n : ℕ) (xs : List A) → length (drop n xs) ≡ length xs - n
length-drop zero xs = omega arith
length-drop (suc n) [] = omega arith
length-drop (suc n) (x ∷ xs) = length-drop n xs ∙ omega arith

pub length-take {ℓ} : {A : Type ℓ} (n : ℕ) (xs : List A) → length (take n xs) ≡ min n (length xs)
length-take zero xs = omega arith
length-take (suc n) [] = omega arith
length-take (suc n) (x ∷ xs) = let ih = length-take n xs in omega arith

below_or : (a b : ℕ) → (a ≤ b) ⊎ (b < a)
below_or a b = elim (Bool-cases (leb a b)) [
  | inl h ↦ inl (ground arith)
  | inr h ↦ inr (ground arith)
]

-- The bounds that the code computes, capped by the length, pick the same rows.
slice_lem {ℓ} :
    {A : Type ℓ} (o l : ℕ) (xs : List A)
    → take (min (o + l) (length xs) - min o (length xs)) (drop (min o (length xs)) xs)
      ≡ take l (drop o xs)
slice_lem o l xs = elim (below_or (length xs) o) [
  | inl past ↦
      let a : min o (length xs) ≡ length xs = omega arith in
      let z : min (o + l) (length xs) - length xs ≡ 0 = omega arith in
      rw a (rw z (sym (ap (take l) (drop_all o xs past) ∙ take-nil l)))
  | inr within ↦
      let a : min o (length xs) ≡ o = omega arith in
      let n = length-drop o xs in
      rw a (elim (below_or (o + l) (length xs)) [
        | inl inside ↦ let b : min (o + l) (length xs) - o ≡ l = omega arith in rw b refl
        | inr over ↦
            take_all _ (drop o xs) (omega arith) ∙ sym (take_all l (drop o xs) (omega arith))
      ])
]

-- A page is `limit` rows from the row number `offset` on, as far as there are any, whatever the
-- listing is, as long as the sum of both fits an `i64`; otherwise the code panics.
pub window_lem {ℓ} :
    {A : Type ℓ} (offset limit : ℕ) (rs : List A)
    → ((offset + limit ≤ i64_max) × (window offset limit rs ≡ ok (take limit (drop offset rs))))
      ⊎ ((i64_max < offset + limit) × (window offset limit rs ≡ panic))
unfolding window
window_lem offset limit rs = elim (Bool-cases (leb (offset + limit) i64_max)) [
  | inl h ↦ inl (ground arith, rw (h, window) (ap ok (slice_lem offset limit rs)))
  | inr h ↦ inr (ground arith, rw (h, window) refl)
]

-- A requested limit is brought between 1 and 500.
pub clamp_limit-bounds : (n : I64) → (1 ≤ clamp_limit n) × (clamp_limit n ≤ 500)
clamp_limit-bounds (neg n) = (omega arith, omega arith)
clamp_limit-bounds (nonneg n) = ground arith
