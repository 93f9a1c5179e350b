-- ===== src/Kernel/RateLimit/Lockout.antt =====
-- When the login is locked: a run of failures, seen from the one key and from the others.
use Prim.Native.Nat.{◌^◌}
use native.Mathlib.Omega.{arith}
use latent_db.Prelude.{
  ℕ, suc, ◌+◌, ◌-◌, ◌≤◌, ◌<◌, String, Bool, true, false, not, ◌&&◌, Option, none, some, List, [],
  ◌∷◌, ◌==◌, eq_iff, eq_refl, ◌≡◌, refl, sym, ap, ◌∙◌, inl, inr, if◌then◌else◌, leb, length, All,
  Bool-cases,
}
use latent_db.Kernel.RateLimit.{
  FailureWindow, Limiter, max_failures, window, is_stale, lookup, remove, put, is_locked,
  record_failure, reset, bump, locked_by,
}

pub lookup-remove :
    (key j : String) (m : Limiter)
    → lookup j (remove key m) ≡ (if key == j then none else lookup j m)
unfolding lookup remove
lookup-remove key j [] = elim (Bool-cases (key == j)) [ inl e ↦ rw e refl | inr e ↦ rw e refl ]
lookup-remove key j ((i, w) ∷ m) =
    let ih = lookup-remove key j m in
    let a = eq_iff i key in
    let b = eq_iff key j in
    let c = eq_iff i j in
    elim (Bool-cases (i == key)) [
      | inl e ↦ elim (Bool-cases (key == j)) [
        | inl f ↦ rw (e, f) (ih ∙ rw f refl)
        | inr f ↦
            let g : (i == j) ≡ false = ap (λ x. x == j) (a.0 e) ∙ f in rw (e, f, g) (ih ∙ rw f refl)
      ]
      | inr e ↦ elim (Bool-cases (key == j)) [
        | inl f ↦
            let g : (i == j) ≡ false = ap (λ x. i == x) (sym (b.0 f)) ∙ e in
            rw (e, f, g) (ih ∙ rw f refl)
        | inr f ↦ let q : lookup j (remove key m) ≡ lookup j m = ih ∙ rw f refl in rw (e, f, q) refl
      ]
    ]

lookup-put :
    (key j : String) (w : FailureWindow) (m : Limiter)
    → lookup j (put key w m) ≡ (if key == j then some w else lookup j m)
unfolding lookup put
lookup-put key j w m = elim (Bool-cases (key == j)) [
  | inl e ↦ rw e refl
  | inr e ↦ rw e (lookup-remove key j m ∙ rw e refl)
]

found_put : (key : String) (w : FailureWindow) (m : Limiter) → lookup key (put key w m) ≡ some w
found_put key w m = lookup-put key key w m ∙ rw (eq_refl key) refl

fresh_lem : (t start : ℕ) → t - start < window → leb window (t - start) ≡ false
fresh_lem t start h = ground arith

stale_lem : (t start : ℕ) → window ≤ t - start → leb window (t - start) ≡ true
stale_lem t start h = ground arith

-- The window of a key after one more failure.
counted :
    (key : String) (t start n : ℕ) (m : Limiter)
    → lookup key m ≡ some (record { window_start = start; failures = n })
    → t - start < window
    → n + 1 < 2 ^ 32
    → lookup key (record_failure key t m).1
      ≡ some (record { window_start = start; failures = n + 1 })
unfolding record_failure
counted key t start n m e h b =
    let f = fresh_lem t start h in
    let c : bump n ≡ n + 1 = omega arith in rw e (rw f (found_put key _ m ∙ rw c refl))

opened :
    (key : String) (t : ℕ) (m : Limiter)
    → lookup key m ≡ none
    → lookup key (record_failure key t m).1 ≡ some (record { window_start = t; failures = 1 })
unfolding record_failure
opened key t m e = rw e (found_put key _ m)

-- A run of failures of one key, at the given times.
unfoldable pub fail_at : String → List ℕ → Limiter → Limiter
fail_at key [] m = m
fail_at key (t ∷ ts) m = fail_at key ts (record_failure key t m).1

within_lookup :
    (key : String) (start n : ℕ) (ts : List ℕ) (m : Limiter)
    → lookup key m ≡ some (record { window_start = start; failures = n })
    → All (λ t. t - start < window) ts
    → n + length ts < 2 ^ 32
    → lookup key (fail_at key ts m)
      ≡ some (record { window_start = start; failures = n + length ts })
unfolding fail_at record_failure
within_lookup key start n [] m e h b = let z : n + 0 ≡ n = omega arith in rw z e
within_lookup key start n (t ∷ ts) m e (h, hs) b =
    let ih =
      within_lookup key start (n + 1) ts (record_failure key t m).1
        (counted key t start n m e h (omega arith)) hs (omega arith) in
    let z : (n + 1) + length ts ≡ n + suc (length ts) = omega arith in
    ih ∙ ap (λ x. some (record { window_start = start; failures = x })) z

abbrev pub locks : String → ℕ → Limiter → Bool
locks key now m = (is_locked key now m).0

pub pick_by :
    (b c : Bool) (m m' : Limiter)
    → (if◌then◌else◌ {A = Bool × Limiter} b (false, m) (c, m')).0 ≡ (c && not b)
pick_by true true m m' = refl
pick_by true false m m' = refl
pick_by false true m m' = refl
pick_by false false m m' = refl

locks_lem :
    (key : String) (now start n : ℕ) (m : Limiter)
    → lookup key m ≡ some (record { window_start = start; failures = n })
    → locks key now m ≡ (leb max_failures n && not (leb window (now - start)))
unfolding is_locked
locks_lem key now start n m e =
    ap (λ o. (locked_by key now m o).0) e
    ∙ pick_by (leb window (now - start)) (leb max_failures n) (remove key m) m

-- A key with no failures on record that fails first at `start`, and then at times that lie within
-- the fifteen minutes from there, is locked exactly if ten failures or more have been counted and
-- the fifteen minutes have not passed; counts below the range of the counter's type.
pub fail_at-is_locked :
    (key : String) (start now : ℕ) (ts : List ℕ) (m : Limiter)
    → lookup key m ≡ none
    → All (λ t. t - start < window) ts
    → suc (length ts) < 2 ^ 32
    → (is_locked key now (fail_at key (start ∷ ts) m)).0
      ≡ (leb max_failures (suc (length ts)) && not (leb window (now - start)))
unfolding fail_at
fail_at-is_locked key start now ts m e h b =
    let z : 1 + length ts ≡ suc (length ts) = omega arith in
    locks_lem key now start (suc (length ts)) _ (
      within_lookup key start 1 ts (record_failure key start m).1 (opened key start m e) h
        (omega arith)
      ∙ ap (λ x. some (record { window_start = start; failures = x })) z)

pub answer_of :
    (key : String) (now : ℕ) (m m' : Limiter) (o : Option FailureWindow)
    → (locked_by key now m o).0 ≡ (locked_by key now m' o).0
answer_of key now m m' none = refl
answer_of key now m m' (some w) =
    pick_by (is_stale now w) (leb max_failures w.failures) (remove key m) m
    ∙ sym (pick_by (is_stale now w) (leb max_failures w.failures) (remove key m') m')

pub locks-cong :
    (key : String) (now : ℕ) (m m' : Limiter)
    → lookup key m ≡ lookup key m'
    → locks key now m ≡ locks key now m'
unfolding is_locked
locks-cong key now m m' e =
    ap (λ o. (locked_by key now m o).0) e ∙ answer_of key now m m' (lookup key m')

-- The failures of one key leave the answer for every other key as it is.
pub fail_at-other :
    (key j : String) (now : ℕ) (ts : List ℕ) (m : Limiter)
    → (key == j) ≡ false
    → (is_locked j now (fail_at key ts m)).0 ≡ (is_locked j now m).0
unfolding fail_at record_failure
fail_at-other key j now [] m ne = refl
fail_at-other key j now (t ∷ ts) m ne =
    fail_at-other key j now ts (record_failure key t m).1 ne
    ∙ locks-cong j now _ m (lookup-put key j _ m ∙ rw ne refl)

-- What is reset is not locked, and every other key is answered for as before.
pub reset-is_locked :
    (key j : String) (now : ℕ) (m : Limiter)
    → ((is_locked key now (reset key m)).0 ≡ false)
      × ((key == j) ≡ false → (is_locked j now (reset key m)).0 ≡ (is_locked j now m).0)
unfolding reset lookup is_locked
reset-is_locked key j now m = (
  locks-cong key now (remove key m) [] (lookup-remove key key m ∙ rw (eq_refl key) refl),
  λ ne. locks-cong j now (remove key m) m (lookup-remove key j m ∙ rw ne refl),
)
