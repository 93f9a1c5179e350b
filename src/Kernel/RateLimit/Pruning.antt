-- ===== src/Kernel/RateLimit/Pruning.antt =====
-- `prune` of crates/kernel/src/ratelimit.rs, seen from the answers of `is_locked`.
use native.Mathlib.Omega.{arith}
use latent_db.Prelude.{
  ℕ, String, Bool, true, false, ◌&&◌, none, some, [], ◌∷◌, ◌==◌, eq_iff, ◌≡◌, refl, sym, ap, ◌∙◌,
  inl, inr, leb, any, Bool-cases,
}
use latent_db.Kernel.RateLimit.{
  FailureWindow, Limiter, max_failures, is_stale, lookup, is_locked, prune, remove, locked_by,
}
use latent_db.Kernel.RateLimit.Lockout.{answer_of, pick_by}

-- Each key stands in the map once, as in a `HashMap`.
abbrev pub IsMap : Limiter → Type 0
IsMap [] = Unit
IsMap ((j, w) ∷ m) = (any (λ e. e.0 == j) m ≡ false) × IsMap m

prune-absent :
    (key : String) (now : ℕ) (m : Limiter)
    → any (λ e. e.0 == key) m ≡ false
    → lookup key (prune now m) ≡ none
unfolding lookup prune
prune-absent key now [] e = refl
prune-absent key now ((j, w) ∷ m) e =
    let a : (j == key) ≡ false = grind arith in
    let b : any (λ x. x.0 == key) m ≡ false = grind arith in
    let ih = prune-absent key now m b in
    elim (Bool-cases (is_stale now w)) [ inl s ↦ rw s ih | inr s ↦ rw (s, a) ih ]

off : (b : Bool) → (b && false) ≡ false
off true = refl
off false = refl

answer_stale :
    (key : String) (now : ℕ) (m : Limiter) (w : FailureWindow)
    → is_stale now w ≡ true
    → (locked_by key now m (some w)).0 ≡ false
answer_stale key now m w s =
    pick_by (is_stale now w) (leb max_failures w.failures) (remove key m) m
    ∙ rw s (off (leb max_failures w.failures))

prune-answer :
    (key : String) (now : ℕ) (m m' : Limiter)
    → IsMap m
    → (locked_by key now m' (lookup key (prune now m))).0 ≡ (locked_by key now m' (lookup key m)).0
unfolding lookup prune
prune-answer key now [] m' u = refl
prune-answer key now ((j, w) ∷ m) m' (n, u) =
    let ih = prune-answer key now m m' u in
    elim (Bool-cases (j == key)) [
      | inl e ↦
          let q = (eq_iff j key).0 e in
          let n' : any (λ x. x.0 == key) m ≡ false = sym (ap (λ y. any (λ x. x.0 == y) m) q) ∙ n in
          elim (Bool-cases (is_stale now w)) [
            | inl s ↦ rw (s, e, prune-absent key now m n') (sym (answer_stale key now m' w s))
            | inr s ↦ rw (s, e) refl
          ]
      | inr e ↦ elim (Bool-cases (is_stale now w)) [ inl s ↦ rw (s, e) ih | inr s ↦ rw (s, e) ih ]
    ]

-- Pruning is not observable: on a map in which each key stands once, the answer for every key at the
-- time of the pruning is the same before and after.
pub prune-is_locked :
    (key : String) (now : ℕ) (m : Limiter)
    → IsMap m
    → (is_locked key now (prune now m)).0 ≡ (is_locked key now m).0
unfolding is_locked
prune-is_locked key now m u =
    answer_of key now (prune now m) m (lookup key (prune now m)) ∙ prune-answer key now m m u
