-- ===== src/Kernel/Histories/Lists.antt =====
-- What inserts and updates do to the rows that a query picks.
use latent_db.Prelude.{
  Bool, true, false, List, [], ◌∷◌, ◌++◌, ◌≡◌, refl, select, update_where, any, if◌then◌else◌,
  arith,
}
use latent_db.Contracts.Error.{ok, err, panic}
use latent_db.Kernel.Host.{map_db_err, unique_constraint}
use latent_db.Kernel.Store.{Db, insert_row}

module _ {ℓ} {A : Type ℓ} where
  pub select_++ : (p : A → Bool) (xs ys : List A) → select p (xs ++ ys) ≡ select p xs ++ select p ys
  select_++ p [] ys = refl
  select_++ p (x ∷ xs) ys = let ih = select_++ p xs ys in grind arith

  pub select-insert :
      (p : A → Bool) (row : A) (rows : List A)
      → p row ≡ false
      → select p (rows ++ row ∷ []) ≡ select p rows
  select-insert p row [] e = grind arith
  select-insert p row (x ∷ rows) e = let ih = select-insert p row rows e in grind arith

  pub select-update_where :
      (p q : A → Bool) (f : A → A) (rows : List A)
      → ((x : A) → q x ≡ true → (p x ≡ false) × (p (f x) ≡ false))
      → select p (update_where q f rows) ≡ select p rows
  select-update_where p q f [] h = refl
  select-update_where p q f (x ∷ rows) h =
      let ih = select-update_where p q f rows h in let hx = h x in grind arith

  -- What an insert leaves where it is not refused.
  inserted_if :
      (set : List A → Db) (rows : List A) (d' : Db) (b : Bool)
      → (elim (if b then err (map_db_err unique_constraint) else ok rows) [
        | ok rows' ↦ ok (set rows')
        | err e ↦ err e
        | panic ↦ panic
      ])
        ≡ ok d'
      → (b ≡ false) × (d' ≡ set rows)
  inserted_if set rows d' true e = grind arith
  inserted_if set rows d' false e = (refl, (cc))

  pub inserted :
      (set : List A → Db) (clash : A → Bool) (row : A) (rows : List A) (d' : Db)
      → (elim (insert_row clash row rows) [
        | ok rows' ↦ ok (set rows')
        | err e ↦ err e
        | panic ↦ panic
      ])
        ≡ ok d'
      → (any clash rows ≡ false) × (d' ≡ set (rows ++ row ∷ []))
  inserted set clash row rows d' e = inserted_if set _ d' (any clash rows) e

  -- An update of the rows that match, or an insert where none does.
  pub upserted-select :
      (p q : A → Bool) (f : A → A) (row : A) (rows : List A)
      → p row ≡ false
      → ((x : A) → q x ≡ true → (p x ≡ false) × (p (f x) ≡ false))
      → select p (if any q rows then update_where q f rows else rows ++ row ∷ []) ≡ select p rows
  upserted-select p q f row rows e h =
      let i = select-insert p row rows e in let j = select-update_where p q f rows h in grind arith

  -- `INSERT OR IGNORE`
  pub added-select :
      (p : A → Bool) (b : Bool) (row : A) (rows : List A)
      → p row ≡ false
      → select p (if b then rows else rows ++ row ∷ []) ≡ select p rows
  added-select p true row rows e = refl
  added-select p false row rows e = select-insert p row rows e
