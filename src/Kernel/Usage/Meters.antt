-- ===== src/Kernel/Usage/Meters.antt =====
-- crates/kernel/src/usage.rs: the counters as a map from tenant, metric and month
use latent_db.Prelude.{
  ℕ, suc, ◌+◌, String, Bool, true, false, Option, some, none, List, [], ◌∷◌, ◌++◌, any, find,
  update_where, ◌&&◌, ◌≡◌, refl, sym, ap, ◌∙◌, ◌==◌, inl, inr, arith, if◌then◌else◌, Bool-cases,
  subst, eq_iff,
}
use latent_db.Contracts.Error.{Result, ok, err}
use latent_db.Kernel.Host.{Kernel, map_db_err, unique_constraint}
use latent_db.Kernel.Store.{Db, UsageRow}
use latent_db.Kernel.Exec.{State, ◌>>=◌, continue, pure, clock, fresh_id, current_time}
use latent_db.Kernel.Exec.Returns.{execute-ok}
use latent_db.Kernel.Usage.{
  is_meter, increase, upsert_usage, period_of, current_period, record_enabled, record_usage,
}

abbrev value_of : Option UsageRow → ℕ
value_of none = 0
value_of (some row) = row.value

-- The counter of a metric in a month: what has not been counted is at zero.
unfoldable pub usage_of : String → String → String → List UsageRow → ℕ
usage_of t m p rows = value_of (find (is_meter t m p) rows)

abbrev meters_of : Result Db → List UsageRow
meters_of (ok d) = d.usage_meters
meters_of r = []

module _ (t m p : String) (row : UsageRow) where
  abbrev here : UsageRow → Bool
  here = is_meter row.tenant_id row.metric row.period

  -- What the row adds to the counter.
  abbrev pub share : ℕ
  share = if is_meter t m p row then row.value else 0

  same_meter : (x : UsageRow) → here x ≡ true → is_meter t m p x ≡ is_meter t m p row
  same_meter x e =
      let a = (eq_iff x.tenant_id row.tenant_id).0 (grind arith) in
      let b = (eq_iff x.metric row.metric).0 (grind arith) in
      let c = (eq_iff x.period row.period).0 (grind arith) in rw (a, b, c) refl

  other_meter :
      (x : UsageRow) → here x ≡ false → is_meter t m p row ≡ true → is_meter t m p x ≡ false
  other_meter x e h =
      let a = (eq_iff row.tenant_id t).0 (grind arith) in
      let b = (eq_iff row.metric m).0 (grind arith) in
      let c = (eq_iff row.period p).0 (grind arith) in rw (sym a, sym b, sym c) e

  -- A counter that the row is not about is left alone.
  untouched :
      (rows : List UsageRow)
      → is_meter t m p row ≡ false
      → usage_of t m p (update_where here (increase row) rows) ≡ usage_of t m p rows
  unfolding usage_of
  untouched [] n = refl
  untouched (x ∷ rows) n =
      let ih = untouched rows n in
      elim (Bool-cases (here x)) [
        | inl h ↦ let q = same_meter x h ∙ n in rw (h, q) ih
        | inr h ↦ elim (Bool-cases (is_meter t m p x)) [
          | inl g ↦ rw (h, g) refl
          | inr g ↦ rw (h, g) ih
        ]
      ]

  no-share : (x : UsageRow) → here x ≡ false → is_meter t m p x ≡ true → share ≡ 0
  no-share x h g = elim (Bool-cases (is_meter t m p row)) [
    | inl b ↦ let q = other_meter x h b in absurd (grind arith)
    | inr b ↦ rw b refl
  ]

  updated :
      (rows : List UsageRow)
      → any here rows ≡ true
      → usage_of t m p (update_where here (increase row) rows) ≡ usage_of t m p rows + share
  unfolding usage_of
  updated [] e = absurd (grind arith)
  updated (x ∷ rows) e = elim (Bool-cases (here x)) [
    | inl h ↦ elim (Bool-cases (is_meter t m p x)) [
      | inl g ↦ let q = sym (same_meter x h) ∙ g in rw (h, g, q) refl
      | inr g ↦
          let q = sym (same_meter x h) ∙ g in
          let u = untouched rows q in rw (h, g, q) (u ∙ (omega arith))
    ]
    | inr h ↦ elim (Bool-cases (is_meter t m p x)) [
      | inl g ↦ let z = no-share x h g in rw (h, g, z) (omega arith)
      | inr g ↦ let ih = updated rows (grind arith) in rw (h, g) ih
    ]
  ]

  added :
      (rows : List UsageRow)
      → any here rows ≡ false
      → usage_of t m p (rows ++ row ∷ []) ≡ usage_of t m p rows + share
  unfolding usage_of
  added [] e = elim (Bool-cases (is_meter t m p row)) [
    | inl b ↦ rw b (omega arith)
    | inr b ↦ rw b refl
  ]
  added (x ∷ rows) e =
      let h : here x ≡ false = grind arith in
      elim (Bool-cases (is_meter t m p x)) [
        | inl g ↦ let z = no-share x h g in rw (g, z) (omega arith)
        | inr g ↦ let ih = added rows (grind arith) in rw g ih
      ]

  clashing :
      (d d' : Db)
      → any here d.usage_meters ≡ false
      → any (λ x. x.id == row.id) d.usage_meters ≡ true
      → ¬ (upsert_usage row d ≡ ok d')
  unfolding upsert_usage
  clashing d d' h c e =
      let r : upsert_usage row d ≡ err (map_db_err unique_constraint) = rw (h, c) refl in
      absurd (grind arith)

  pub upsert_usage-ok :
      (d d' : Db)
      → upsert_usage row d ≡ ok d'
      → usage_of t m p d'.usage_meters ≡ usage_of t m p d.usage_meters + share
  unfolding upsert_usage
  upsert_usage-ok d d' e = elim (Bool-cases (any here d.usage_meters)) [
    | inl h ↦
        let q : update_where here (increase row) d.usage_meters ≡ d'.usage_meters =
          sym (rows_after h) ∙ ap meters_of e in
        ap (usage_of t m p) (sym q) ∙ updated d.usage_meters h
    | inr h ↦ elim (Bool-cases (any (λ x. x.id == row.id) d.usage_meters)) [
      | inl c ↦ absurd (clashing d d' h c e)
      | inr c ↦
          let q : d.usage_meters ++ row ∷ [] ≡ d'.usage_meters =
            sym (rows_inserted h c) ∙ ap meters_of e in
          ap (usage_of t m p) (sym q) ∙ added d.usage_meters h
    ]
  ]
    where
      rows_after :
          any here d.usage_meters ≡ true
          → meters_of (upsert_usage row d) ≡ update_where here (increase row) d.usage_meters
      rows_after h = rw h refl

      rows_inserted :
          any here d.usage_meters ≡ false
          → any (λ x. x.id == row.id) d.usage_meters ≡ false
          → meters_of (upsert_usage row d) ≡ d.usage_meters ++ row ∷ []
      rows_inserted h c = rw (h, c) refl

-- Where a call is counted, the counter of the tenant, the metric and the month of the clock has grown
-- by the amount, and every other counter is as it was. Metering is taken to be switched on.
pub record_usage-usage_of :
    (k : Kernel) (tenant_id metric : String) (amount : ℕ) (s : State) (u : Unit {0})
    (t m p : String)
    → k.flags.enable_usage_metering ≡ true
    → (record_usage k tenant_id metric amount s).0 ≡ ok u
    → usage_of t m p (record_usage k tenant_id metric amount s).1.db.usage_meters
      ≡ usage_of t m p s.db.usage_meters
        + (if tenant_id == t && (metric == m && period_of k (k.now (suc s.tick)) == p)
            then amount
            else 0)
unfolding record_usage current_period fresh_id current_time clock pure ◌>>=◌ continue
record_usage-usage_of k tenant_id metric amount s u t m p on e =
    subst
      (λ b.
        usage_of t m p (record_enabled k tenant_id metric amount b s).1.db.usage_meters
        ≡ usage_of t m p s.db.usage_meters
          + (if tenant_id == t && (metric == m && period_of k (k.now (suc s.tick)) == p)
              then amount
              else 0))
      (sym on) (counted (ap (λ b. (record_enabled k tenant_id metric amount b s).0) (sym on) ∙ e))
  where
    counted :
        (record_enabled k tenant_id metric amount true s).0 ≡ ok u
        → usage_of t m p (record_enabled k tenant_id metric amount true s).1.db.usage_meters
          ≡ usage_of t m p s.db.usage_meters
            + (if tenant_id == t && (metric == m && period_of k (k.now (suc s.tick)) == p)
                then amount
                else 0)
    counted h = upsert_usage-ok t m p _ s.db _ (execute-ok k _ _ u h)
