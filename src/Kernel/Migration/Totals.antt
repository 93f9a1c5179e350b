-- ===== src/Kernel/Migration/Totals.antt =====
-- crates/kernel/src/migration.rs: what the numbers of a plan add up to
use latent_db.Prelude.{
  ℕ, ◌+◌, String, true, not, Option, none, some, List, [], ◌∷◌, ◌++◌, any, ◌≡◌, refl, ◌∙◌, ◌==◌,
  arith, if◌then◌else◌, Bool-cases, inl, inr, is_some,
}
use latent_db.Contracts.Field.{ObjectTypeDef}
use latent_db.Contracts.Record.{nonneg}
use latent_db.Contracts.Builder.{BuilderDefinition}
use latent_db.Contracts.Migration.{ObjectMapping, total_records, sum_counts}
use latent_db.Kernel.Migration.Sums.{Distinct}
use latent_db.Kernel.Migration.Planner.{Counts, count_of, by_key, snapshot_from_objects}
use latent_db.Kernel.Migration.Plans.{
  Progress, plan_matched, plan_target, plan_targets, plan_source, plan_sources, has_target,
  build_plan, no_progress, difference,
}
use latent_db.Kernel.Migration.Sums.{sum_where, sum_where-ext, sum_where-not, sum_where-shared}

-- The records that the mappings of a plan speak of.
unfoldable pub carried : List ObjectMapping → ℕ
carried [] = 0
carried (m ∷ ms) = m.record_count + carried ms

carried_++ : (xs ys : List ObjectMapping) → carried (xs ++ ys) ≡ carried xs + carried ys
unfolding carried
carried_++ [] ys = omega arith
carried_++ (x ∷ xs) ys = let ih = carried_++ xs ys in omega arith

carried-added :
    (xs : List ObjectMapping) (m : ObjectMapping)
    → carried (xs ++ m ∷ []) ≡ carried xs + m.record_count
unfolding carried
carried-added xs m = let e = carried_++ xs (m ∷ []) in omega arith

module _ (counts : Counts) where
  -- The counts of the old objects without, and with, a counterpart in the template.
  abbrev pub staying : List BuilderDefinition → List ObjectTypeDef → ℕ
  staying targets olds =
      sum_where (λ (o : ObjectTypeDef). o.key) (count_of counts)
        (λ o. not (has_target targets o.key)) olds

  abbrev moving : List BuilderDefinition → List ObjectTypeDef → ℕ
  moving targets olds =
      sum_where (λ (o : ObjectTypeDef). o.key) (count_of counts) (λ o. has_target targets o.key)
        olds

  abbrev matched : List ObjectTypeDef → List BuilderDefinition → ℕ
  matched olds targets =
      sum_where (λ (d : BuilderDefinition). d.key) (count_of counts)
        (λ d. is_some (by_key olds d.key)) targets

  total_records-snapshot :
      (olds : List ObjectTypeDef)
      → total_records (snapshot_from_objects olds counts)
        ≡ sum_where (λ (o : ObjectTypeDef). o.key) (count_of counts) (λ o. true) olds
  unfolding total_records sum_counts snapshot_from_objects sum_where
  total_records-snapshot [] = refl
  total_records-snapshot (o ∷ olds) = let ih = total_records-snapshot olds in omega arith

  by_key-any :
      (olds : List ObjectTypeDef) (key : String)
      → is_some (by_key olds key) ≡ any (λ o. o.key == key) olds
  unfolding by_key
  by_key-any [] key = refl
  by_key-any (o ∷ olds) key = let ih = by_key-any olds key in ground arith

  abbrev Planned : Progress → Progress → ℕ → ℕ → Type 0
  Planned p q mapped n =
      (q.records_mappable ≡ p.records_mappable + mapped)
      × (carried q.object_mappings ≡ carried p.object_mappings + n)

  plan_matched-Planned :
      (p : Progress) (d : BuilderDefinition) (o : Option ObjectTypeDef)
      → let n = if is_some o then count_of counts d.key else 0 in
        Planned p (plan_matched counts p d o) n n
  plan_matched-Planned p d none = (omega arith, carried-added p.object_mappings _)
  plan_matched-Planned p d (some o) = (refl, carried-added p.object_mappings _)

  plan_target-Planned :
      (olds : List ObjectTypeDef) (p : Progress) (d : BuilderDefinition)
      → let n = if is_some (by_key olds d.key) then count_of counts d.key else 0 in
        Planned p (plan_target olds counts p d) n n
  unfolding plan_target
  plan_target-Planned olds p d = plan_matched-Planned p d (by_key olds d.key)

  plan_targets-Planned :
      (olds : List ObjectTypeDef) (p : Progress) (targets : List BuilderDefinition)
      → Planned p (plan_targets olds counts p targets) (matched olds targets) (matched olds targets)
  unfolding plan_targets sum_where
  plan_targets-Planned olds p [] = (omega arith, omega arith)
  plan_targets-Planned olds p (d ∷ ds) =
      let (a, b) = plan_target-Planned olds p d in
      let (c, e) = plan_targets-Planned olds (plan_target olds counts p d) ds in
      (omega arith, omega arith)

  plan_source-Planned :
      (targets : List BuilderDefinition) (p : Progress) (o : ObjectTypeDef)
      → Planned p
          (plan_source targets counts p o)
          0
          (if not (has_target targets o.key) then count_of counts o.key else 0)
  unfolding plan_source
  plan_source-Planned targets p o = elim (Bool-cases (has_target targets o.key)) [
    | inl e ↦ grind arith
    | inr e ↦ let c = carried-added p.object_mappings in grind arith
  ]

  plan_sources-Planned :
      (targets : List BuilderDefinition) (p : Progress) (olds : List ObjectTypeDef)
      → Planned p (plan_sources targets counts p olds) 0 (staying targets olds)
  unfolding plan_sources sum_where
  plan_sources-Planned targets p [] = (omega arith, omega arith)
  plan_sources-Planned targets p (o ∷ olds) =
      let (a, b) = plan_source-Planned targets p o in
      let (c, e) = plan_sources-Planned targets (plan_source targets counts p o) olds in
      (omega arith, omega arith)

  -- The template's matching objects and the old objects that match them count the same records.
  matched-moving :
      (olds : List ObjectTypeDef) (targets : List BuilderDefinition)
      → Distinct (λ (o : ObjectTypeDef). o.key) olds
      → Distinct (λ (d : BuilderDefinition). d.key) targets
      → matched olds targets ≡ moving targets olds
  matched-moving olds targets distinct_olds distinct_targets =
      sum_where-ext (λ (d : BuilderDefinition). d.key) (count_of counts) _ _ targets
        (λ d. by_key-any olds d.key)
      ∙ sum_where-shared (λ (d : BuilderDefinition). d.key) (λ (o : ObjectTypeDef). o.key)
          (count_of counts) targets olds distinct_targets distinct_olds

difference-sum : (a b n : ℕ) → b + n ≡ a → difference a b ≡ nonneg n
difference-sum a b n e = ground arith

-- Where no two installed types and no two objects of the template have the same key, every live record
-- of an installed type is counted by exactly one object mapping of the plan; the records of the types
-- that the template also has are the mappable ones, and those of the other types, no more and no
-- fewer, are the unmapped ones, so that the difference of the code is never negative.
pub build_plan-totals :
    (key : String) (olds : List ObjectTypeDef) (counts : Counts) (targets : List BuilderDefinition)
    → Distinct (λ (o : ObjectTypeDef). o.key) olds
    → Distinct (λ (d : BuilderDefinition). d.key) targets
    → let plan = build_plan key olds counts targets in
      (carried plan.object_mappings ≡ plan.summary.source_records)
      × (plan.summary.records_mappable + staying counts targets olds ≡ plan.summary.source_records)
      × (plan.summary.records_unmapped ≡ nonneg (staying counts targets olds))
unfolding build_plan carried total_records
build_plan-totals key olds counts targets distinct_olds distinct_targets =
    let (a, b) = plan_targets-Planned counts olds no_progress targets in
    let (c, d) =
      plan_sources-Planned counts targets (plan_targets olds counts no_progress targets) olds in
    let shared = matched-moving counts olds targets distinct_olds distinct_targets in
    let all = total_records-snapshot counts olds in
    let split =
      sum_where-not (λ (o : ObjectTypeDef). o.key) (count_of counts) (λ o. has_target targets o.key)
        olds in
    let mappable : (build_plan key olds counts targets).summary.records_mappable
          + staying counts targets olds
        ≡ total_records (snapshot_from_objects olds counts) =
      omega arith in
    (omega arith, mappable, difference-sum _ _ _ mappable)
