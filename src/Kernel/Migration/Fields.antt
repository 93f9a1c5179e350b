-- ===== src/Kernel/Migration/Fields.antt =====
-- crates/kernel/src/migration.rs: what `map_fields` decides of the fields of the two systems
use latent_db.Prelude.{
  String, Bool, true, false, Option, none, some, List, ◌++◌, map, any, select, ◌≡◌, ap, ◌∙◌, ◌==◌,
  eq_iff, eq_refl, arith, Bool-cases, inl, inr, Memᴰ, option_str_eq, mem-of-any, any-of-mem,
  mem-map, find-of-any, mem-select,
}
use mathlib.Core.List.Memᴰ
use latent_db.Contracts.Field.{FieldDefinition, ObjectTypeDef, field}
use latent_db.Contracts.Migration.{FieldMapping, MappingStatus, MigrationConflict}
use latent_db.Kernel.Migration.Sums.{eq_comm}
use latent_db.Kernel.Migration.Planner.{
  map_fields, target_mapping, mapping_onto, is_homeless, dropped_mapping,
}

-- A mapping that a person has to decide on.
abbrev pub is_open : MappingStatus → Bool
is_open MappingStatus.mapped = false
is_open MappingStatus.added_in_target = false
is_open _ = true

abbrev pub open_mappings : List FieldMapping → List FieldMapping
open_mappings = select (λ m. is_open m.status)

any_left :
    (p : FieldMapping → Bool) (xs ys : List FieldMapping)
    → any p xs ≡ true
    → any p (xs ++ ys) ≡ true
any_left p xs ys e = let (x, m, h) = mem-of-any p xs e in any-of-mem p _ (Memᴰ.append_left ys m) h

module _ (key : String) (source : ObjectTypeDef) where
  abbrev pub speaks_of : FieldDefinition → FieldMapping → Bool
  speaks_of sf m = option_str_eq m.source_field (some sf.key)

  abbrev pub fills : FieldDefinition → FieldMapping → Bool
  fills tf m = option_str_eq m.target_field (some tf.key)

  onto-speaks_of :
      (sf tf : FieldDefinition)
      → (tf.key == sf.key) ≡ true
      → any (λ f. f.key == tf.key) source.fields ≡ true
      → speaks_of sf (target_mapping source tf) ≡ true
  onto-speaks_of sf tf e h =
      let (y, f, q) = find-of-any (λ f. f.key == tf.key) source.fields h in
      let a = (eq_iff y.key tf.key).0 q in rw f (ap (λ k. k == sf.key) a ∙ e)

  kept-speaks_of :
      (sf : FieldDefinition) (tfs : List FieldDefinition)
      → Memᴰ sf source.fields
      → is_homeless tfs sf ≡ false
      → any (speaks_of sf) (map (target_mapping source) tfs) ≡ true
  kept-speaks_of sf tfs m e =
      let e' : any (λ tf. tf.key == sf.key) tfs ≡ true = grind arith in
      let (tf, n, q) = mem-of-any (λ tf. tf.key == sf.key) tfs e' in
      let h = any-of-mem (λ f. f.key == tf.key) source.fields m (eq_comm sf.key tf.key ∙ q) in
      any-of-mem (speaks_of sf) _ (mem-map (target_mapping source) tfs n) (onto-speaks_of sf tf q h)

  mapping_onto-fills :
      (tf : FieldDefinition) (o : Option FieldDefinition) → fills tf (mapping_onto tf o) ≡ true
  mapping_onto-fills tf none = eq_refl tf.key
  mapping_onto-fills tf (some sf) = eq_refl tf.key

  -- Nothing is passed over in silence: every field of the old object is the source of a mapping of the
  -- plan, and every field of the target is the target of one.
  pub map_fields-covers :
      (tfs : List FieldDefinition) (conflicts : List MigrationConflict)
      → let mappings = (map_fields key source tfs conflicts).0 in
        ((sf : FieldDefinition) → Memᴰ sf source.fields → any (speaks_of sf) mappings ≡ true)
        × ((tf : FieldDefinition) → Memᴰ tf tfs → any (fills tf) mappings ≡ true)
  unfolding map_fields
  map_fields-covers tfs conflicts = (
    λ sf m. elim (Bool-cases (is_homeless tfs sf)) [
      | inl e ↦
          any-of-mem (speaks_of sf) _
            (Memᴰ.append_right (map (target_mapping source) tfs)
              (mem-map dropped_mapping _ (mem-select (is_homeless tfs) source.fields m e)))
            (eq_refl sf.key)
      | inr e ↦
          any_left (speaks_of sf) (map (target_mapping source) tfs)
            (map dropped_mapping (select (is_homeless tfs) source.fields))
            (kept-speaks_of sf tfs m e)
    ],
    λ tf m.
        any-of-mem (fills tf) _ (Memᴰ.append_left _ (mem-map (target_mapping source) tfs m))
          (mapping_onto-fills tf (field source tf.key)),
  )
