-- ===== src/Kernel/Accepted.antt =====
-- What holds of the values and definitions that the validations let through.
pub mod Fits
pub mod Values
use latent_db.Prelude.{
  ℕ, String, Bool, true, false, not, ◌&&◌, ◌||◌, List, [], ◌∷◌, ◌≡◌, refl, sym, subst, ◌⊎◌, inl,
  inr, if◌then◌else◌, arith, unwrap_or, Memᴰ, has_str, is_blank, is_some, Bool-cases, mem-of-any,
  eq_iff, ◌==◌, eqb,
}
use mathlib.Core.List.Memᴰ
use latent_db.Contracts.Json.{
  Value, null, bool, number, string, array, object, Items, nil, item, JsonMap, get, is_null,
  is_string, is_boolean, is_number, as_str, as_array,
}
use Prim.Native.String.{len, slice}
use latent_db.Contracts.Error.{Result, ok, err, panic, validation, ◌>>◌}
use latent_db.Contracts.Field.{FieldDefinition, FieldType, ObjectTypeDef}
use latent_db.Contracts.Workflow.{WorkflowDef, Transition, state}
use latent_db.Kernel.Host.{Host}
use latent_db.Kernel.Validate.{
  check, check_type, check_options, is_date_shape, is_integer, on_str, on_array, validate_value,
  validate_fields, validate_against_type, validate_field_def, validate_field_defs,
  validate_object_type, validate_transitions, validate_workflow,
}

pub then-ok : (m n : Result (Unit {0})) → (m >> n) ≡ ok tt → (m ≡ ok tt) × (n ≡ ok tt)
then-ok (ok u) n e = (refl, e)
then-ok (err x) n e = absurd (grind arith)
then-ok panic n e = absurd (grind arith)

pub check-ok : (b : Bool) (message : String) → check b message ≡ ok tt → b ≡ true
check-ok true message e = refl
check-ok false message e = absurd (grind arith)

-- No key stands in the list twice, and none of those seen before stands in it.
pub data AreNew : List String → List FieldDefinition → Type 0 where
  no_field : {seen : List String} → AreNew seen []
  new_field :
      {seen : List String} {f : FieldDefinition} {fs : List FieldDefinition}
      → is_blank f.key ≡ false
      → has_str seen f.key ≡ false
      → AreNew (f.key ∷ seen) fs
      → AreNew seen (f ∷ fs)

defs-AreNew :
    (seen : List String) (fs : List FieldDefinition)
    → validate_field_defs seen fs ≡ ok tt
    → AreNew seen fs
unfolding validate_field_defs
defs-AreNew seen [] e = no_field
defs-AreNew seen (f ∷ fs) e =
    let (a, e1) = then-ok (check (not (is_blank f.key)) _) _ e in
    let (b, e2) = then-ok (check (not (has_str seen f.key)) _) _ e1 in
    let (c, e3) = then-ok (validate_field_def f) _ e2 in
    let a' = check-ok (not (is_blank f.key)) _ a in
    let b' = check-ok (not (has_str seen f.key)) _ b in
    new_field (grind arith) (grind arith) (defs-AreNew (f.key ∷ seen) fs e3)

-- An object type that is accepted has a key that is not blank, and so has each of its fields; and
-- no two of its fields have the same key.
pub validate_object_type-AreNew :
    (t : ObjectTypeDef)
    → validate_object_type t ≡ ok tt
    → (is_blank t.key ≡ false) × AreNew [] t.fields
unfolding validate_object_type
validate_object_type-AreNew t e =
    let (a, e1) = then-ok (check (not (is_blank t.key)) _) _ e in
    let a' = check-ok (not (is_blank t.key)) _ a in (grind arith, defs-AreNew [] t.fields e1)

validate_transitions-mem :
    (w : WorkflowDef) (ts : List Transition) (t : Transition)
    → validate_transitions w ts ≡ ok tt
    → Memᴰ t ts
    → (is_some (state w t.from) ≡ true) × (is_some (state w t.to) ≡ true)
unfolding validate_transitions
validate_transitions-mem w [] t e m = absurd (Memᴰ.not-nil m)
validate_transitions-mem w (u ∷ ts) t e (Memᴰ.head q) =
    let (a, b) = then-ok (check (is_some (state w u.from) && is_some (state w u.to)) _) _ e in
    let c = check-ok (is_some (state w u.from) && is_some (state w u.to)) _ a in
    subst (λ x. (is_some (state w x.from) ≡ true) × (is_some (state w x.to) ≡ true)) (sym q)
      (grind arith, grind arith)
validate_transitions-mem w (u ∷ ts) t e (Memᴰ.tail n) =
    let (a, b) = then-ok (check (is_some (state w u.from) && is_some (state w u.to)) _) _ e in
    validate_transitions-mem w ts t b n

-- A workflow that is accepted starts in one of its states, and every transition of it leads from
-- one of its states to one of its states.
pub validate_workflow-states :
    (w : WorkflowDef) (t : Transition)
    → validate_workflow w ≡ ok tt
    → Memᴰ t w.transitions
    → (is_some (state w w.initial_state) ≡ true)
      × (is_some (state w t.from) ≡ true)
      × (is_some (state w t.to) ≡ true)
unfolding validate_workflow
validate_workflow-states w t e m =
    let (a, e1) = then-ok (check (not (is_blank w.key || is_blank w.object_type)) _) _ e in
    let (b, e2) = then-ok (check (is_some (state w w.initial_state)) _) _ e1 in
    let (c, d) = validate_transitions-mem w w.transitions t e2 m in
    (check-ok (is_some (state w w.initial_state)) _ b, c, d)
