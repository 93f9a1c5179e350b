-- ===== src/Kernel/Accepted/Values.antt =====
-- `validate_value` of crates/contracts/src/field.rs and `validate_against_type` of
-- crates/kernel/src/record.rs against the values that fit the types of fields.
use latent_db.Prelude.{
  String, Bool, true, false, not, List, [], ◌∷◌, ◌≡◌, refl, sym, subst, ◌⊎◌, inl, inr,
  if◌then◌else◌, arith, unwrap_or, Memᴰ,
}
use mathlib.Core.List.Memᴰ
use latent_db.Contracts.Json.{Value, null, JsonMap, get, is_null}
use latent_db.Contracts.Error.{Result, ok}
use latent_db.Contracts.Field.{FieldDefinition, ObjectTypeDef}
use latent_db.Kernel.Host.{Host}
use latent_db.Kernel.Validate.{check, validate_value, validate_fields, validate_against_type}
use latent_db.Kernel.Accepted.{then-ok, check-ok}
use latent_db.Kernel.Accepted.Fits.{Fits, check_type-Fits}

-- The value of the field `f` that the map holds, null where it holds none.
abbrev pub value_of : JsonMap → FieldDefinition → Value
value_of m f = unwrap_or (get m f.key) null

validate_fields-mem :
    (h : Host) (fs : List FieldDefinition) (m : JsonMap) (f : FieldDefinition)
    → validate_fields h fs m ≡ ok tt
    → Memᴰ f fs
    → validate_value h f (value_of m f) ≡ ok tt
unfolding validate_fields
validate_fields-mem h [] m f e n = absurd (Memᴰ.not-nil n)
validate_fields-mem h (g ∷ fs) m f e (Memᴰ.head q) =
    let (a, b) = then-ok (validate_value h g (value_of m g)) _ e in
    subst (λ x. validate_value h x (value_of m x) ≡ ok tt) (sym q) a
validate_fields-mem h (g ∷ fs) m f e (Memᴰ.tail n) =
    let (a, b) = then-ok (validate_value h g (value_of m g)) _ e in validate_fields-mem h fs m f b n

value_by :
    (f : FieldDefinition) (message : String) (r : Result (Unit {0})) (b : Bool)
    → (if b then check (not f.required) message else r) ≡ ok tt
    → ((b ≡ true) × (f.required ≡ false)) ⊎ ((b ≡ false) × (r ≡ ok tt))
value_by f message r true q = let c = check-ok (not f.required) message q in inl (refl, grind arith)
value_by f message r false q = inr (refl, q)

-- Where a map of values is accepted for an object type, each field of the type either holds no value
-- or null, and is not required; or it holds a value that is not null and is of the field's type: a
-- string, a number, an amount that is a 64-bit integer, a Boolean, ten bytes with a dash at the
-- fifth and the eighth, a timestamp, an option of the field, or an array of its options; JSON and
-- formula fields take any value.
pub validate_against_type-fields :
    (h : Host) (t : ObjectTypeDef) (m : JsonMap) (f : FieldDefinition)
    → validate_against_type h t m ≡ ok tt
    → Memᴰ f t.fields
    → ((is_null (value_of m f) ≡ true) × (f.required ≡ false))
      ⊎ ((is_null (value_of m f) ≡ false) × Fits h f f.field_type (value_of m f))
unfolding validate_against_type validate_value
validate_against_type-fields h t m f e n =
    elim (value_by f _ _ (is_null (value_of m f)) (validate_fields-mem h t.fields m f e n)) [
      | inl p ↦ inl p
      | inr p ↦ inr (p.0, check_type-Fits h f f.field_type (value_of m f) p.1)
    ]
