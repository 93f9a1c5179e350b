-- ===== src/Kernel/Validate.antt =====
-- `FieldDefinition::validate_value` of crates/contracts/src/field.rs, `validate_against_type` of
-- crates/kernel/src/record.rs, and the checks of crates/kernel/src/object.rs and workflow.rs.
use Prim.Native.String.{len, slice}
use latent_db.Prelude.{
  String, Bool, true, false, not, ◌&&◌, ◌||◌, Option, none, some, List, [], ◌∷◌, ◌==◌,
  if◌then◌else◌, eqb, format, has_str, is_none, is_some, is_blank, unwrap_or,
}
use latent_db.Contracts.Json.{
  Value, null, number, Items, nil, item, JsonMap, get, is_null, is_string, is_boolean, is_number,
  as_str, as_array,
}
use latent_db.Contracts.Error.{Result, ok, err, validation, ◌>>◌}
use latent_db.Contracts.Field.{FieldType, FieldDefinition, ObjectTypeDef}
use latent_db.Contracts.Workflow.{WorkflowDef, Transition, state}
use latent_db.Kernel.Host.{Host}

abbrev pub check : Bool → String → Result (Unit {0})
check true message = ok tt
check false message = err (validation message)

abbrev pub about : FieldDefinition → String → String
about f message = format ("field '" ∷ f.key ∷ message ∷ [])

-- An integer of minor units.
abbrev pub is_integer : Host → Value → Bool
is_integer h (number n) = h.is_i64 n || h.is_u64 n
is_integer h _ = false

abbrev has_options : List String → Bool
has_options [] = false
has_options (o ∷ os) = true

-- `enum_options.join(", ")`
pub join : List String → String
join [] = ""
join (s ∷ []) = s
join (s ∷ t ∷ rest) = format (s ∷ ", " ∷ join (t ∷ rest) ∷ [])

-- Ten bytes with a dash at the fifth and the eighth.
unfoldable pub is_date_shape : String → Bool
is_date_shape s = eqb (len s) 10 && (slice s 4 5 == "-" && slice s 7 8 == "-")

-- Each element is an allowed option.
unfoldable pub check_options : FieldDefinition → Items → Result (Unit {0})
check_options f nil = ok tt
check_options f (item v vs) = elim (as_str v) [
  | none ↦ err (validation (about f "' must be an array of strings"))
  | some s ↦
      let rest = check_options f vs in
      if has_str f.enum_options s
      then rest
      else err (validation (about f (format ("' value '" ∷ s ∷ "' is not an allowed option" ∷ []))))
]

abbrev pub on_str : Option String → String → (String → Result (Unit {0})) → Result (Unit {0})
on_str none message test = err (validation message)
on_str (some s) message test = test s

abbrev pub on_array : Option Items → String → (Items → Result (Unit {0})) → Result (Unit {0})
on_array none message test = err (validation message)
on_array (some xs) message test = test xs

-- A value that is not null, by the field's type.
unfoldable pub check_type : Host → FieldDefinition → FieldType → Value → Result (Unit {0})
unfolding is_date_shape check_options
check_type h f FieldType.text v = check (is_string v) (about f "' must be a string")
check_type h f FieldType.long_text v = check (is_string v) (about f "' must be a string")
check_type h f FieldType.number v = check (is_number v) (about f "' must be a number")
check_type h f FieldType.money v =
    check (is_integer h v) (about f "' (money) must be an integer of minor units (cents)")
check_type h f FieldType.boolean v = check (is_boolean v) (about f "' must be a boolean")
check_type h f FieldType.date v =
    on_str (as_str v) (about f "' must be a YYYY-MM-DD string")
      λ s. check (is_date_shape s) (about f "' must be YYYY-MM-DD")
check_type h f FieldType.date_time v =
    on_str (as_str v) (about f "' must be an RFC3339 string")
      λ s. check (h.is_rfc3339 s) (about f "' must be an RFC3339 timestamp")
check_type h f FieldType.enum v = on_str (as_str v) (about f "' must be a string enum value") λ s.
    check (has_str f.enum_options s)
      (about f (format ("' must be one of [" ∷ join f.enum_options ∷ "]" ∷ [])))
check_type h f FieldType.multi_enum v =
    on_array (as_array v) (about f "' must be an array") (check_options f)
check_type h f FieldType.json v = ok tt
check_type h f FieldType.record_ref v =
    check (is_string v) (about f "' must be a reference id string")
check_type h f FieldType.user_ref v =
    check (is_string v) (about f "' must be a reference id string")
check_type h f FieldType.file_ref v =
    check (is_string v) (about f "' must be a reference id string")
check_type h f FieldType.formula v = ok tt

-- `FieldDefinition::validate_value`
unfoldable pub validate_value : Host → FieldDefinition → Value → Result (Unit {0})
validate_value h f v =
    if is_null v
    then check (not f.required) (about f "' is required")
    else check_type h f f.field_type v

-- The loop of `validate_against_type` over the type's fields.
unfoldable pub validate_fields : Host → List FieldDefinition → JsonMap → Result (Unit {0})
validate_fields h [] m = ok tt
validate_fields h (f ∷ fs) m =
    validate_value h f (unwrap_or (get m f.key) null) >> validate_fields h fs m

unfoldable pub validate_against_type : Host → ObjectTypeDef → JsonMap → Result (Unit {0})
unfolding validate_fields
validate_against_type h t m = validate_fields h t.fields m

unfoldable pub validate_field_def : FieldDefinition → Result (Unit {0})
validate_field_def f = elim f.field_type [
  | FieldType.enum ↦ check (has_options f.enum_options) (about f "' must define enum_options")
  | FieldType.multi_enum ↦ check (has_options f.enum_options) (about f "' must define enum_options")
  | FieldType.record_ref ↦
      check (not (is_none f.ref_object_type)) (about f "' must set ref_object_type")
  | _ ↦ ok tt
]

-- The loop of `validate_object_type`, over the keys seen so far.
unfoldable pub validate_field_defs : List String → List FieldDefinition → Result (Unit {0})
unfolding validate_field_def
validate_field_defs seen [] = ok tt
validate_field_defs seen (f ∷ fs) = do
  check (not (is_blank f.key)) "field key is required"
  check (not (has_str seen f.key)) (format ("duplicate field key '" ∷ f.key ∷ "'" ∷ []))
  validate_field_def f
  validate_field_defs (f.key ∷ seen) fs

unfoldable pub validate_object_type : ObjectTypeDef → Result (Unit {0})
unfolding validate_field_defs
validate_object_type t = do
  check (not (is_blank t.key)) "object type key is required"
  validate_field_defs [] t.fields

unfoldable pub validate_transitions : WorkflowDef → List Transition → Result (Unit {0})
validate_transitions w [] = ok tt
validate_transitions w (t ∷ ts) =
    check (is_some (state w t.from) && is_some (state w t.to))
      (format ("transition '" ∷ t.key ∷ "' references unknown state" ∷ []))
    >> validate_transitions w ts

unfoldable pub validate_workflow : WorkflowDef → Result (Unit {0})
unfolding validate_transitions
validate_workflow w = do
  check (not (is_blank w.key || is_blank w.object_type)) "workflow key and object_type are required"
  check (is_some (state w w.initial_state)) "initial_state must be one of the states"
  validate_transitions w w.transitions
