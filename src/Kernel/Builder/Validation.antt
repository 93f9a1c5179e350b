-- ===== src/Kernel/Builder/Validation.antt =====
-- crates/kernel/src/builder.rs: the issues of a builder definition
use text.Mathlib.Text.{starts_with}
use latent_db.Prelude.{
  ℕ, suc, String, Bool, true, false, not, ◌&&◌, ◌||◌, Option, none, some, List, [], ◌∷◌, ◌++◌, any,
  ◌==◌, if◌then◌else◌, leb, eqb, is_blank, all_chars, first_char, decimal, format,
}
use mathlib.Core.List.{flat_map}
use latent_db.Contracts.Field.{FieldType, FieldDefinition, ObjectTypeDef}
use latent_db.Contracts.Workflow.{WorkflowDef, Transition}
use latent_db.Contracts.Builder.{BuilderDefinition, BuilderRelation, RelationKind, ValidationIssue}

abbrev pub issue : String → String → ValidationIssue
issue path message = record { path = path; message = message }

-- `if test { issues.push(issue(…)) }`
abbrev pub when : Bool → String → String → List ValidationIssue
when true path message = issue path message ∷ []
when false path message = []

abbrev pub is_lower : ℕ → Bool
is_lower c = leb 97 c && leb c 122

abbrev pub is_digit : ℕ → Bool
is_digit c = leb 48 c && leb c 57

-- 95 is the code of the underscore.
abbrev pub is_bad_key : String → Bool
is_bad_key key =
    not (all_chars (λ c. is_lower c || (is_digit c || eqb c 95)) key)
    || (starts_with key "_" || first_char is_digit key)

unfoldable pub validate_key : String → String → List ValidationIssue
validate_key path key =
    if is_blank key
    then issue path "key is required" ∷ []
    else when (is_bad_key key) path "key must be snake_case and start with a letter"

abbrev pub has_options : FieldType → Bool
has_options FieldType.enum = true
has_options FieldType.multi_enum = true
has_options _ = false

abbrev pub is_reference : FieldType → Bool
is_reference FieldType.record_ref = true
is_reference _ = false

abbrev pub no_options : List String → Bool
no_options [] = true
no_options (s ∷ rest) = false

-- The target is an object type of the tenant, or the object that is being defined.
abbrev pub is_known : List ObjectTypeDef → String → String → Bool
is_known types def_key target = any (λ o. o.key == target) types || target == def_key

abbrev pub is_known_ref : List ObjectTypeDef → String → Option String → Bool
is_known_ref types def_key none = false
is_known_ref types def_key (some target) = is_known types def_key target

abbrev pub path_of : ℕ → String
path_of idx = format ("fields[" ∷ decimal idx ∷ "]" ∷ [])

abbrev pub key_path : ℕ → String
key_path idx = format ("fields[" ∷ decimal idx ∷ "].key" ∷ [])

-- The body of the loop over the fields; `seen` are the keys before this one.
unfoldable pub field_issues :
    List ObjectTypeDef
    → BuilderDefinition
    → ℕ
    → List String
    → FieldDefinition
    → List ValidationIssue
unfolding validate_key
field_issues types def idx seen f =
    validate_key (key_path idx) f.key
    ++ (when (any (λ s. s == f.key) seen) (key_path idx) "field keys must be unique"
        ++ (when (has_options f.field_type && no_options f.enum_options) (path_of idx)
              "enum fields require options"
            ++ (when
                  (is_reference f.field_type && not (is_known_ref types def.key f.ref_object_type))
                  (path_of idx) "reference target must be an existing object type"
                ++ when
                    (f.restricted && (f.ai_visible && not def.sensitive_ai_visibility_confirmed))
                    (path_of idx) "sensitive AI visibility requires explicit confirmation")))

unfoldable pub fields_issues :
    List ObjectTypeDef
    → BuilderDefinition
    → ℕ
    → List String
    → List FieldDefinition
    → List ValidationIssue
unfolding field_issues
fields_issues types def idx seen [] = []
fields_issues types def idx seen (f ∷ fields) =
    field_issues types def idx seen f ++ fields_issues types def (suc idx) (f.key ∷ seen) fields

unfoldable pub display_issues : List FieldDefinition → Option String → List ValidationIssue
display_issues fields none = []
display_issues fields (some key) =
    when (not (any (λ f. f.key == key) fields)) "display_field"
      "display field must be one of the fields"

abbrev pub has_state : WorkflowDef → String → Bool
has_state w key = any (λ s. s.key == key) w.states

abbrev pub transition_issues : WorkflowDef → Transition → List ValidationIssue
transition_issues w t =
    when (not (has_state w t.from) || not (has_state w t.to)) "workflow.transitions"
      "transition references unknown state"

unfoldable pub workflow_issues : Option WorkflowDef → List ValidationIssue
unfolding flat_map
workflow_issues none = []
workflow_issues (some w) =
    when (not (has_state w w.initial_state)) "workflow.initial_state" "initial state must exist"
    ++ flat_map (transition_issues w) w.transitions

abbrev pub is_many_to_many : RelationKind → Bool
is_many_to_many RelationKind.many_to_many = true
is_many_to_many _ = false

abbrev pub relation_issues : List ObjectTypeDef → String → BuilderRelation → List ValidationIssue
relation_issues types def_key rel =
    when (not (rel.to_object == def_key) && not (any (λ o. o.key == rel.to_object) types))
      "relations" "relation target must exist or be this draft object"
    ++ when (is_many_to_many rel.kind) "relations"
        "many-to-many relations are not publishable in this build"

abbrev pub no_fields : List FieldDefinition → Bool
no_fields [] = true
no_fields (f ∷ fields) = false

-- The issues that `validate_builder_definition` collects, in its order.
unfoldable pub definition_issues : List ObjectTypeDef → BuilderDefinition → List ValidationIssue
unfolding validate_key fields_issues display_issues workflow_issues flat_map
definition_issues types def =
    validate_key "key" def.key
    ++ (when (is_blank def.label) "label" "display name is required"
        ++ (when (no_fields def.fields) "fields" "at least one field is required"
            ++ (fields_issues types def 0 [] def.fields
                ++ (display_issues def.fields def.display_field
                    ++ (workflow_issues def.workflow
                        ++ flat_map (relation_issues types def.key) def.relations)))))
