-- ===== src/Kernel/Builder/Publishable.antt =====
-- crates/kernel/src/builder.rs: what a definition without issues is like
use latent_db.Prelude.{
  ℕ, suc, String, Bool, true, false, not, ◌&&◌, ◌||◌, Option, none, some, List, [], ◌∷◌, ◌++◌, any,
  ◌≡◌, refl, sym, ◌∙◌, ◌==◌, arith, is_blank, All, Bool-cases, inl, inr,
}
use mathlib.Core.List.{flat_map}
use latent_db.Contracts.Field.{FieldDefinition, ObjectTypeDef}
use latent_db.Contracts.Workflow.{WorkflowDef, Transition}
use latent_db.Contracts.Builder.{BuilderDefinition, BuilderRelation}
use latent_db.Kernel.Builder.Validation.{
  when, issue, key_path, has_options, no_options, validate_key, field_issues, fields_issues,
  display_issues, workflow_issues, transition_issues, relation_issues, definition_issues,
  is_bad_key, is_reference, is_known_ref, has_state, no_fields, is_many_to_many,
}

-- A field that may stand in a published definition, after fields with the keys `seen`.
pub record Sound (types : List ObjectTypeDef) (def : BuilderDefinition) (seen : List String)
    (f : FieldDefinition) : Type 0 where
  pub named : is_blank f.key ≡ false
  pub well_named : is_bad_key f.key ≡ false
  pub fresh : any (λ s. s == f.key) seen ≡ false
  pub options : (has_options f.field_type && no_options f.enum_options) ≡ false
  pub known :
      (is_reference f.field_type && not (is_known_ref types def.key f.ref_object_type)) ≡ false
  pub confirmed :
      (f.restricted && (f.ai_visible && not def.sensitive_ai_visibility_confirmed)) ≡ false

abbrev pub AreSound :
    List ObjectTypeDef → BuilderDefinition → List String → List FieldDefinition → Type 0
AreSound types def seen [] = Unit
AreSound types def seen (f ∷ fields) =
    Sound types def seen f × AreSound types def (f.key ∷ seen) fields

abbrev pub ShowsOneOf : List FieldDefinition → Option String → Type 0
ShowsOneOf fields none = Unit
ShowsOneOf fields (some key) = any (λ f. f.key == key) fields ≡ true

-- The workflow starts in one of its states, and its transitions stay within them.
abbrev pub IsClosed : Option WorkflowDef → Type 0
IsClosed none = Unit
IsClosed (some w) =
    (has_state w w.initial_state ≡ true)
    × All (λ t. (has_state w t.from ≡ true) × (has_state w t.to ≡ true)) w.transitions

-- The relation ends at an object type that is there, or at the definition's own, and is of a kind that
-- can be published.
abbrev pub IsPossible : List ObjectTypeDef → String → BuilderRelation → Type 0
IsPossible types def_key rel =
    ((rel.to_object == def_key || any (λ o. o.key == rel.to_object) types) ≡ true)
    × (is_many_to_many rel.kind ≡ false)

-- What the validation promises of a definition.
pub record Publishable (types : List ObjectTypeDef) (def : BuilderDefinition) : Type 0 where
  pub named : is_blank def.key ≡ false
  pub well_named : is_bad_key def.key ≡ false
  pub labelled : is_blank def.label ≡ false
  pub has_fields : no_fields def.fields ≡ false
  pub fields : AreSound types def [] def.fields
  pub display : ShowsOneOf def.fields def.display_field
  pub workflow : IsClosed def.workflow
  pub relations : All (IsPossible types def.key) def.relations

nil_both {ℓ} : {A : Type ℓ} (xs ys : List A) → xs ++ ys ≡ [] → (xs ≡ []) × (ys ≡ [])
nil_both [] ys e = (refl, e)
nil_both (x ∷ xs) ys e = absurd (grind arith)

when-nil : (b : Bool) (path message : String) → when b path message ≡ [] → b ≡ false
when-nil false path message e = refl
when-nil true path message e = absurd (grind arith)

key-nil :
    (path key : String)
    → validate_key path key ≡ []
    → (is_blank key ≡ false) × (is_bad_key key ≡ false)
unfolding validate_key
key-nil path key e = elim (Bool-cases (is_blank key)) [
  | inl b ↦
      let q : validate_key path key ≡ issue path "key is required" ∷ [] = rw b refl in
      absurd (grind arith)
  | inr b ↦
      let q : validate_key path key
          ≡ when (is_bad_key key) path "key must be snake_case and start with a letter" =
        rw b refl in
      (b, when-nil (is_bad_key key) _ _ (sym q ∙ e))
]

module _ (types : List ObjectTypeDef) (def : BuilderDefinition) where
  field-nil :
      (idx : ℕ) (seen : List String) (f : FieldDefinition)
      → field_issues types def idx seen f ≡ []
      → Sound types def seen f
  unfolding field_issues
  field-nil idx seen f e =
      let (a, e1) = nil_both (validate_key (key_path idx) f.key) _ e in
      let (b, e2) = nil_both (when (any (λ s. s == f.key) seen) _ _) _ e1 in
      let (c, e3) =
        nil_both (when (has_options f.field_type && no_options f.enum_options) _ _) _ e2 in
      let (d, g) =
        nil_both
          (when (is_reference f.field_type && not (is_known_ref types def.key f.ref_object_type)) _
            _)
          _ e3 in
      let (blank, bad) = key-nil (key_path idx) f.key a in
      record {
        named = blank;
        well_named = bad;
        fresh = when-nil _ _ _ b;
        options = when-nil _ _ _ c;
        known = when-nil _ _ _ d;
        confirmed = when-nil _ _ _ g;
      }

  fields-nil :
      (idx : ℕ) (seen : List String) (fields : List FieldDefinition)
      → fields_issues types def idx seen fields ≡ []
      → AreSound types def seen fields
  unfolding fields_issues
  fields-nil idx seen [] e = tt
  fields-nil idx seen (f ∷ fields) e =
      let (a, b) = nil_both (field_issues types def idx seen f) _ e in
      (field-nil idx seen f a, fields-nil (suc idx) (f.key ∷ seen) fields b)

  display-nil :
      (fields : List FieldDefinition) (o : Option String)
      → display_issues fields o ≡ []
      → ShowsOneOf fields o
  unfolding display_issues
  display-nil fields none e = tt
  display-nil fields (some key) e =
      let h = when-nil (not (any (λ f. f.key == key) fields)) _ _ e in grind arith

  transitions-nil :
      (w : WorkflowDef) (ts : List Transition)
      → flat_map (transition_issues w) ts ≡ []
      → All (λ t. (has_state w t.from ≡ true) × (has_state w t.to ≡ true)) ts
  unfolding flat_map
  transitions-nil w [] e = tt
  transitions-nil w (t ∷ ts) e =
      let (a, b) = nil_both (transition_issues w t) _ e in
      let h = when-nil (not (has_state w t.from) || not (has_state w t.to)) _ _ a in
      ((grind arith, grind arith), transitions-nil w ts b)

  workflow-nil : (o : Option WorkflowDef) → workflow_issues o ≡ [] → IsClosed o
  unfolding workflow_issues
  workflow-nil none e = tt
  workflow-nil (some w) e =
      let (a, b) = nil_both (when (not (has_state w w.initial_state)) _ _) _ e in
      let h = when-nil (not (has_state w w.initial_state)) _ _ a in
      (grind arith, transitions-nil w w.transitions b)

  relations-nil :
      (rels : List BuilderRelation)
      → flat_map (relation_issues types def.key) rels ≡ []
      → All (IsPossible types def.key) rels
  unfolding flat_map
  relations-nil [] e = tt
  relations-nil (rel ∷ rels) e =
      let (a, b) = nil_both (relation_issues types def.key rel) _ e in
      let (c, d) =
        nil_both
          (when (not (rel.to_object == def.key) && not (any (λ o. o.key == rel.to_object) types)) _
            _)
          _ a in
      let h = when-nil _ _ _ c in
      ((grind arith, when-nil (is_many_to_many rel.kind) _ _ d), relations-nil rels b)

  -- A definition that raises no issue is publishable.
  pub definition-nil : definition_issues types def ≡ [] → Publishable types def
  unfolding definition_issues
  definition-nil e =
      let (a, e1) = nil_both (validate_key "key" def.key) _ e in
      let (b, e2) = nil_both (when (is_blank def.label) _ _) _ e1 in
      let (c, e3) = nil_both (when (no_fields def.fields) _ _) _ e2 in
      let (d, e4) = nil_both (fields_issues types def 0 [] def.fields) _ e3 in
      let (f, e5) = nil_both (display_issues def.fields def.display_field) _ e4 in
      let (g, h) = nil_both (workflow_issues def.workflow) _ e5 in
      let (blank, bad) = key-nil "key" def.key a in
      record {
        named = blank;
        well_named = bad;
        labelled = when-nil _ _ _ b;
        has_fields = when-nil _ _ _ c;
        fields = fields-nil 0 [] def.fields d;
        display = display-nil def.fields def.display_field f;
        workflow = workflow-nil def.workflow g;
        relations = relations-nil def.relations h;
      }
