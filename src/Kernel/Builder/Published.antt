-- ===== src/Kernel/Builder/Published.antt =====
-- crates/kernel/src/builder.rs: a draft that is published has been checked
use latent_db.Prelude.{
  String, true, none, List, [], ◌∷◌, ◌≡◌, refl, sym, ap, ◌∙◌, ◌==◌, arith, inl, inr, ◌⊎◌, map,
  select, sort_by, str_leb,
}
use latent_db.Contracts.Audit.{AuditEvent}
use latent_db.Contracts.Error.{Result, ok, err, panic, validation}
use latent_db.Contracts.Auth.{AuthContext}
use latent_db.Contracts.Permission.{Action}
use latent_db.Contracts.Field.{ObjectTypeDef}
use latent_db.Contracts.Builder.{
  BuilderDefinition, BuilderDraft, ValidationIssue, BuilderValidationResult, PublishBuilderResult,
}
use latent_db.Kernel.Host.{Kernel}
use latent_db.Kernel.Store.{Db}
use latent_db.Kernel.Exec.{State, rescue, ensure, query, recover, pure}
use latent_db.Kernel.Exec.Frames.{Guarantee, Frames, Frames-execute, frames_rules}
use latent_db.Kernel.Exec.Returns.{bind-step, query-ok, ensure-ok, ok_inj}
use latent_db.Kernel.Histories.Lists.{inserted}
use latent_db.Kernel.Audit.{insert_audit, add_audit}
use latent_db.Kernel.Allows.{Denies}
use latent_db.Kernel.Allows.Basics.{authorize-Frames}
use latent_db.Kernel.Rbac.{authorize}
use latent_db.Kernel.Objects.{list_object_types}
use latent_db.Kernel.Builder.Validation.{definition_issues}
use latent_db.Kernel.Builder.Drafts.{
  get_builder_draft, is_empty, validate_builder_definition, publish_builder_draft,
}
use latent_db.Kernel.Builder.Publishable.{Publishable, definition-nil}

-- The object types of a tenant, as they are listed.
abbrev pub types_of : String → Db → List ObjectTypeDef
types_of tenant_id db =
    sort_by (λ a b. str_leb a.key b.key)
      (map (λ r. r.def) (select (λ r. r.tenant_id == tenant_id) db.object_types))

-- The checks of a call leave the object types alone.
same_types : Guarantee
same_types = record {
  rel = λ a b. b.object_types ≡ a.object_types;
  rel_refl = λ d. refl;
  rel_trans = λ a b c p q. q ∙ p;
}

empty-nil : (issues : List ValidationIssue) → is_empty issues ≡ true → issues ≡ []
empty-nil [] e = refl
empty-nil (i ∷ issues) e = absurd (grind arith)

rescued-ok :
    {A : Type 0} (d : A) (p : Result A × State) (a : A)
    → (rescue d p).0 ≡ ok a
    → (p.0 ≡ ok a) ⊎ (a ≡ d)
unfolding rescue
rescued-ok d (ok x, s) a e = inl e
rescued-ok d (err x, s) a e = inr (sym (ok_inj e))
rescued-ok d (panic, s) a e = absurd (grind arith)

module _ (k : Kernel) (ctx : AuthContext) where
  insert_audit-types : (ev : AuditEvent) → Frames same_types (insert_audit k ev)
  unfolding insert_audit same_types add_audit
  insert_audit-types ev =
      Frames-execute k _ (λ d db e. ap (λ x. x.object_types) (inserted _ _ ev d.audit_logs db e).1)

  same_types-Denies : Denies k ctx same_types
  same_types-Denies = record { audits = λ ev e. insert_audit-types ev }

  authorize-types :
      (action : Action) (resource : String) (s : State)
      → (authorize k ctx action resource none s).1.db.object_types ≡ s.db.object_types
  unfolding same_types
  authorize-types action resource s =
      (authorize-Frames k ctx same_types-Denies action resource none).at s

  get_builder_draft-Frames : (id : String) → Frames same_types (get_builder_draft k ctx id)
  unfolding get_builder_draft
  get_builder_draft-Frames id = search (frames_rules, authorize-Frames k ctx same_types-Denies)

  get_builder_draft-types :
      (id : String) (s : State)
      → (get_builder_draft k ctx id s).1.db.object_types ≡ s.db.object_types
  unfolding same_types
  get_builder_draft-types id s = (get_builder_draft-Frames id).at s

  listed :
      (d d' : Db)
      → d'.object_types ≡ d.object_types
      → types_of ctx.tenant_id d' ≡ types_of ctx.tenant_id d
  listed d d' e = ap (λ rows. types_of ctx.tenant_id (record d { object_types = rows })) e

  list_object_types-ok :
      (s : State) (types : List ObjectTypeDef)
      → (list_object_types k ctx s).0 ≡ ok types
      → types ≡ types_of ctx.tenant_id s.db
  unfolding list_object_types
  list_object_types-ok s types e =
      let (u, s1, h, t, r, e1) =
        bind-step (authorize k ctx Action.read "object_types" none)
          (λ _. query k (types_of ctx.tenant_id)) s types e in
      sym (query-ok k (types_of ctx.tenant_id) s1 types e1)
      ∙ listed s.db s1.db
          (ap (λ x. x.db.object_types) (sym t) ∙ authorize-types Action.read "object_types" s)

  recovered-ok :
      (s : State) (types : List ObjectTypeDef)
      → (recover (list_object_types k ctx) [] s).0 ≡ ok types
      → (types ≡ types_of ctx.tenant_id s.db) ⊎ (types ≡ [])
  unfolding recover
  recovered-ok s types e = elim (rescued-ok [] (list_object_types k ctx s) types e) [
    | inl h ↦ inl (list_object_types-ok s types h)
    | inr h ↦ inr h
  ]

  -- The validation of a definition is that of its issues.
  validate-ok :
      (def : BuilderDefinition) (s : State) (checked : BuilderValidationResult)
      → (validate_builder_definition k ctx def s).0 ≡ ok checked
      → (types : List ObjectTypeDef) × ((types ≡ types_of ctx.tenant_id s.db) ⊎ (types ≡ []))
        × (checked.valid ≡ is_empty (definition_issues types def))
  unfolding validate_builder_definition pure
  validate-ok def s checked e =
      let (u, s1, h, t, r, e1) =
        bind-step (authorize k ctx Action.configure "builder" none) _ s checked e in
      let (types, s2, h2, t2, r2, e2) =
        bind-step (recover (list_object_types k ctx) []) _ s1 checked e1 in
      let same =
        listed s.db s1.db
          (ap (λ x. x.db.object_types) (sym t) ∙ authorize-types Action.configure "builder" s) in
      (
        types,
        elim (recovered-ok s1 types h2) [ inl q ↦ inl (q ∙ same) | inr q ↦ inr q ],
        ap (λ x. x.valid) (sym (ok_inj e2)),
      )

  -- A draft that was published had passed the validation: its definition, as it was read, is publishable
  -- against the tenant's object types, or even without them.
  pub publish_builder_draft-Publishable :
      (id : String) (s : State) (result : PublishBuilderResult)
      → (publish_builder_draft k ctx id s).0 ≡ ok result
      → (draft : BuilderDraft) × ((get_builder_draft k ctx id s).0 ≡ ok draft)
        × (types : List ObjectTypeDef) × ((types ≡ types_of ctx.tenant_id s.db) ⊎ (types ≡ []))
        × Publishable types draft.definition
  unfolding publish_builder_draft
  publish_builder_draft-Publishable id s result e =
      let (draft, s1, h1, t1, r1, e1) = bind-step (get_builder_draft k ctx id) _ s result e in
      let (checked, s2, h2, t2, r2, e2) =
        bind-step (validate_builder_definition k ctx draft.definition) _ s1 result e1 in
      let (u, s3, h3, t3, r3, e3) =
        bind-step (ensure checked.valid (validation "builder draft is not valid")) _ s2 result e2 in
      let (types, from, v) = validate-ok draft.definition s1 checked h2 in
      let none_left =
        empty-nil (definition_issues types draft.definition)
          (sym v ∙ ensure-ok checked.valid _ s2 u h3) in
      let same =
        listed s.db s1.db (ap (λ x. x.db.object_types) (sym t1) ∙ get_builder_draft-types id s) in
      (
        draft,
        h1,
        types,
        elim from [ inl q ↦ inl (q ∙ same) | inr q ↦ inr q ],
        definition-nil types draft.definition none_left,
      )
