-- ===== src/Kernel/Builder/Drafts.antt =====
-- crates/kernel/src/builder.rs: the services that save, validate and publish drafts
use latent_db.Prelude.{
  String, Bool, true, false, ◌&&◌, Option, none, some, List, [], ◌∷◌, any, find, select,
  update_where, map, length, sort_by, str_leb, ◌==◌, if◌then◌else◌,
}
use latent_db.Contracts.Json.{string, object, from_map}
use latent_db.Contracts.Codes.{ErrorCode}
use latent_db.Contracts.Error.{Result, ok, err, panic, validation, not_found}
use latent_db.Contracts.Auth.{AuthContext}
use latent_db.Contracts.Permission.{Action}
use latent_db.Contracts.Field.{ObjectTypeDef}
use latent_db.Contracts.Workflow.{WorkflowDef}
use latent_db.Contracts.Builder.{
  BuilderStatus, status_str, parse_status, BuilderDefinition, to_object_type, BuilderDraft,
  SaveBuilderDraftRequest, ValidationIssue, BuilderValidationResult, PublishBuilderResult,
  BuilderTemplate,
}
use latent_db.Kernel.Host.{Kernel}
use latent_db.Kernel.Store.{Db, DraftRow, insert_row}
use latent_db.Kernel.Exec.{
  Exec, State, ◌>>=◌, ◌>>◌, pure, or_raise, ensure, recover, fresh_id, current_time, query, execute,
  transaction,
}
use latent_db.Kernel.Audit.{event_from, insert_audit, emit_event}
use latent_db.Kernel.Rbac.{authorize}
use latent_db.Kernel.Objects.{
  count_value, list_object_types, create_object_type, update_object_type,
}
use latent_db.Kernel.Workflows.{create_workflow}
use latent_db.Kernel.Builder.Templates.{templates}
use latent_db.Kernel.Builder.Validation.{definition_issues}

unfoldable pub row_to_draft : DraftRow → BuilderDraft
row_to_draft row = record {
  id = row.id;
  tenant_id = row.tenant_id;
  status = parse_status row.status;
  definition = row.definition;
  created_at = row.created_at;
  updated_at = row.updated_at;
  published_at = row.published_at;
}

abbrev pub draft_of : Option DraftRow → Option BuilderDraft
draft_of none = none
draft_of (some row) = some (row_to_draft row)

abbrev pub is_draft : String → String → DraftRow → Bool
is_draft tenant_id id row = row.tenant_id == tenant_id && row.id == id

abbrev pub has_key : String → String → DraftRow → Bool
has_key tenant_id key row = row.tenant_id == tenant_id && row.key == key

unfoldable pub find_draft : String → String → Db → Option BuilderDraft
unfolding row_to_draft
find_draft tenant_id id db = draft_of (find (is_draft tenant_id id) db.builder_drafts)

unfoldable pub list_builder_drafts : Kernel → AuthContext → Exec (List BuilderDraft)
unfolding row_to_draft
list_builder_drafts k ctx = do
  authorize k ctx Action.configure "builder" none
  query k λ db. map row_to_draft (
      sort_by (λ a b. str_leb b.updated_at a.updated_at)
        (select (λ d. d.tenant_id == ctx.tenant_id) db.builder_drafts))

unfoldable pub get_builder_draft : Kernel → AuthContext → String → Exec BuilderDraft
unfolding find_draft
get_builder_draft k ctx id = do
  authorize k ctx Action.configure "builder" none
  found ← query k (find_draft ctx.tenant_id id)
  or_raise found (not_found "builder draft not found")

abbrev pub is_empty : List ValidationIssue → Bool
is_empty [] = true
is_empty (i ∷ issues) = false

abbrev checked_status : Bool → BuilderStatus
checked_status true = BuilderStatus.validated
checked_status false = BuilderStatus.draft

-- The issues are those against the object types that the caller may list, or against none.
unfoldable pub validate_builder_definition :
    Kernel → AuthContext → BuilderDefinition → Exec BuilderValidationResult
unfolding definition_issues
validate_builder_definition k ctx def = do
  authorize k ctx Action.configure "builder" none
  types ← recover (list_object_types k ctx) []
  pure (record {
    valid = is_empty (definition_issues types def);
    status = checked_status (is_empty (definition_issues types def));
    issues = definition_issues types def;
    preview = some (k.preview_json def);
  })

unfoldable pub validate_builder_draft : Kernel → AuthContext → String → Exec BuilderValidationResult
unfolding get_builder_draft validate_builder_definition
validate_builder_draft k ctx id = do
  draft ← get_builder_draft k ctx id
  validate_builder_definition k ctx draft.definition

-- `INSERT … ON CONFLICT(tenant_id, key) DO UPDATE`
unfoldable pub upsert_draft : DraftRow → Db → Result Db
upsert_draft row db =
    if any (has_key row.tenant_id row.key) db.builder_drafts
    then ok (record db {
      builder_drafts =
          update_where (has_key row.tenant_id row.key)
            (λ x. record x {
              status = row.status;
              definition = row.definition;
              updated_at = row.updated_at;
            })
            db.builder_drafts;
    })
    else elim (insert_row (λ x. x.id == row.id) row db.builder_drafts) [
      | ok rows ↦ ok (record db { builder_drafts = rows })
      | err e ↦ err e
      | panic ↦ panic
    ]

-- The transaction of `save_builder_draft`.
unfoldable pub store_draft : Kernel → AuthContext → DraftRow → Exec (Unit {0})
unfolding upsert_draft
store_draft k ctx row = transaction k (do
  execute k (upsert_draft row)
  ev ← event_from k ctx "builder.draft.save" (some "builder_draft") (some row.key) none (
      some (
        object (
          from_map (
            ("fields", count_value k (length row.definition.fields))
            ∷ ("status", string row.status)
            ∷ []))))
  insert_audit k ev)

abbrev given_id : Kernel → Option String → Exec String
given_id k none = fresh_id k
given_id k (some id) = pure id

-- `match … { Ok(v) => v, Err(_) => … }`
abbrev otherwise {ℓ} : {A : Type ℓ} → Result A × State → Exec A → Result A × State
otherwise (ok a, s) other = (ok a, s)
otherwise (err e, s) other = other s
otherwise (panic, s) other = (panic, s)

-- The draft by its id, or else by its key: an upsert keeps the id of the row that was there.
unfoldable pub saved_draft : Kernel → AuthContext → String → String → Exec BuilderDraft
unfolding get_builder_draft row_to_draft
saved_draft k ctx id key s = otherwise (get_builder_draft k ctx id s) (do
  found ← query k (λ db. draft_of (find (has_key ctx.tenant_id key) db.builder_drafts))
  or_raise found (not_found "builder draft not found"))

unfoldable pub save_builder_draft :
    Kernel → AuthContext → SaveBuilderDraftRequest → Exec BuilderDraft
unfolding validate_builder_definition store_draft saved_draft
save_builder_draft k ctx req = do
  authorize k ctx Action.configure "builder" none
  id ← given_id k req.id
  now ← current_time k
  checked ← validate_builder_definition k ctx req.definition
  store_draft k ctx (record {
    id = id;
    tenant_id = ctx.tenant_id;
    status = status_str (checked_status checked.valid);
    key = req.definition.key;
    definition = req.definition;
    created_at = now;
    updated_at = now;
    published_at = none;
  })
  saved_draft k ctx id req.definition.key

abbrev is_conflict : ErrorCode → Bool
is_conflict ErrorCode.conflict = true
is_conflict _ = false

-- An object type that is there already is updated.
abbrev or_update :
    Kernel
    → AuthContext
    → ObjectTypeDef
    → Result ObjectTypeDef × State
    → Result ObjectTypeDef × State
or_update k ctx def (ok t, s) = (ok t, s)
or_update k ctx def (err e, s) = elim (is_conflict e.code) [
  | true ↦ update_object_type k ctx def.key def s
  | false ↦ (err e, s)
]
or_update k ctx def (panic, s) = (panic, s)

unfoldable pub create_or_update : Kernel → AuthContext → ObjectTypeDef → Exec ObjectTypeDef
create_or_update k ctx def s = or_update k ctx def (create_object_type k ctx def s)

abbrev create_flow : Kernel → AuthContext → Option WorkflowDef → Exec (Unit {0})
create_flow k ctx none = pure tt
create_flow k ctx (some w) = do created ← create_workflow k ctx w; pure tt

unfoldable pub mark_published : String → String → String → Db → Db
mark_published tenant_id id now db = record db {
  builder_drafts =
      update_where (is_draft tenant_id id)
        (λ x. record x { status = "published"; updated_at = now; published_at = some now })
        db.builder_drafts;
}

-- The transaction of `publish_builder_draft`.
unfoldable pub store_published :
    Kernel → AuthContext → String → String → ObjectTypeDef → Exec (Unit {0})
unfolding mark_published
store_published k ctx id now published = transaction k (do
  execute k (λ db. ok (mark_published ctx.tenant_id id now db))
  ev ←
      event_from k ctx "builder.publish" (some "object_type") (some published.key) none
        (some (object (from_map (("fields", count_value k (length published.fields)) ∷ []))))
  insert_audit k ev)

-- What `publish_builder_draft` does with a valid draft.
unfoldable pub publish :
    Kernel → AuthContext → String → BuilderDefinition → Exec PublishBuilderResult
unfolding create_or_update store_published get_builder_draft
publish k ctx id def = do
  create_flow k ctx def.workflow
  published ← create_or_update k ctx (to_object_type def)
  now ← current_time k
  store_published k ctx id now published
  emit_event k ctx "builder.object_published"
      (object (from_map (("object_type", string published.key) ∷ [])))
  draft ← get_builder_draft k ctx id
  pure (record { draft = draft; object_type = published; workflow = draft.definition.workflow })

unfoldable pub publish_builder_draft : Kernel → AuthContext → String → Exec PublishBuilderResult
unfolding validate_builder_definition publish
publish_builder_draft k ctx id = do
  draft ← get_builder_draft k ctx id
  checked ← validate_builder_definition k ctx draft.definition
  ensure checked.valid (validation "builder draft is not valid")
  publish k ctx id draft.definition

unfoldable pub builder_templates : Kernel → AuthContext → Exec (List BuilderTemplate)
builder_templates k ctx = do authorize k ctx Action.configure "builder" none; pure templates
