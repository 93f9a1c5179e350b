-- ===== src/Kernel/Records.antt =====
-- crates/kernel/src/record.rs: create, read, update, archive, restore and relate. `Records/Listing`
-- has `list_records` and `scan_records`.
pub mod Listing
use latent_db.Prelude.{
  ℕ, String, Bool, true, false, not, ◌&&◌, ◌||◌, Option, none, some, List, [], ◌∷◌, ◌++◌, find, any,
  select, update_where, map, ◌==◌, if◌then◌else◌, format, or_else,
}
use latent_db.Contracts.Json.{
  Value, string, object, JsonMap, get, insert, remove, from_map, is_null,
}
use latent_db.Contracts.Error.{Result, ok, err, panic, forbidden, not_found, validation}
use latent_db.Contracts.Auth.{AuthContext}
use latent_db.Contracts.Permission.{Action, PermissionGrant}
use latent_db.Contracts.Field.{FieldDefinition, ObjectTypeDef, field}
use latent_db.Contracts.Record.{Rec, Lifecycle, NewRecord, RecordPatch, project_fields}
use latent_db.Kernel.Host.{Kernel}
use latent_db.Kernel.Store.{Db, RelationRow, insert_row}
use latent_db.Kernel.Exec.{
  Exec, ◌>>=◌, ◌>>◌, pure, raise, lift, or_raise, ensure, fresh_id, current_time, query, execute,
  transaction,
}
use latent_db.Kernel.Audit.{event_from, insert_audit, audit_denial, emit_on}
use latent_db.Kernel.Rbac.{
  authorize, effective_grants, grants_for, applicable_read_grants, field_permitted, is_trusted,
}
use latent_db.Kernel.Objects.{load_object_type}
use latent_db.Kernel.Workflows.{workflow_initial_state}
use latent_db.Kernel.Validate.{validate_against_type}

abbrev pub resource_for : String → String
resource_for object_type = format ("object:" ∷ object_type ∷ [])

abbrev pub is_record : String → String → Rec → Bool
is_record tenant_id id r = r.tenant_id == tenant_id && r.id == id

unfoldable pub find_record : String → String → Db → Option Rec
find_record tenant_id id db = find (is_record tenant_id id) db.records

unfoldable pub load_record : Kernel → String → String → Exec (Option Rec)
unfolding find_record
load_record k tenant_id id = query k (find_record tenant_id id)

-- `load_record(…).await?.ok_or_else(…)?`
unfoldable pub require_record : Kernel → AuthContext → String → String → Exec Rec
require_record k ctx id message = do
  found ← load_record k ctx.tenant_id id
  or_raise found (not_found message)

unfoldable pub visible_part :
    Kernel → AuthContext → ObjectTypeDef → List PermissionGrant → Rec → Rec
visible_part k ctx t grants r =
    let read_grants = applicable_read_grants k grants ctx (resource_for r.object_type) (some r) in
    project_fields r (λ key. field_permitted read_grants t key)

unfoldable pub project_for_read : Kernel → AuthContext → Rec → ObjectTypeDef → Exec Rec
unfolding visible_part
project_for_read k ctx r t =
    if is_trusted ctx
    then pure r
    else (do grants ← effective_grants k ctx; pure (visible_part k ctx t grants r))

-- How a loop over provided values writes one: a create inserts it; an update clears the field by a null.
abbrev pub put_value : JsonMap → String → Value → JsonMap
put_value m key v = insert m key v

abbrev pub patch_value : JsonMap → String → Value → JsonMap
patch_value m key v = if is_null v then remove m key else insert m key v

-- The refusal of a restricted field, with its audit event.
unfoldable pub refuse_field :
    Kernel → AuthContext → String → Option String → String → Exec (Unit {0})
refuse_field k ctx resource target_id key = do
  audit_denial k ctx "write_field" resource target_id
  raise (forbidden (format ("not permitted to set field '" ∷ key ∷ "'" ∷ [])))

-- The checks on one provided key.
unfoldable pub check_field :
    Kernel
    → AuthContext
    → String
    → Option String
    → ObjectTypeDef
    → List PermissionGrant
    → String
    → Exec (Unit {0})
unfolding refuse_field
check_field k ctx resource target_id t grants key = do
  f ← or_raise (field t key) (validation (format ("unknown field '" ∷ key ∷ "'" ∷ [])))
  ensure (not f.system) (validation (format ("field '" ∷ key ∷ "' is system-managed" ∷ [])))
  if f.restricted && not (field_permitted grants t key)
      then refuse_field k ctx resource target_id key
      else pure tt

-- The loop over the provided values; `write` is `put_value` or `patch_value`.
unfoldable pub set_fields :
    Kernel
    → AuthContext
    → String
    → Option String
    → ObjectTypeDef
    → List PermissionGrant
    → (JsonMap → String → Value → JsonMap)
    → JsonMap
    → JsonMap
    → Exec JsonMap
set_fields k ctx resource target_id t grants write [] m = pure m
set_fields k ctx resource target_id t grants write ((key, v) ∷ rest) m =
    check_field k ctx resource target_id t grants key
    >> set_fields k ctx resource target_id t grants write rest (write m key v)

-- The defaults of the type's fields.
unfoldable pub default_fields : List FieldDefinition → JsonMap → JsonMap
default_fields [] m = m
default_fields (f ∷ fs) m =
    default_fields fs (elim f.default [ none ↦ m | some v ↦ insert m f.key v ])

abbrev pub initial_state : Kernel → String → Option String → Exec (Option String)
initial_state k tenant_id none = pure none
initial_state k tenant_id (some key) = workflow_initial_state k tenant_id key

unfoldable pub add_record : Rec → Db → Result Db
add_record r db = elim (insert_row (λ x. x.id == r.id) r db.records) [
  | ok rows ↦ ok (record db { records = rows })
  | err e ↦ err e
  | panic ↦ panic
]

abbrev id_payload : String → String → Value
id_payload object_type id =
    object (from_map (("id", string id) ∷ ("object_type", string object_type) ∷ []))

-- The transaction of `create_record`.
unfoldable pub store_record : Kernel → AuthContext → Rec → Exec (Unit {0})
unfolding add_record
store_record k ctx r = transaction k (do
  execute k (add_record r)
  ev ←
      event_from k ctx "record.create" (some r.object_type) (some r.id) none
        (some (object (from_map r.fields)))
  insert_audit k ev
  emit_on k ctx "record.created" (id_payload r.object_type r.id))

abbrev new_rec : AuthContext → NewRecord → JsonMap → Option String → String → String → Rec
new_rec ctx new fields workflow_state id now = record {
  id = id;
  object_type = new.object_type;
  tenant_id = ctx.tenant_id;
  org_id = ctx.org_id;
  workspace_id = or_else new.workspace_id ctx.workspace_id;
  fields = fields;
  lifecycle = Lifecycle.active;
  workflow_state = workflow_state;
  created_by = ctx.actor_id;
  created_at = now;
  updated_at = now;
  archived_at = none;
}

unfoldable pub create_record : Kernel → AuthContext → NewRecord → Exec Rec
create_record k ctx new = do
  let resource = resource_for new.object_type
  authorize k ctx Action.create resource none
  t ← load_object_type k ctx.tenant_id new.object_type
  grants ← grants_for k ctx Action.create resource none
  fields ← set_fields k ctx resource none t grants put_value new.fields (default_fields t.fields [])
  lift (validate_against_type k.host t fields)
  workflow_state ← initial_state k ctx.tenant_id t.workflow_key
  id ← fresh_id k
  now ← current_time k
  store_record k ctx (new_rec ctx new fields workflow_state id now)
  project_for_read k ctx (new_rec ctx new fields workflow_state id now) t

unfoldable pub get_record : Kernel → AuthContext → String → Exec Rec
get_record k ctx id = do
  r ← require_record k ctx id "record not found"
  authorize k ctx Action.read (resource_for r.object_type) (some r)
  t ← load_object_type k ctx.tenant_id r.object_type
  project_for_read k ctx r t

-- `UPDATE records SET … WHERE tenant_id = ? AND id = ?`
unfoldable pub update_records : String → String → (Rec → Rec) → Db → Db
update_records tenant_id id f db = record db {
  records = update_where (is_record tenant_id id) f db.records;
}

abbrev pub set_data : JsonMap → String → Rec → Rec
set_data fields now r = record r { fields = fields; updated_at = now }

-- The transaction of `update_record`.
unfoldable pub store_fields :
    Kernel → AuthContext → Rec → JsonMap → String → String → Exec (Unit {0})
unfolding update_records
store_fields k ctx r fields id now = transaction k (do
  execute k (λ db. ok (update_records ctx.tenant_id id (set_data fields now) db))
  ev ←
      event_from k ctx "record.update" (some r.object_type) (some id)
        (some (object (from_map r.fields))) (some (object (from_map fields)))
  insert_audit k ev
  emit_on k ctx "record.updated" (id_payload r.object_type id))

unfoldable pub update_record : Kernel → AuthContext → String → RecordPatch → Exec Rec
update_record k ctx id patch = do
  r ← require_record k ctx id "record not found"
  let resource = resource_for r.object_type
  authorize k ctx Action.update resource (some r)
  t ← load_object_type k ctx.tenant_id r.object_type
  grants ← grants_for k ctx Action.update resource (some r)
  fields ← set_fields k ctx resource (some id) t grants patch_value patch.fields r.fields
  lift (validate_against_type k.host t fields)
  now ← current_time k
  store_fields k ctx r fields id now
  project_for_read k ctx (record r { fields = fields; updated_at = now }) t

abbrev lifecycle_action : Lifecycle → Action
lifecycle_action Lifecycle.archived = Action.archive
lifecycle_action Lifecycle.active = Action.restore

abbrev lifecycle_verb : Lifecycle → String
lifecycle_verb Lifecycle.archived = "record.archive"
lifecycle_verb Lifecycle.active = "record.restore"

abbrev archived_at : Lifecycle → String → Option String
archived_at Lifecycle.archived now = some now
archived_at Lifecycle.active now = none

abbrev pub set_columns : Lifecycle → String → Rec → Rec
set_columns l now r = record r { lifecycle = l; archived_at = archived_at l now; updated_at = now }

unfoldable pub store_lifecycle :
    Kernel → AuthContext → Rec → Lifecycle → String → String → Exec (Unit {0})
unfolding update_records
store_lifecycle k ctx r l id now = transaction k (do
  execute k (λ db. ok (update_records ctx.tenant_id id (set_columns l now) db))
  ev ← event_from k ctx (lifecycle_verb l) (some r.object_type) (some id) none none
  insert_audit k ev)

unfoldable pub set_lifecycle : Kernel → AuthContext → String → Lifecycle → Exec (Unit {0})
set_lifecycle k ctx id l = do
  r ← require_record k ctx id "record not found"
  authorize k ctx (lifecycle_action l) (resource_for r.object_type) (some r)
  now ← current_time k
  store_lifecycle k ctx r l id now

unfoldable pub archive_record : Kernel → AuthContext → String → Exec (Unit {0})
unfolding set_lifecycle
archive_record k ctx id = set_lifecycle k ctx id Lifecycle.archived

unfoldable pub restore_record : Kernel → AuthContext → String → Exec (Unit {0})
unfolding set_lifecycle
restore_record k ctx id = set_lifecycle k ctx id Lifecycle.active
