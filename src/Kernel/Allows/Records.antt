-- ===== src/Kernel/Allows/Records.antt =====
-- The record service (crates/kernel/src/record.rs) under a guarantee.
use latent_db.Prelude.{String, Option, none, some, List, [], ◌∷◌}
use latent_db.Contracts.Json.{Value, JsonMap}
use latent_db.Contracts.Auth.{AuthContext}
use latent_db.Contracts.Permission.{PermissionGrant}
use latent_db.Contracts.Field.{ObjectTypeDef}
use latent_db.Contracts.Record.{Rec, Lifecycle, NewRecord, RecordPatch, RecordFilter}
use latent_db.Kernel.Host.{Kernel}
use latent_db.Kernel.Exec.Frames.{Guarantee, Frames, Frames-bind, Frames-pure}
use latent_db.Kernel.Objects.{load_object_type}
use latent_db.Kernel.Workflows.{load_workflow, workflow_initial_state}
use latent_db.Kernel.Records.{
  load_record, require_record, project_for_read, check_field, set_fields, initial_state,
  create_record, get_record, update_record, set_lifecycle,
}
use latent_db.Kernel.Records.Listing.{list_records}
use latent_db.Kernel.Relations.{relate, get_relations}
use latent_db.Kernel.Allows.{Denies, Allows}
use latent_db.Kernel.Allows.Basics.{basic_rules}

module _ (k : Kernel) (ctx : AuthContext) {G : Guarantee} (h : Denies k ctx G) where
  pub load_object_type-Frames : (key : String) → Frames G (load_object_type k ctx.tenant_id key)
  unfolding load_object_type
  load_object_type-Frames key = search basic_rules

  pub load_workflow-Frames : (key : String) → Frames G (load_workflow k ctx.tenant_id key)
  unfolding load_workflow
  load_workflow-Frames key = search basic_rules

  initial_state-Frames : (key : Option String) → Frames G (initial_state k ctx.tenant_id key)
  unfolding workflow_initial_state
  initial_state-Frames none = search basic_rules
  initial_state-Frames (some key) = search (basic_rules, load_workflow-Frames)

  pub load_record-Frames : (id : String) → Frames G (load_record k ctx.tenant_id id)
  unfolding load_record
  load_record-Frames id = search basic_rules

  pub require_record-Frames : (id message : String) → Frames G (require_record k ctx id message)
  unfolding require_record
  require_record-Frames id message = search (basic_rules, load_record-Frames)

  pub project_for_read-Frames :
      (r : Rec) (t : ObjectTypeDef) → Frames G (project_for_read k ctx r t)
  unfolding project_for_read
  project_for_read-Frames r t = search basic_rules

module _ (k : Kernel) (ctx : AuthContext) {G : Guarantee} (h : Allows k ctx G) where
  check_field-Frames :
      (resource : String) (rid : Option String) (t : ObjectTypeDef) (grants : List PermissionGrant)
      (key : String)
      → Frames G (check_field k ctx resource rid t grants key)
  unfolding check_field
  check_field-Frames resource rid t grants key = search (basic_rules, h.denials)

  set_fields-Frames :
      (resource : String) (rid : Option String) (t : ObjectTypeDef) (grants : List PermissionGrant)
      (write : JsonMap → String → Value → JsonMap) (given m : JsonMap)
      → Frames G (set_fields k ctx resource rid t grants write given m)
  unfolding set_fields
  set_fields-Frames resource rid t grants write [] m = Frames-pure m
  set_fields-Frames resource rid t grants write ((key, v) ∷ rest) m =
      Frames-bind _ _ (check_field-Frames resource rid t grants key)
        λ _. set_fields-Frames resource rid t grants write rest (write m key v)

  pub create_record-Frames : (new : NewRecord) → Frames G (create_record k ctx new)
  unfolding create_record
  create_record-Frames new =
      search
        (
          basic_rules, h.denials, load_object_type-Frames, set_fields-Frames, initial_state-Frames,
          h.stores_record, project_for_read-Frames,
        )
        depth 18

  pub get_record-Frames : (id : String) → Frames G (get_record k ctx id)
  unfolding get_record
  get_record-Frames id = search (
    basic_rules, h.denials, require_record-Frames, load_object_type-Frames, project_for_read-Frames,
  )

  pub update_record-Frames :
      (id : String) (patch : RecordPatch) → Frames G (update_record k ctx id patch)
  unfolding update_record
  update_record-Frames id patch =
      search
        (
          basic_rules, h.denials, require_record-Frames, load_object_type-Frames, set_fields-Frames,
          h.stores_fields, project_for_read-Frames,
        )
        depth 18

  pub set_lifecycle-Frames : (id : String) (l : Lifecycle) → Frames G (set_lifecycle k ctx id l)
  unfolding set_lifecycle
  set_lifecycle-Frames id l =
      search (basic_rules, h.denials, require_record-Frames, h.stores_lifecycle)

  pub relate-Frames :
      (from_id to_id relation_type : String) → Frames G (relate k ctx from_id to_id relation_type)
  unfolding relate
  relate-Frames from_id to_id relation_type =
      search (basic_rules, h.denials, require_record-Frames, h.stores_relation) depth 14

  pub get_relations-Frames : (id : String) → Frames G (get_relations k ctx id)
  unfolding get_relations
  get_relations-Frames id = search (basic_rules, h.denials, require_record-Frames)

  pub list_records-Frames :
      (object_type : String) (filter : RecordFilter)
      → Frames G (list_records k ctx object_type filter)
  unfolding list_records
  list_records-Frames object_type filter =
      search (basic_rules, h.denials, load_object_type-Frames) depth 14
