-- ===== src/Examples/Publishing.antt =====
-- Concrete runs: a draft that is published, and a reading of the audit log.
use latent_db.Prelude.{none, some, List, [], ◌∷◌, ◌≡◌, ◌⊎◌, refl, is_blank, all_chars, first_char}
use latent_db.Contracts.Error.{ok}
use latent_db.Contracts.Auth.{Source, ActorType, default_flags}
use latent_db.Contracts.Audit.{AuditEvent, AuditQuery}
use latent_db.Contracts.Field.{ObjectTypeDef, FieldType}
use latent_db.Contracts.Record.{nonneg}
use latent_db.Contracts.Builder.{
  BuilderDefinition, BuilderDraft, BuilderStatus, parse_status, to_object_type,
  PublishBuilderResult,
}
use latent_db.Kernel.Host.{Kernel}
use latent_db.Kernel.Store.{DraftRow}
use latent_db.Kernel.Exec.{
  State, ◌>>=◌, pure, query, recover, fresh_id, current_time, transaction, execute,
}
use latent_db.Kernel.Rbac.{authorize}
use latent_db.Kernel.Audit.{event_from, insert_audit, add_audit, emit_event, emit_on, add_event}
use latent_db.Kernel.Validate.{validate_object_type}
use latent_db.Kernel.Objects.{list_object_types, create_object_type, store_type}
use latent_db.Kernel.Builder.Catalog.{visible_field, simple_object}
use latent_db.Kernel.Builder.Drafts.{
  get_builder_draft, publish_builder_draft, store_published, mark_published,
}
use latent_db.Kernel.Builder.Publishable.{Publishable}
use latent_db.Kernel.Builder.Published.{types_of, publish_builder_draft-Publishable}
use latent_db.Examples.{host, admin, store, start}
use latent_db.Examples.Logins.{tally}

abbrev numbering : Kernel
numbering = record { flags = default_flags; host = record host { new_id = tally } }

abbrev ticket : BuilderDefinition
ticket =
    simple_object "ticket" "Ticket" "Tickets" "desk" "title"
      (visible_field "title" "Title" FieldType.text ∷ [])

abbrev ticket_row : DraftRow
ticket_row = record {
  id = "d1";
  tenant_id = "acme";
  status = "validated";
  key = "ticket";
  definition = ticket;
  created_at = "";
  updated_at = "";
  published_at = none;
}

abbrev drafting : State
drafting = record start { db = record store { builder_drafts = ticket_row ∷ [] } }

abbrev published_ticket : PublishBuilderResult
published_ticket = record {
  draft = record {
    id = "d1";
    tenant_id = "acme";
    status = BuilderStatus.published;
    definition = ticket;
    created_at = "";
    updated_at = "2025-01-01T00:00:00Z";
    published_at = some "2025-01-01T00:00:00Z";
  };
  object_type = record (to_object_type ticket) { id = tally 2 };
  workflow = none;
}

abbrev logged : AuditEvent
logged = record {
  id = "e1";
  tenant_id = "acme";
  org_id = some "org";
  actor_type = ActorType.user;
  actor_id = "ann";
  action = "record.create";
  target_object_type = some "note";
  target_record_id = some "n1";
  before = none;
  after = none;
  request_id = "req";
  reason = none;
  source = Source.api;
  timestamp = "2025-01-01T00:00:00Z";
  client_meta = none;
  ai_meta = none;
  retrieved_source_ids = [];
  risk_score = none;
  approval_id = none;
}

abbrev reading : State
reading = record start {
  db = record store { audit_logs = logged ∷ record logged { id = "e2"; tenant_id = "other" } ∷ [] };
}

abbrev by_ann : AuditQuery
by_ann = record {
  actor_id = some "ann";
  action = none;
  target_object_type = none;
  target_record_id = none;
  since = some "2024";
  until = none;
  limit = some (nonneg 10);
  offset = none;
}

publish_builder_draft-Publishable_example :
    (draft : BuilderDraft) × ((get_builder_draft numbering admin "d1" drafting).0 ≡ ok draft)
    × (types : List ObjectTypeDef) × ((types ≡ types_of "acme" drafting.db) ⊎ (types ≡ []))
    × Publishable types draft.definition
unfolding publish_builder_draft ◌>>=◌ authorize pure query recover list_object_types is_blank
    all_chars first_char create_object_type validate_object_type to_object_type fresh_id
    current_time store_type transaction execute event_from insert_audit add_audit store_published
    mark_published emit_event emit_on add_event tally parse_status
publish_builder_draft-Publishable_example =
    publish_builder_draft-Publishable numbering admin "d1" drafting published_ticket refl
