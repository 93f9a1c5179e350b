-- ===== src/Contracts/Audit.antt =====
-- crates/contracts/src/audit.rs, and the rows of crates/kernel/src/event.rs
use latent_db.Prelude.{ℕ, String, Bool, Option, List}
use latent_db.Contracts.Record.{I64}
use latent_db.Contracts.Json.{Value}
use latent_db.Contracts.Auth.{ActorType, Source}

pub record AuditEvent : Type 0 where
  pub id : String
  pub tenant_id : String
  pub org_id : Option String
  pub actor_type : ActorType
  pub actor_id : String
  pub action : String
  pub target_object_type : Option String
  pub target_record_id : Option String
  pub before : Option Value
  pub after : Option Value
  pub request_id : String
  pub reason : Option String
  pub source : Source
  pub timestamp : String
  pub client_meta : Option Value
  pub ai_meta : Option Value
  pub retrieved_source_ids : List String
  pub risk_score : Option ℕ
  pub approval_id : Option String

pub record Event : Type 0 where
  pub id : String
  pub tenant_id : String
  pub org_id : Option String
  pub kind : String
  pub payload : Value
  pub created_at : String
  pub processed : Bool

-- Filters of the audit log: those that are there must all hold.
pub record AuditQuery : Type 0 where
  pub actor_id : Option String
  pub action : Option String
  pub target_object_type : Option String
  pub target_record_id : Option String
  pub since : Option String
  pub until : Option String
  pub limit : Option I64
  pub offset : Option I64
