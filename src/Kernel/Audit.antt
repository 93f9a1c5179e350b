-- ===== src/Kernel/Audit.antt =====
-- crates/kernel/src/audit.rs and crates/kernel/src/event.rs
use latent_db.Prelude.{
  String, true, false, not, ◌&&◌, Option, none, some, List, [], ◌∷◌, select, take, update_where,
  ◌==◌, format, str_leb, sort_by,
}
use latent_db.Contracts.Json.{Value}
use latent_db.Contracts.Error.{Result, ok, err, panic}
use latent_db.Contracts.Auth.{AuthContext}
use latent_db.Contracts.Record.{I64, clamp_limit}
use latent_db.Contracts.Audit.{AuditEvent, Event}
use latent_db.Kernel.Host.{Kernel}
use latent_db.Kernel.Store.{Db, insert_row}
use latent_db.Kernel.Exec.{Exec, ◌>>=◌, pure, ignore, fresh_id, current_time, query, execute, ◌>>◌}

-- `event_from`, on the id and the time that it draws
abbrev pub audit_event :
    AuthContext
    → String
    → Option String
    → Option String
    → Option Value
    → Option Value
    → String
    → String
    → AuditEvent
audit_event ctx action target_object_type target_record_id before after id timestamp = record {
  id = id;
  tenant_id = ctx.tenant_id;
  org_id = some ctx.org_id;
  actor_type = ctx.actor_type;
  actor_id = ctx.actor_id;
  action = action;
  target_object_type = target_object_type;
  target_record_id = target_record_id;
  before = before;
  after = after;
  request_id = ctx.request_id;
  reason = none;
  source = ctx.source;
  timestamp = timestamp;
  client_meta = none;
  ai_meta = none;
  retrieved_source_ids = [];
  risk_score = none;
  approval_id = none;
}

unfoldable pub event_from :
    Kernel
    → AuthContext
    → String
    → Option String
    → Option String
    → Option Value
    → Option Value
    → Exec AuditEvent
event_from k ctx action target_object_type target_record_id before after = do
  id ← fresh_id k
  timestamp ← current_time k
  pure (audit_event ctx action target_object_type target_record_id before after id timestamp)

unfoldable pub add_audit : AuditEvent → Db → Result Db
add_audit ev db = elim (insert_row (λ e. e.id == ev.id) ev db.audit_logs) [
  | ok logs ↦ ok (record db { audit_logs = logs })
  | err e ↦ err e
  | panic ↦ panic
]

-- The single insertion point of the audit table.
unfoldable pub insert_audit : Kernel → AuditEvent → Exec (Unit {0})
insert_audit k ev = execute k (add_audit ev)

-- `Kernel::audit`
unfoldable pub audit : Kernel → AuditEvent → Exec (Unit {0})
unfolding insert_audit
audit k ev = insert_audit k ev

-- Best effort: a denial that cannot be written is dropped.
unfoldable pub audit_denial :
    Kernel → AuthContext → String → String → Option String → Exec (Unit {0})
unfolding event_from audit
audit_denial k ctx action resource target_record_id = do
  ev ← event_from k ctx "permission.denied" (some resource) target_record_id none none
  ignore
      (audit k (record ev { reason = some (format ("denied " ∷ action ∷ " on " ∷ resource ∷ [])) }))

unfoldable pub add_event : Event → Db → Result Db
add_event ev db = elim (insert_row (λ e. e.id == ev.id) ev db.events) [
  | ok events ↦ ok (record db { events = events })
  | err e ↦ err e
  | panic ↦ panic
]

unfoldable pub emit_on : Kernel → AuthContext → String → Value → Exec (Unit {0})
emit_on k ctx kind payload = do
  id ← fresh_id k
  created_at ← current_time k
  execute k (
      add_event (record {
        id = id;
        tenant_id = ctx.tenant_id;
        org_id = some ctx.org_id;
        kind = kind;
        payload = payload;
        created_at = created_at;
        processed = false;
      }))

-- `Kernel::pending_events`: the oldest first, `limit` between 1 and 500
unfoldable pub pending_events : Kernel → AuthContext → I64 → Exec (List Event)
pending_events k ctx limit = query k λ db. take (clamp_limit limit) (
    sort_by (λ a b. str_leb a.created_at b.created_at)
      (select (λ e. e.tenant_id == ctx.tenant_id && not e.processed) db.events))

-- `UPDATE events SET processed = 1 WHERE id = ?`: the tenant is not part of the test
unfoldable pub mark_processed : String → Db → Db
mark_processed id db = record db {
  events = update_where (λ e. e.id == id) (λ e. record e { processed = true }) db.events;
}

unfoldable pub mark_event_processed : Kernel → String → Exec (Unit {0})
unfolding mark_processed
mark_event_processed k id = execute k (λ db. ok (mark_processed id db))

-- `Kernel::emit_event`: a connection of its own
unfoldable pub emit_event : Kernel → AuthContext → String → Value → Exec (Unit {0})
unfolding emit_on
emit_event k ctx kind payload = do query k (λ db. tt); emit_on k ctx kind payload
