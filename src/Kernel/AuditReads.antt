-- ===== src/Kernel/AuditReads.antt =====
-- crates/kernel/src/audit.rs: reading the audit log
pub mod Found
use latent_db.Prelude.{
  ℕ, String, Bool, true, false, ◌&&◌, Option, none, some, List, [], ◌∷◌, select, sort_by, take,
  drop, length, str_leb, str_ltb, not, ◌==◌, if◌then◌else◌, ltb, option_str_eq, Memᴰ, ◌≡◌, ◌≤◌,
  refl, sym, ap, ◌∙◌, arith, take-mem, drop-mem, sort_by-mem, select-mem,
}
use latent_db.Contracts.Record.{I64, neg, nonneg, clamp_offset}
use latent_db.Contracts.Error.{ok}
use latent_db.Contracts.Auth.{AuthContext}
use latent_db.Contracts.Permission.{Action}
use latent_db.Contracts.Audit.{AuditEvent, AuditQuery}
use latent_db.Kernel.Host.{Kernel}
use latent_db.Kernel.Store.{Db}
use latent_db.Kernel.Exec.{Exec, State, ◌>>◌, query}
use latent_db.Kernel.Rbac.{authorize}
use latent_db.Kernel.Exec.Returns.{bind-step, query-ok}

-- `column = ?`, where the filter is there
abbrev pub is_filter : Option String → Option String → Bool
is_filter none column = true
is_filter (some v) column = option_str_eq column (some v)

abbrev pub is_since : Option String → String → Bool
is_since none timestamp = true
is_since (some v) timestamp = str_leb v timestamp

abbrev pub is_until : Option String → String → Bool
is_until none timestamp = true
is_until (some v) timestamp = str_ltb timestamp v

-- The WHERE clause.
unfoldable pub meets : String → AuditQuery → AuditEvent → Bool
meets tenant_id q e =
    e.tenant_id == tenant_id
    && (is_filter q.actor_id (some e.actor_id)
        && (is_filter q.action (some e.action)
            && (is_filter q.target_object_type e.target_object_type
                && (is_filter q.target_record_id e.target_record_id
                    && (is_since q.since e.timestamp && is_until q.until e.timestamp)))))

-- `unwrap_or(100).clamp(1, 1000)` and `unwrap_or(0).max(0)`
abbrev pub audit_limit : Option I64 → ℕ
audit_limit none = 100
audit_limit (some (neg n)) = 1
audit_limit (some (nonneg n)) = if ltb n 1 then 1 else if ltb 1000 n then 1000 else n

abbrev pub audit_offset : Option I64 → ℕ
audit_offset none = 0
audit_offset (some n) = clamp_offset n

-- The statement: the newest first, a page of them.
unfoldable pub audit_page : String → AuditQuery → Db → List AuditEvent
unfolding meets
audit_page tenant_id q db = take (audit_limit q.limit) (
    drop (audit_offset q.offset)
      (sort_by (λ a b. str_leb b.timestamp a.timestamp) (select (meets tenant_id q) db.audit_logs)))

unfoldable pub audit_query : Kernel → AuthContext → AuditQuery → Exec (List AuditEvent)
unfolding audit_page
audit_query k ctx q = do
  authorize k ctx Action.read "audit" none
  query k (audit_page ctx.tenant_id q)
