-- ===== src/Kernel/Writes/Basics.antt =====
-- The single statements, and the writes that the audit and event tables get.
use latent_db.Prelude.{String, ◌≡◌, refl}
use latent_db.Contracts.Json.{Value}
use latent_db.Contracts.Error.{Result, ok}
use latent_db.Contracts.Auth.{AuthContext}
use latent_db.Contracts.Audit.{AuditEvent}
use latent_db.Kernel.Host.{Kernel}
use latent_db.Kernel.Store.{Db}
use latent_db.Kernel.Exec.{execute}
use latent_db.Kernel.Exec.Frames.{
  Frames, Frames-execute, Frames-bind, Frames-fresh_id, Frames-current_time,
}
use latent_db.Kernel.Audit.{insert_audit, emit_on}
use latent_db.Kernel.Allows.{Denies}
use latent_db.Kernel.Allows.Basics.{event_from-Frames, basic_rules}
use latent_db.Kernel.Writes.{Write, writes_audit, writes_event, one-Write, in_tenant}

-- A statement that always succeeds in one write.
pub updating-Frames :
    (k : Kernel) (t : String) (g : Db → Db)
    → ((d : Db) (d' : Db) → d' ≡ g d → Write t d d')
    → Frames (in_tenant t) (execute k (λ db. ok (g db)))
unfolding in_tenant
updating-Frames k t g h = Frames-execute k _ (λ d db e. one-Write (h d db (cc)))

pub writing-Frames :
    (k : Kernel) (t : String) (f : Db → Result Db)
    → ((d : Db) (d' : Db) → f d ≡ ok d' → Write t d d')
    → Frames (in_tenant t) (execute k f)
unfolding in_tenant
writing-Frames k t f h = Frames-execute k f (λ d db e. one-Write (h d db e))

pub insert_audit-Frames :
    (k : Kernel) (t : String) (ev : AuditEvent)
    → ev.tenant_id ≡ t
    → Frames (in_tenant t) (insert_audit k ev)
unfolding insert_audit
insert_audit-Frames k t ev h = writing-Frames k t _ (λ d db e. writes_audit ev h e)

module _ (k : Kernel) (ctx : AuthContext) where
  pub in_tenant-Denies : Denies k ctx (in_tenant ctx.tenant_id)
  in_tenant-Denies = record { audits = insert_audit-Frames k ctx.tenant_id }

  pub emit_on-Frames :
      (kind : String) (payload : Value)
      → Frames (in_tenant ctx.tenant_id) (emit_on k ctx kind payload)
  unfolding emit_on
  emit_on-Frames kind payload = Frames-bind _ _ (Frames-fresh_id k) λ id.
      Frames-bind _ _ (Frames-current_time k)
        λ now. writing-Frames k ctx.tenant_id _ (λ d db e. writes_event _ refl e)

pub ruleset write_rules =
    (basic_rules, event_from-Frames, in_tenant-Denies, insert_audit-Frames, emit_on-Frames)
