-- ===== src/Kernel/Allows/Basics.antt =====
-- The access decision of crates/kernel/src/rbac.rs under a guarantee.
use latent_db.Prelude.{suc, String, Bool, true, false, Option, ◌≡◌, refl}
use latent_db.Contracts.Json.{Value}
use latent_db.Contracts.Auth.{AuthContext}
use latent_db.Contracts.Permission.{Action}
use latent_db.Contracts.Record.{Rec}
use latent_db.Contracts.Audit.{AuditEvent}
use latent_db.Kernel.Host.{Kernel}
use latent_db.Kernel.Exec.{Exec, ◌>>=◌, pure, fresh_id, current_time}
use latent_db.Kernel.Exec.Frames.{Guarantee, Frames, Frames-pure, Frames-ignore, frames_rules}
use latent_db.Kernel.Audit.{audit_event, event_from, audit, audit_denial}
use latent_db.Kernel.Rbac.{authorize, effective_grants, conclude, grants_for}
use latent_db.Kernel.Allows.{Denies}

module _ (k : Kernel) (ctx : AuthContext) {G : Guarantee} (h : Denies k ctx G) where
  -- Every event of the block is the context's, whatever is done with it.
  pub event_from-Frames {ℓ} :
      {A : Type ℓ} (action : String) (ot rid : Option String) (b a : Option Value)
      (f : AuditEvent → Exec A)
      → ((ev : AuditEvent) → ev.tenant_id ≡ ctx.tenant_id → Frames G (f ev))
      → Frames G (event_from k ctx action ot rid b a >>= f)
  unfolding event_from fresh_id current_time pure ◌>>=◌
  event_from-Frames action ot rid b a f h = record {
    at = λ s.
        (h (audit_event ctx action ot rid b a (k.new_id s.tick) (k.now_rfc3339 (suc s.tick)))
            refl).at
          (record s { tick = suc (suc s.tick) });
  }

  pub audit_denial-Frames :
      (action resource : String) (rid : Option String)
      → Frames G (audit_denial k ctx action resource rid)
  unfolding audit_denial audit
  audit_denial-Frames action resource rid =
      event_from-Frames _ _ _ _ _ _ λ ev e. Frames-ignore _ (h.audits _ e)

  pub effective_grants-Frames : Frames G (effective_grants k ctx)
  unfolding effective_grants
  effective_grants-Frames = search frames_rules

  conclude-Frames :
      (action : Action) (resource : String) (target : Option Rec) (b : Bool)
      → Frames G (conclude k ctx action resource target b)
  unfolding conclude
  conclude-Frames action resource target true = Frames-pure tt
  conclude-Frames action resource target false = search (frames_rules, audit_denial-Frames)

  pub authorize-Frames :
      (action : Action) (resource : String) (target : Option Rec)
      → Frames G (authorize k ctx action resource target)
  unfolding authorize
  authorize-Frames action resource target =
      search (frames_rules, effective_grants-Frames, conclude-Frames)

  pub grants_for-Frames :
      (action : Action) (resource : String) (target : Option Rec)
      → Frames G (grants_for k ctx action resource target)
  unfolding grants_for
  grants_for-Frames action resource target = search (frames_rules, effective_grants-Frames)

pub ruleset basic_rules = (
  frames_rules, audit_denial-Frames, effective_grants-Frames, authorize-Frames, grants_for-Frames,
)
