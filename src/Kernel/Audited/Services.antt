-- ===== src/Kernel/Audited/Services.antt =====
-- Decisions (crates/kernel/src/approval.rs) and, with them, every service and its audit events.
use latent_db.Prelude.{
  String, Bool, true, false, Option, none, some, ◌≡◌, refl, ap, ◌<◌, ◌⊎◌, ◌∙◌, length, arith, inl,
  inr,
}
use latent_db.Contracts.Error.{ok}
use latent_db.Contracts.Auth.{AuthContext}
use latent_db.Contracts.Audit.{AuditEvent}
use latent_db.Contracts.Record.{Rec}
use latent_db.Kernel.Host.{Kernel}
use latent_db.Kernel.Store.{Db, Approval}
use latent_db.Kernel.Exec.{Exec, State, execute}
use latent_db.Kernel.Exec.Frames.{Frames, Frames-pure, Frames-execute, frames_rules}
use latent_db.Kernel.Audit.{insert_audit, add_audit}
use latent_db.Kernel.Approvals.{
  load_approval, separate_duties, load_target, apply_target, apply_decision, set_decision,
  store_decision, decide_found, decide_approval,
}
use latent_db.Kernel.Tasks.{close_tasks, close_tasks_for_approval}
use latent_db.Kernel.Allows.{Denies, Allows}
use latent_db.Kernel.Allows.Basics.{basic_rules}
use latent_db.Kernel.Allows.Records.{load_record-Frames}
use latent_db.Kernel.Calls.{Call, step}
use latent_db.Kernel.Histories.{step_rel}
use latent_db.Kernel.Histories.Lists.{inserted}
use latent_db.Kernel.Writes.Basics.{write_rules}
use latent_db.Kernel.Writes.Approvals.{state_written}
use latent_db.Kernel.Audited.{audited, content, events_logged}
use latent_db.Kernel.Audited.Rules.{
  Settles, Logs, Settles-bind, Settles-Frames, Frames-transaction-Settles,
}
use latent_db.Kernel.Audited.Stores.{
  insert_audit-Logs, longer, then-Logs, Logs-then, event_from-then, store_type-logged,
  store_update-logged, store_workflow-logged, store_record-logged, store_fields-logged,
  store_lifecycle-logged, store_relation-logged, store_task-logged, store_status-logged,
  request_approval-logged, move_record-logged,
}

pub insert_audit-audited : (k : Kernel) (ev : AuditEvent) → Frames audited (insert_audit k ev)
unfolding insert_audit add_audit audited
insert_audit-audited k ev = Frames-execute k _ λ d d' e.
    let q = (inserted _ _ ev d.audit_logs d' e).1 in
    let c = ap content q in
    let n = ap events_logged q in let l = longer d.audit_logs ev in (omega arith, inl c)

-- An update of the approvals and tasks alone.
updates_aside :
    (k : Kernel) (g : Db → Db)
    → ((d : Db) → (content (g d) ≡ content d) × (events_logged (g d) ≡ events_logged d))
    → Frames audited (execute k (λ db. ok (g db)))
unfolding audited
updates_aside k g h = Frames-execute k _ λ d d' e.
    let q : d' ≡ g d = (cc) in
    let (c, n) = h d in
    let c' = ap content q ∙ c in let n' = ap events_logged q ∙ n in (omega arith, inl c')

settled {ℓ} : {A : Type ℓ} (m : Exec A) → Settles Logs m → Settles audited.rel m
unfolding audited
settled m sm = record { at = λ s a e. let l = sm.at s a e in (omega arith, inr l) }

module _ (k : Kernel) (ctx : AuthContext) where
  audited-Denies : Denies k ctx audited
  audited-Denies = record { audits = λ ev e. insert_audit-audited k ev }

  apply_target-settled :
      (id : String) (a : Approval) (target : Option Rec) (reason : Option String) (now : String)
      (rid state : Option String)
      → Settles audited.rel (apply_target k ctx id a target reason now rid state)
  unfolding apply_target
  apply_target-settled id a target reason now (some rid) (some state) = settled _ (
      then-Logs k ctx _ _ (state_written k ctx _ _ _) λ _.
        event_from-then k ctx _ _ _ _ _ _
          λ ev. Logs-then k ctx _ _ (insert_audit-Logs k _) λ _. search write_rules)
  apply_target-settled id a target reason now none none = Settles-Frames audited _ (Frames-pure tt)
  apply_target-settled id a target reason now none (some state) =
      Settles-Frames audited _ (Frames-pure tt)
  apply_target-settled id a target reason now (some rid) none =
      Settles-Frames audited _ (Frames-pure tt)

  apply_decision-settled :
      (id : String) (a : Approval) (target : Option Rec) (approved : Bool) (reason : Option String)
      (now : String)
      → Settles audited.rel (apply_decision k ctx id a target approved reason now)
  unfolding apply_decision
  apply_decision-settled id a target true reason now =
      apply_target-settled id a target reason now a.related_record_id a.target_state
  apply_decision-settled id a target false reason now =
      settled _ (event_from-then k ctx _ _ _ _ _ _ λ ev. insert_audit-Logs k _)

  decision_aside :
      (id : String) (approved : Bool) (reason : Option String) (now : String)
      → Frames audited (execute k (λ db. ok (set_decision ctx id approved reason now db)))
  unfolding set_decision
  decision_aside id approved reason now = updates_aside k _ λ d. (refl, refl)

  closing_aside :
      (id status now : String)
      → Frames audited (execute k (λ db. ok (close_tasks ctx.tenant_id id status now db)))
  unfolding close_tasks
  closing_aside id status now = updates_aside k _ λ d. (refl, refl)

  store_decision-audited :
      (id : String) (a : Approval) (target : Option Rec) (approved : Bool) (reason : Option String)
      (now : String)
      → Frames audited (store_decision k ctx id a target approved reason now)
  unfolding store_decision close_tasks_for_approval
  store_decision-audited id a target approved reason now = Frames-transaction-Settles audited k _ (
      Settles-bind audited _ _ (apply_decision-settled id a target approved reason now) λ _.
        Settles-Frames audited _ (search (frames_rules, decision_aside, closing_aside) depth 10))

  separate_duties-audited : (id : String) (b : Bool) → Frames audited (separate_duties k ctx id b)
  unfolding separate_duties
  separate_duties-audited id true = search (basic_rules, audited-Denies)
  separate_duties-audited id false = Frames-pure tt

  load_target-audited : (rid : Option String) → Frames audited (load_target k ctx rid)
  unfolding load_target
  load_target-audited none = Frames-pure none
  load_target-audited (some id) = load_record-Frames k ctx audited-Denies id

  decide_found-audited :
      (id : String) (approved : Bool) (reason : Option String) (a : Approval)
      → Frames audited (decide_found k ctx id approved reason a)
  unfolding decide_found
  decide_found-audited id approved reason a =
      search
        (
          basic_rules, audited-Denies, separate_duties-audited, load_target-audited,
          store_decision-audited,
        )
        depth 16

  decide_approval-audited :
      (id : String) (approved : Bool) (reason : Option String)
      → Frames audited (decide_approval k ctx id approved reason)
  unfolding decide_approval load_approval
  decide_approval-audited id approved reason = search (frames_rules, decide_found-audited) depth 8

  audited-Allows : Allows k ctx audited
  audited-Allows = record {
    denials = audited-Denies;
    stores_type = store_type-logged k ctx;
    stores_update = store_update-logged k ctx;
    stores_workflow = store_workflow-logged k ctx;
    stores_record = store_record-logged k ctx;
    stores_fields = store_fields-logged k ctx;
    stores_lifecycle = store_lifecycle-logged k ctx;
    stores_relation = store_relation-logged k ctx;
    stores_task = store_task-logged k ctx;
    stores_status = store_status-logged k ctx;
    requests = request_approval-logged k ctx;
    moves = move_record-logged k ctx;
    decides = decide_approval-audited;
  }

-- A call that changes an object type, a workflow, a record or a relation has added at least one
-- row to the audit log when it ends; whatever it answers, and whichever of its statements the
-- database refuses.
pub step-audited :
    (k : Kernel) (ctx : AuthContext) (c : Call) (s : State)
    → (content (step k ctx c s).db ≡ content s.db)
      ⊎ (length s.db.audit_logs < length (step k ctx c s).db.audit_logs)
unfolding audited
step-audited k ctx c s = (step_rel k ctx (audited-Allows k ctx) c s).1
