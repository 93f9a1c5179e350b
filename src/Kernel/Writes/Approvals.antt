-- ===== src/Kernel/Writes/Approvals.antt =====
-- Approvals and transitions (crates/kernel/src/approval.rs, transition.rs), as writes.
use latent_db.Prelude.{String, Bool, true, false, Option, none, some, refl, ℕ}
use latent_db.Contracts.Json.{Value}
use latent_db.Contracts.Error.{ok}
use latent_db.Contracts.Auth.{AuthContext}
use latent_db.Contracts.Workflow.{Transition}
use latent_db.Contracts.Record.{Rec}
use latent_db.Kernel.Host.{Kernel}
use latent_db.Kernel.Store.{Approval}
use latent_db.Kernel.Exec.{execute}
use latent_db.Kernel.Exec.Frames.{Frames, Frames-bind, Frames-pure, Frames-transaction}
use latent_db.Kernel.Records.{update_records}
use latent_db.Kernel.Approvals.{
  insert_approval, load_approval, separate_duties, load_target, apply_target, apply_decision,
  set_decision, set_state, store_decision, decide_found, decide_approval,
}
use latent_db.Kernel.Transitions.{request_approval, move_record}
use latent_db.Kernel.Writes.{in_tenant, writes_approval, writes_decision, writes_state}
use latent_db.Kernel.Writes.Basics.{in_tenant-Denies, write_rules, writing-Frames, updating-Frames}
use latent_db.Kernel.Allows.{Allows}
use latent_db.Kernel.Allows.Records.{load_record-Frames}
use latent_db.Kernel.Writes.Stores.{
  insert_task-Frames, close_tasks-Frames, store_type-Frames, store_update-Frames,
  store_workflow-Frames, store_record-Frames, store_fields-Frames, store_lifecycle-Frames,
  store_relation-Frames, store_task-Frames, store_status-Frames,
}

module _ (k : Kernel) (ctx : AuthContext) where
  pub insert_approval-Frames :
      (id : String) (policy ot rid key state : Option String) (risk : Option ℕ) (payload : Value)
      → Frames
          (in_tenant ctx.tenant_id)
          (insert_approval k ctx id policy ot rid key state risk payload)
  unfolding insert_approval
  insert_approval-Frames id policy ot rid key state risk payload =
      Frames-bind _ _ (search write_rules)
        λ now. writing-Frames k _ _ (λ d d' e. writes_approval _ refl e)

  pub separate_duties-Frames :
      (id : String) (b : Bool) → Frames (in_tenant ctx.tenant_id) (separate_duties k ctx id b)
  unfolding separate_duties
  separate_duties-Frames id true = search write_rules
  separate_duties-Frames id false = Frames-pure tt

  load_approval-Frames :
      (id : String) → Frames (in_tenant ctx.tenant_id) (load_approval k ctx.tenant_id id)
  unfolding load_approval
  load_approval-Frames id = search write_rules

  load_target-Frames :
      (rid : Option String) → Frames (in_tenant ctx.tenant_id) (load_target k ctx rid)
  unfolding load_target
  load_target-Frames none = Frames-pure none
  load_target-Frames (some id) = load_record-Frames k ctx (in_tenant-Denies k ctx) id

  pub state_written :
      (id state now : String)
      → Frames
          (in_tenant ctx.tenant_id)
          (execute k (λ db. ok (update_records ctx.tenant_id id (set_state state now) db)))
  state_written id state now = updating-Frames k _ _ (λ d d' e. writes_state id state now e)

  apply_target-Frames :
      (id : String) (a : Approval) (target : Option Rec) (reason : Option String) (now : String)
      (rid state : Option String)
      → Frames (in_tenant ctx.tenant_id) (apply_target k ctx id a target reason now rid state)
  unfolding apply_target
  apply_target-Frames id a target reason now (some rid) (some state) =
      search (write_rules, state_written) depth 10
  apply_target-Frames id a target reason now none none = Frames-pure tt
  apply_target-Frames id a target reason now none (some state) = Frames-pure tt
  apply_target-Frames id a target reason now (some rid) none = Frames-pure tt

  apply_decision-Frames :
      (id : String) (a : Approval) (target : Option Rec) (approved : Bool) (reason : Option String)
      (now : String)
      → Frames (in_tenant ctx.tenant_id) (apply_decision k ctx id a target approved reason now)
  unfolding apply_decision
  apply_decision-Frames id a target true reason now =
      apply_target-Frames id a target reason now a.related_record_id a.target_state
  apply_decision-Frames id a target false reason now = search write_rules

  pub decision_written :
      (id : String) (approved : Bool) (reason : Option String) (now : String)
      → Frames
          (in_tenant ctx.tenant_id)
          (execute k (λ db. ok (set_decision ctx id approved reason now db)))
  decision_written id approved reason now =
      updating-Frames k _ _ (λ d d' e. writes_decision ctx id approved reason now refl e)

  store_decision-Frames :
      (id : String) (a : Approval) (target : Option Rec) (approved : Bool) (reason : Option String)
      (now : String)
      → Frames (in_tenant ctx.tenant_id) (store_decision k ctx id a target approved reason now)
  unfolding store_decision
  store_decision-Frames id a target approved reason now =
      search (write_rules, apply_decision-Frames, decision_written, close_tasks-Frames) depth 8

  decide_found-Frames :
      (id : String) (approved : Bool) (reason : Option String) (a : Approval)
      → Frames (in_tenant ctx.tenant_id) (decide_found k ctx id approved reason a)
  unfolding decide_found
  decide_found-Frames id approved reason a =
      search (write_rules, separate_duties-Frames, load_target-Frames, store_decision-Frames) depth
        16

  pub decide_approval-Frames :
      (id : String) (approved : Bool) (reason : Option String)
      → Frames (in_tenant ctx.tenant_id) (decide_approval k ctx id approved reason)
  unfolding decide_approval
  decide_approval-Frames id approved reason =
      search (write_rules, load_approval-Frames, decide_found-Frames) depth 8

  pub request_approval-Frames :
      (r : Rec) (id : String) (t : Transition) (current : String) (reason : Option String)
      (approval_id task_id : String)
      → Frames
          (in_tenant ctx.tenant_id)
          (request_approval k ctx r id t current reason approval_id task_id)
  unfolding request_approval
  request_approval-Frames r id t current reason approval_id task_id =
      search (write_rules, insert_approval-Frames, insert_task-Frames) depth 12

  pub move_record-Frames :
      (r : Rec) (id : String) (t : Transition) (current : String) (reason : Option String)
      (now : String)
      → Frames (in_tenant ctx.tenant_id) (move_record k ctx r id t current reason now)
  unfolding move_record
  move_record-Frames r id t current reason now = search (write_rules, state_written) depth 10

-- Every service of a context writes only within the tenant of the context.
pub in_tenant-Allows : (k : Kernel) (ctx : AuthContext) → Allows k ctx (in_tenant ctx.tenant_id)
in_tenant-Allows k ctx = record {
  denials = in_tenant-Denies k ctx;
  stores_type = store_type-Frames k ctx;
  stores_update = store_update-Frames k ctx;
  stores_workflow = store_workflow-Frames k ctx;
  stores_record = store_record-Frames k ctx;
  stores_fields = store_fields-Frames k ctx;
  stores_lifecycle = store_lifecycle-Frames k ctx;
  stores_relation = store_relation-Frames k ctx;
  stores_task = store_task-Frames k ctx;
  stores_status = store_status-Frames k ctx;
  requests = λ r id t current reason approval_id task_id.
      Frames-transaction k _
        (request_approval-Frames k ctx r id t current reason approval_id task_id);
  moves = λ r id t current reason now.
      Frames-transaction k _ (move_record-Frames k ctx r id t current reason now);
  decides = decide_approval-Frames k ctx;
}
