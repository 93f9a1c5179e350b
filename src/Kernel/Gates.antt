-- ===== src/Kernel/Gates.antt =====
-- What has held where a transition or a decision went through.
pub mod Deciders
pub mod Requests
use latent_db.Prelude.{
  ℕ, String, Bool, true, false, not, ◌&&◌, ◌||◌, Option, none, some, List, [], ◌∷◌, ◌≡◌, refl, ap,
  sym, ◌∙◌, subst, ◌⊎◌, inl, inr, if◌then◌else◌, ◌==◌, eq_iff, arith, Bool-cases, unwrap_or,
}
use latent_db.Contracts.Error.{ApiError, Result, ok, err, panic}
use latent_db.Contracts.Auth.{AuthContext}
use latent_db.Contracts.Permission.{Action}
use latent_db.Contracts.Field.{ObjectTypeDef}
use latent_db.Contracts.Record.{Rec}
use latent_db.Contracts.Workflow.{Transition, WorkflowDef, transition_from}
use latent_db.Kernel.Host.{Kernel}
use latent_db.Kernel.Store.{Db, Approval}
use latent_db.Kernel.Exec.{
  Exec, State, query, pure, raise, ensure, ◌>>=◌, or_raise, current_time, fresh_id, transaction,
}
use latent_db.Kernel.Exec.Frames.{db-query}
use latent_db.Kernel.Rbac.{authorize, is_trusted}
use latent_db.Kernel.Objects.{find_type, load_object_type}
use latent_db.Kernel.Workflows.{find_workflow, load_workflow}
use latent_db.Kernel.Records.{find_record, load_record, require_record, resource_for}
use latent_db.Kernel.Approvals.{
  find_approval, load_approval, is_own_request, separate_duties, load_target, decide_found,
  decide_approval, store_decision, decide,
}
use latent_db.Kernel.Transitions.{
  TransitionResult, request_approval, move_record, perform_by, transition_record,
}
use latent_db.Kernel.Access.{Granted}
use latent_db.Kernel.Decisions.{authorize-Granted}
use latent_db.Kernel.Exec.Returns.{bind-ok, query-ok, or_raise-ok, required-ok, ok_inj}
use latent_db.Kernel.Reads.{
  require_record-found, require_record-db, load_object_type-found, load_object_type-db,
}

-- The gate of a transition of the record `id` by the key `key`, and what is answered.
pub record Passes (k : Kernel) (ctx : AuthContext) (id key : String) (db : Db)
    (res : TransitionResult) : Type 0 where
  pub moved : Rec
  pub object_type : ObjectTypeDef
  pub workflow_key : String
  pub workflow : WorkflowDef
  pub transition : Transition
  pub found : find_record ctx.tenant_id id db ≡ some moved
  pub typed : find_type ctx.tenant_id moved.object_type db ≡ some object_type
  pub keyed : object_type.workflow_key ≡ some workflow_key
  pub defined : find_workflow ctx.tenant_id workflow_key db ≡ some workflow
  pub declared :
      transition_from workflow (unwrap_or moved.workflow_state workflow.initial_state) key
      ≡ some transition
  pub granted :
      Granted k ctx Action.transition
        (unwrap_or transition.guard_permission (resource_for moved.object_type))
        (some moved)
        db
  pub answer_from : res.from ≡ unwrap_or moved.workflow_state workflow.initial_state
  pub answer_to : res.to ≡ transition.to
  pub answer_status :
      res.status ≡ (if transition.requires_approval then "pending_approval" else "transitioned")

module _ (k : Kernel) (ctx : AuthContext) where
  perform_by-answer :
      (r : Rec) (id : String) (t : Transition) (current : String) (reason : Option String)
      (now : String) (gated : Bool) (s : State) (res : TransitionResult)
      → (perform_by k ctx r id t current reason now gated s).0 ≡ ok res
      → (res.from ≡ current)
        × (res.to ≡ t.to)
        × (res.status ≡ (if gated then "pending_approval" else "transitioned"))
  unfolding perform_by pure
  perform_by-answer r id t current reason now true s res h =
      let (a, h0, h1) = bind-ok (fresh_id k) _ s res h in
      let (b, h2, h3) = bind-ok (fresh_id k) _ _ res h1 in
      let (u, h4, h5) =
        bind-ok (transaction k (request_approval k ctx r id t current reason a b)) _ _ res h3 in
      let q = sym (ok_inj h5) in (ap (λ x. x.from) q, ap (λ x. x.to) q, ap (λ x. x.status) q)
  perform_by-answer r id t current reason now false s res h =
      let (u, h4, h5) =
        bind-ok (transaction k (move_record k ctx r id t current reason now)) _ s res h in
      let q = sym (ok_inj h5) in (ap (λ x. x.from) q, ap (λ x. x.to) q, ap (λ x. x.status) q)

  pub or_raise_same :
      {A : Type 0} (o : Option A) (e : ApiError) (s : State) → (or_raise o e s).1 ≡ s
  unfolding raise pure
  or_raise_same none e s = refl
  or_raise_same (some b) e s = refl

  -- A transition that goes through is one that the record's workflow declares from the state that
  -- the record is in, and the caller is granted `transition` on its guard, or on the type where it
  -- has none. The answer names that state and the transition's target, and says whether the record
  -- has moved or an approval is awaited, as the transition demands.
  pub transition_record-Passes :
      (id key : String) (reason : Option String) (s : State) (res : TransitionResult)
      → (transition_record k ctx id key reason s).0 ≡ ok res
      → Passes k ctx id key s.db res
  unfolding transition_record load_workflow
  transition_record-Passes id key reason s res h =
      let (r, a1, h1) = bind-ok (require_record k ctx id "record not found") _ s res h in
      let d1 = require_record-db k ctx id "record not found" s in
      let (ot, a2, h2) = bind-ok (load_object_type k ctx.tenant_id r.object_type) _ _ res h1 in
      let d2 = load_object_type-db k ctx r.object_type _ ∙ d1 in
      let (wk, a3, h3) = bind-ok (or_raise ot.workflow_key _) _ _ res h2 in
      let d3 = ap (λ x. x.db) (or_raise_same ot.workflow_key _ _) ∙ d2 in
      let (found, a4, h4) = bind-ok (query k (find_workflow ctx.tenant_id wk)) _ _ res h3 in
      let d4 = db-query k _ _ ∙ d3 in
      let (wf, a5, h5) = bind-ok (or_raise found _) _ _ res h4 in
      let d5 = ap (λ x. x.db) (or_raise_same found _ _) ∙ d4 in
      let (t, a6, h6) =
        bind-ok (or_raise (transition_from wf (unwrap_or r.workflow_state wf.initial_state) key) _)
          _ _ res h5 in
      let d6 =
        ap (λ x. x.db)
          (or_raise_same (transition_from wf (unwrap_or r.workflow_state wf.initial_state) key) _ _)
        ∙ d5 in
      let (u, a7, h7) =
        bind-ok
          (authorize k ctx Action.transition
            (unwrap_or t.guard_permission (resource_for r.object_type)) (some r))
          _ _ res h6 in
      let (g, d7) =
        authorize-Granted k ctx Action.transition
          (unwrap_or t.guard_permission (resource_for r.object_type)) (some r) _ a7 in
      let (now, a8, h8) = bind-ok (current_time k) _ _ res h7 in
      let (f1, f2, f3) =
        perform_by-answer r id t (unwrap_or r.workflow_state wf.initial_state) reason now
          t.requires_approval _ res h8 in
      record {
        moved = r;
        object_type = ot;
        workflow_key = wk;
        workflow = wf;
        transition = t;
        found = require_record-found k ctx id _ s r a1;
        typed =
            sym (ap (find_type ctx.tenant_id r.object_type) d1)
            ∙ load_object_type-found k ctx r.object_type _ ot a2;
        keyed = or_raise-ok _ _ _ wk a3;
        defined =
            sym (ap (find_workflow ctx.tenant_id wk) d3)
            ∙ query-ok k _ _ found a4
            ∙ or_raise-ok _ _ _ wf a5;
        declared = or_raise-ok _ _ _ t a6;
        granted =
            subst
              (λ d.
                Granted k ctx Action.transition
                  (unwrap_or t.guard_permission (resource_for r.object_type)) (some r) d)
              d6 g;
        answer_from = f1;
        answer_to = f2;
        answer_status = f3;
      }
