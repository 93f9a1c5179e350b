-- ===== src/Kernel/Gates/Requests.antt =====
-- A transition that waits for approval.
use latent_db.Prelude.{String, true, Option, some, ◌≡◌, refl, ap, sym, ◌∙◌, subst, unwrap_or}
use latent_db.Contracts.Error.{ApiError, Result, ok, err, panic, failed_precondition}
use latent_db.Contracts.Auth.{AuthContext}
use latent_db.Contracts.Audit.{AuditEvent, Event}
use latent_db.Contracts.Permission.{Action}
use latent_db.Contracts.Field.{ObjectTypeDef}
use latent_db.Contracts.Workflow.{Transition, WorkflowDef, transition_from}
use latent_db.Contracts.Record.{Rec}
use latent_db.Kernel.Host.{Kernel}
use latent_db.Kernel.Store.{Db, Task, Approval}
use latent_db.Kernel.Exec.{
  Exec, State, ◌>>=◌, ◌>>◌, continue, query, or_raise, current_time, execute,
}
use latent_db.Kernel.Exec.Frames.{Guarantee, Frames, Frames-execute, frames_rules, db-query}
use latent_db.Kernel.Exec.Returns.{query-ok, or_raise-ok, or_raise-db}
use latent_db.Kernel.Audit.{insert_audit, add_audit, emit_on, add_event, event_from}
use latent_db.Kernel.Rbac.{authorize}
use latent_db.Kernel.Objects.{find_type, load_object_type}
use latent_db.Kernel.Workflows.{find_workflow, load_workflow}
use latent_db.Kernel.Records.{find_record, require_record}
use latent_db.Kernel.Tasks.{insert_task, add_task}
use latent_db.Kernel.Approvals.{insert_approval, add_approval}
use latent_db.Kernel.Transitions.{request_approval, perform_by, perform, transition_record}
use latent_db.Kernel.Allows.{Denies}
use latent_db.Kernel.Allows.Basics.{authorize-Frames}
use latent_db.Kernel.Histories.Lists.{inserted}
use latent_db.Kernel.Reads.{
  require_record-found, require_record-db, load_object_type-found, load_object_type-db,
}

-- The records stay as they are.
unfoldable keeps_records : Guarantee
keeps_records = record {
  rel = λ a b. b.records ≡ a.records;
  rel_refl = λ d. refl;
  rel_trans = λ a b c p q. q ∙ p;
}

insert_audit-keeps : (k : Kernel) (ev : AuditEvent) → Frames keeps_records (insert_audit k ev)
unfolding insert_audit add_audit keeps_records
insert_audit-keeps k ev =
    Frames-execute k _ λ d d' e. ap (λ x. x.records) (inserted _ _ ev d.audit_logs d' e).1

module _ (k : Kernel) (ctx : AuthContext) where
  event-keeps : (ev : Event) → Frames keeps_records (execute k (add_event ev))
  unfolding add_event keeps_records
  event-keeps ev =
      Frames-execute k _ λ d d' e. ap (λ x. x.records) (inserted _ _ ev d.events d' e).1

  task-keeps : (t : Task) → Frames keeps_records (execute k (add_task t))
  unfolding add_task keeps_records
  task-keeps t = Frames-execute k _ λ d d' e. ap (λ x. x.records) (inserted _ _ t d.tasks d' e).1

  approval-keeps : (a : Approval) → Frames keeps_records (execute k (add_approval a))
  unfolding add_approval keeps_records
  approval-keeps a =
      Frames-execute k _ λ d d' e. ap (λ x. x.records) (inserted _ _ a d.approvals d' e).1

  request-keeps :
      (r : Rec) (id : String) (t : Transition) (current : String) (reason : Option String)
      (now : String)
      → Frames keeps_records (perform_by k ctx r id t current reason now true)
  unfolding perform_by request_approval insert_approval insert_task emit_on event_from
  request-keeps r id t current reason now =
      search (frames_rules, insert_audit-keeps, event-keeps, task-keeps, approval-keeps) depth 24

-- A chain keeps the records where its first action does, and the rest does after each of its returns.
module _ {A B : Type 0} where
  continue-records :
      (d : Db) (p : Result A × State) (f : A → Exec B)
      → p.1.db.records ≡ d.records
      → ((a : A) → p.0 ≡ ok a → (f a p.1).1.db.records ≡ p.1.db.records)
      → (continue p f).1.db.records ≡ d.records
  unfolding continue
  continue-records d (ok a, s) f e h = h a refl ∙ e
  continue-records d (err x, s) f e h = e
  continue-records d (panic, s) f e h = e

  bind-records :
      (m : Exec A) (f : A → Exec B) (s : State)
      → (m s).1.db.records ≡ s.db.records
      → ((a : A) → (m s).0 ≡ ok a → (f a (m s).1).1.db.records ≡ (m s).1.db.records)
      → ((m >>= f) s).1.db.records ≡ s.db.records
  unfolding ◌>>=◌
  bind-records m f s e h = continue-records s.db (m s) f e h

  -- A lookup that leaves the tables, and finds nothing but `a`, goes on with `a` where it goes on.
  bind-found :
      (m : Exec A) (a : A) (f : A → Exec B) (s : State)
      → (m s).1.db ≡ s.db
      → ((x : A) → (m s).0 ≡ ok x → x ≡ a)
      → ((s' : State) → s'.db ≡ s.db → (f a s').1.db.records ≡ s'.db.records)
      → ((m >>= f) s).1.db.records ≡ s.db.records
  bind-found m a f s d found rest = bind-records m f s (ap (λ db. db.records) d) λ x h.
      subst (λ y. (f y (m s).1).1.db.records ≡ (m s).1.db.records) (sym (found x h))
        (rest (m s).1 d)

same {ℓ} : {A : Type ℓ} {a b : A} → some a ≡ some b → a ≡ b
same e = cc

module _ (k : Kernel) (ctx : AuthContext) where
  raised {ℓ} : {A : Type ℓ} (o : Option A) (e : ApiError) (s : State) → (or_raise o e s).1.db ≡ s.db
  raised o e s = ap (λ x. x.db) (or_raise-db o e s)

  denials_keep : Denies k ctx keeps_records
  denials_keep = record { audits = λ ev e. insert_audit-keeps k ev }

  authorize-records :
      (action : Action) (resource : String) (target : Option Rec) (s : State)
      → (authorize k ctx action resource target s).1.db.records ≡ s.db.records
  unfolding keeps_records
  authorize-records action resource target s =
      (authorize-Frames k ctx denials_keep action resource target).at s

  -- What follows the lookups of a transition, where approval is demanded.
  gated-records :
      (r : Rec) (id resource : String) (t : Transition) (current : String) (reason : Option String)
      (s : State)
      → t.requires_approval ≡ true
      → ((authorize k ctx Action.transition resource (some r)
            >> (current_time k >>= λ now. perform k ctx r id t current reason now))
          s).1.db.records
        ≡ s.db.records
  unfolding keeps_records current_time
  gated-records r id resource t current reason s e =
      bind-records _ _ s (authorize-records Action.transition resource (some r) s) λ u h.
        bind-records (current_time k) _ _ refl λ now h'.
          let kept : Frames keeps_records (perform k ctx r id t current reason now) =
            subst (λ b. Frames keeps_records (perform_by k ctx r id t current reason now b)) (sym e)
              (request-keeps k ctx r id t current reason now) in
          kept.at _

  -- Where the record is found in the caller's tenant, its type names a workflow, and the transition
  -- that this declares for the key from the record's state demands approval, the call of the
  -- transition, however it ends and whatever the database refuses, moves no record and changes none.
  pub transition_record-records :
      (id key : String) (reason : Option String) (s : State) (r : Rec) (ot : ObjectTypeDef)
      (wk : String) (wf : WorkflowDef) (t : Transition)
      → find_record ctx.tenant_id id s.db ≡ some r
      → find_type ctx.tenant_id r.object_type s.db ≡ some ot
      → ot.workflow_key ≡ some wk
      → find_workflow ctx.tenant_id wk s.db ≡ some wf
      → transition_from wf (unwrap_or r.workflow_state wf.initial_state) key ≡ some t
      → t.requires_approval ≡ true
      → (transition_record k ctx id key reason s).1.db.records ≡ s.db.records
  unfolding transition_record load_workflow
  transition_record-records id key reason s r ot wk wf t e1 e2 e3 e4 e5 e6 =
      let missing = failed_precondition "workflow not found" in
      bind-found (require_record k ctx id _) r _ s (require_record-db k ctx id _ s)
        (λ x h. same (sym (require_record-found k ctx id _ s x h) ∙ e1))
        λ s1 d1.
          bind-found (load_object_type k ctx.tenant_id r.object_type) ot _ s1
            (load_object_type-db k ctx r.object_type s1)
            (λ x h. same (
              sym (load_object_type-found k ctx r.object_type s1 x h)
              ∙ ap (find_type ctx.tenant_id r.object_type) d1
              ∙ e2))
            λ s2 d2.
              bind-found (or_raise ot.workflow_key _) wk _ s2 (raised ot.workflow_key _ s2)
                (λ x h. same (sym (or_raise-ok _ _ _ x h) ∙ e3))
                λ s3 d3.
                  bind-found (query k (find_workflow ctx.tenant_id wk)) (some wf) _ s3
                    (db-query k _ s3)
                    (λ x h.
                      sym (query-ok k (find_workflow ctx.tenant_id wk) s3 x h)
                      ∙ ap (find_workflow ctx.tenant_id wk) (d3 ∙ d2 ∙ d1)
                      ∙ e4)
                    λ s4 d4.
                      bind-found (or_raise (some wf) missing) wf _ s4 (raised (some wf) missing s4)
                        (λ x h. same (sym (or_raise-ok (some wf) missing s4 x h)))
                        λ s5 d5.
                          bind-found (or_raise (transition_from wf _ key) _) t _ s5
                            (raised (transition_from wf _ key) _ s5)
                            (λ x h. same (sym (or_raise-ok _ _ _ x h) ∙ e5))
                            λ s6 d6. gated-records r id _ t _ reason s6 e6
