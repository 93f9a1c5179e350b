-- ===== src/Kernel/Gates/Deciders.antt =====
-- What has held where a decision on an approval went through.
use latent_db.Prelude.{
  String, Bool, true, false, Option, none, some, ◌≡◌, refl, ap, sym, ◌∙◌, subst, ◌==◌, eq_iff,
  arith, unwrap_or,
}
use latent_db.Contracts.Error.{ok, failed_precondition}
use latent_db.Contracts.Auth.{AuthContext}
use latent_db.Contracts.Permission.{Action}
use latent_db.Contracts.Record.{Rec}
use latent_db.Kernel.Host.{Kernel}
use latent_db.Kernel.Store.{Db, Approval}
use latent_db.Kernel.Exec.{State, query, pure, raise, ensure, or_raise, current_time}
use latent_db.Kernel.Exec.Frames.{db-query}
use latent_db.Kernel.Rbac.{authorize}
use latent_db.Kernel.Audit.{audit_denial}
use latent_db.Kernel.Records.{find_record, load_record, resource_for}
use latent_db.Kernel.Approvals.{
  find_approval, load_approval, is_own_request, separate_duties, load_target, decide_found,
  decide_approval, store_decision, decide,
}
use latent_db.Kernel.Access.{Granted}
use latent_db.Kernel.Decisions.{authorize-Granted}
use latent_db.Kernel.Exec.Returns.{bind-ok, query-ok, or_raise-ok, ok_inj, ensure-ok, ensure_same}
use latent_db.Kernel.Gates.{or_raise_same}

abbrev pub target_of : String → Option String → Db → Option Rec
target_of tenant_id none db = none
target_of tenant_id (some id) db = find_record tenant_id id db

-- The decision `approved` of the approval `id`, and what is answered.
pub record Decides (k : Kernel) (ctx : AuthContext) (id : String) (approved : Bool)
    (reason : Option String) (db : Db) (res : Approval) : Type 0 where
  pub asked : Approval
  pub decided_at : String
  pub found : find_approval ctx.tenant_id id db ≡ some asked
  pub pending : asked.status ≡ "pending"
  pub separate : is_own_request k ctx asked ≡ false
  pub granted :
      Granted k ctx Action.approve
        (resource_for (unwrap_or asked.related_object_type ""))
        (target_of ctx.tenant_id asked.related_record_id db)
        db
  pub answer : res ≡ decide ctx approved reason decided_at asked

module _ (k : Kernel) (ctx : AuthContext) where
  separate-ok :
      (id : String) (b : Bool) (s : State) (u : Unit {0})
      → (separate_duties k ctx id b s).0 ≡ ok u
      → (b ≡ false) × ((separate_duties k ctx id b s).1.db ≡ s.db)
  unfolding separate_duties pure raise
  separate-ok id false s u h = (refl, refl)
  separate-ok id true s u h =
      let (v, a, h') = bind-ok (audit_denial k ctx "approve" "approval" (some id)) _ s u h in
      absurd (grind arith)

  load_target-ok :
      (rid : Option String) (s : State) (o : Option Rec)
      → (load_target k ctx rid s).0 ≡ ok o
      → (target_of ctx.tenant_id rid s.db ≡ o) × ((load_target k ctx rid s).1.db ≡ s.db)
  unfolding load_target load_record pure
  load_target-ok none s o h = (ok_inj h, refl)
  load_target-ok (some id) s o h = (query-ok k _ s o h, db-query k _ s)

  -- A decision that goes through is on an approval of the caller's tenant that was still pending,
  -- by a caller that is granted `approve` on the related type and record, and that has not requested
  -- it where duties are separated (unless trusted). The answer is the approval with the decision.
  pub decide_approval-Decides :
      (id : String) (approved : Bool) (reason : Option String) (s : State) (res : Approval)
      → (decide_approval k ctx id approved reason s).0 ≡ ok res
      → Decides k ctx id approved reason s.db res
  unfolding decide_approval decide_found load_approval pure
  decide_approval-Decides id approved reason s res h =
      let (o, a1, h1) = bind-ok (query k (find_approval ctx.tenant_id id)) _ s res h in
      let d1 = db-query k (find_approval ctx.tenant_id id) s in
      let (a, a2, h2) = bind-ok (or_raise o _) _ _ res h1 in
      let d2 = ap (λ x. x.db) (or_raise_same k ctx o _ _) ∙ d1 in
      let (u, a3, h3) =
        bind-ok (ensure (a.status == "pending") (failed_precondition "approval already decided")) _
          _ res h2 in
      let d3 =
        ap (λ x. x.db)
          (ensure_same (a.status == "pending") (failed_precondition "approval already decided") _)
        ∙ d2 in
      let (v, a4, h4) = bind-ok (separate_duties k ctx id (is_own_request k ctx a)) _ _ res h3 in
      let (own, d4) = separate-ok id (is_own_request k ctx a) _ v a4 in
      let (target, a5, h5) = bind-ok (load_target k ctx a.related_record_id) _ _ res h4 in
      let (t, d5) = load_target-ok a.related_record_id _ target a5 in
      let (w, a6, h6) =
        bind-ok
          (authorize k ctx Action.approve (resource_for (unwrap_or a.related_object_type ""))
            target)
          _ _ res h5 in
      let (g, d6) =
        authorize-Granted k ctx Action.approve (resource_for (unwrap_or a.related_object_type ""))
          target _ a6 in
      let (now, a7, h7) = bind-ok (current_time k) _ _ res h6 in
      let (z, a8, h8) = bind-ok (store_decision k ctx id a target approved reason now) _ _ res h7 in
      record {
        asked = a;
        decided_at = now;
        found = query-ok k _ s o a1 ∙ or_raise-ok o _ _ a a2;
        pending = (eq_iff a.status "pending").0 (ensure-ok (a.status == "pending") _ _ u a3);
        separate = own;
        granted =
            subst
              (λ x.
                Granted k ctx Action.approve (resource_for (unwrap_or a.related_object_type "")) x
                  s.db)
              (sym t ∙ ap (target_of ctx.tenant_id a.related_record_id) (d4 ∙ d3))
              (subst
                (λ d.
                  Granted k ctx Action.approve (resource_for (unwrap_or a.related_object_type ""))
                    target d)
                (d5 ∙ d4 ∙ d3) g);
        answer = sym (ok_inj h8);
      }
