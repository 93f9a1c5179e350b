-- ===== src/Kernel/Decisions.antt =====
-- `authorize` of crates/kernel/src/rbac.rs, against the relation `Granted`.
pub mod Denials
use latent_db.Prelude.{
  ℕ, subst, String, Bool, true, false, not, ◌&&◌, ◌||◌, Option, none, some, List, [], ◌∷◌, ◌++◌,
  ◌≡◌, refl, ap, sym, ◌∙◌, ◌≢◌, ◌⊎◌, ◌↔◌, inl, inr, has_str, any, select, if◌then◌else◌, ◌==◌,
  arith, suc, format, Bool-cases,
}
use mathlib.Core.List.{flat_map}
use latent_db.Contracts.Error.{ApiError, Result, ok, err, panic}
use latent_db.Contracts.Auth.{AuthContext}
use latent_db.Contracts.Audit.{AuditEvent}
use latent_db.Contracts.Permission.{Action, PermissionGrant, action_str}
use latent_db.Contracts.Record.{Rec}
use latent_db.Kernel.Host.{Kernel, DbError, map_db_err, unique_constraint}
use latent_db.Kernel.Store.{Db, RoleRow}
use latent_db.Kernel.Exec.{
  Exec, State, query, statement, outcome, settle, pure, raise, ◌>>=◌, continue, ignore, fresh_id,
  current_time, execute,
}
use latent_db.Kernel.Audit.{audit_denial, event_from, audit, insert_audit, add_audit, audit_event}
use latent_db.Kernel.Rbac.{
  applies, is_trusted, is_empty, role_grants, effective_grants, conclude, authorize, denied,
  target_id, grants_allow,
}
use latent_db.Kernel.Access.{Granted, by_trust, by_role, Granted-of-any, any-of-Covers}

none_held :
    (t : String) (keys : List String) (rows : List RoleRow)
    → is_empty keys ≡ true
    → select (λ r. r.tenant_id == t && has_str keys r.key) rows ≡ []
none_held t [] [] e = refl
none_held t [] (r ∷ rows) e =
    let ih = none_held t [] rows e in
    elim (Bool-cases (r.tenant_id == t)) [ inl h ↦ grind arith | inr h ↦ grind arith ]
none_held t (x ∷ keys) rows e = grind arith

no_role : (db : Db) (ctx : AuthContext) → is_empty ctx.role_keys ≡ true → [] ≡ role_grants ctx db
unfolding role_grants flat_map
no_role db ctx e =
    sym
      (ap (flat_map (λ (r : RoleRow). r.grants)) (none_held ctx.tenant_id ctx.role_keys db.roles e))

-- The roles are read, or the database refuses.
pub data Answers (k : Kernel) (ctx : AuthContext) (s : State)
    (p : Result (List PermissionGrant) × State) : Type 0 where
  read_roles : (t : State) → t.db ≡ s.db → p ≡ (ok (role_grants ctx s.db), t) → Answers k ctx s p
  refused :
      (t : State) (x : ApiError)
      → k.db_outcome s.tick ≢ none
      → t.db ≡ s.db
      → p ≡ (err x, t)
      → Answers k ctx s p

module _ (k : Kernel) (ctx : AuthContext) (s : State) where
  query-Answers :
      (o : Option DbError)
      → k.db_outcome s.tick ≡ o
      → Answers k ctx s (outcome s o (λ db. ok (role_grants ctx db, db)))
  unfolding outcome settle
  query-Answers none e = read_roles (record s { tick = suc s.tick }) refl refl
  query-Answers (some x) e =
      refused (record s { tick = suc s.tick }) (map_db_err x) (λ n. absurd (grind arith)) refl refl

  Answers-by :
      (b : Bool)
      → is_empty ctx.role_keys ≡ b
      → Answers k ctx s ((if b then pure [] else query k (role_grants ctx)) s)
  unfolding pure query statement
  Answers-by true e = read_roles s refl (ap (λ g. (ok g, s)) (no_role s.db ctx e))
  Answers-by false e = query-Answers (k.db_outcome s.tick) refl

  pub effective_grants-Answers : Answers k ctx s (effective_grants k ctx s)
  unfolding effective_grants
  effective_grants-Answers = Answers-by (is_empty ctx.role_keys) refl

module _ (k : Kernel) (ctx : AuthContext) (action : Action) (resource : String)
    (target : Option Rec) where
  conclude_ok :
      (b : Bool) (t : State)
      → (conclude k ctx action resource target b t).0 ≡ ok tt
      → (b ≡ true) × ((conclude k ctx action resource target b t).1.db ≡ t.db)
  unfolding conclude audit_denial event_from fresh_id current_time pure raise ignore ◌>>=◌ continue
  conclude_ok true t e = (refl, refl)
  conclude_ok false t e = grind arith

  conclude_answer :
      (b : Bool) (t : State)
      → (conclude k ctx action resource target b t).0
        ≡ (if b then ok tt else err (denied action resource))
  unfolding conclude audit_denial event_from fresh_id current_time pure raise ignore ◌>>=◌ continue
  conclude_answer true t = refl
  conclude_answer false t = refl

  abbrev pub decide_on : List PermissionGrant → Exec (Unit {0})
  decide_on grants =
      conclude k ctx action resource target (any (applies k ctx action resource target) grants)

  after_roles :
      (s : State) (p : Result (List PermissionGrant) × State)
      → Answers k ctx s p
      → (continue p decide_on).0 ≡ ok tt
      → (any (applies k ctx action resource target) (role_grants ctx s.db) ≡ true)
        × ((continue p decide_on).1.db ≡ s.db)
  unfolding continue
  after_roles s p (read_roles t e q) =
      subst
        (λ x.
          (continue x decide_on).0 ≡ ok tt
          → (any (applies k ctx action resource target) (role_grants ctx s.db) ≡ true)
            × ((continue x decide_on).1.db ≡ s.db))
        (sym q) (λ h. let (a, f) = conclude_ok _ t h in (a, f ∙ e))
  after_roles s p (refused t x n e q) =
      subst
        (λ y.
          (continue y decide_on).0 ≡ ok tt
          → (any (applies k ctx action resource target) (role_grants ctx s.db) ≡ true)
            × ((continue y decide_on).1.db ≡ s.db))
        (sym q) (λ h. absurd (grind arith))

  roles_answer :
      (s : State) (p : Result (List PermissionGrant) × State)
      → Answers k ctx s p
      → k.db_outcome s.tick ≡ none
      → (continue p decide_on).0 ≡ (
          if any (applies k ctx action resource target) (role_grants ctx s.db)
          then ok tt
          else err (denied action resource))
  unfolding continue
  roles_answer s p (read_roles t e q) n = rw q (conclude_answer _ t)
  roles_answer s p (refused t x f e q) n = absurd (f n)

  sound_by :
      (s : State) (b : Bool)
      → is_trusted ctx ≡ b
      → ((if b then pure tt else (effective_grants k ctx >>= decide_on)) s).0 ≡ ok tt
      → Granted k ctx action resource target s.db
        × (((if b then pure tt else (effective_grants k ctx >>= decide_on)) s).1.db ≡ s.db)
  unfolding pure ◌>>=◌
  sound_by s true e h = (by_trust e, refl)
  sound_by s false e h =
      let (a, f) = after_roles s (effective_grants k ctx s) (effective_grants-Answers k ctx s) h in
      (Granted-of-any k ctx action resource target s.db a, f)

  -- Where `authorize` lets a request through, the context is trusted or holds, in its own tenant,
  -- a role with a grant that covers the request; and the check has changed nothing.
  pub authorize-Granted :
      (s : State)
      → (authorize k ctx action resource target s).0 ≡ ok tt
      → Granted k ctx action resource target s.db
        × ((authorize k ctx action resource target s).1.db ≡ s.db)
  unfolding authorize
  authorize-Granted s = sound_by s (is_trusted ctx) refl

  answer_by :
      (s : State) (b : Bool)
      → k.db_outcome s.tick ≡ none
      → ((if b then pure tt else (effective_grants k ctx >>= decide_on)) s).0 ≡ (
          if (if b then true else any (applies k ctx action resource target) (role_grants ctx s.db))
          then ok tt
          else err (denied action resource))
  unfolding pure ◌>>=◌
  answer_by s true n = refl
  answer_by s false n =
      roles_answer s (effective_grants k ctx s) (effective_grants-Answers k ctx s) n

  -- `authorize` agrees with `grants_allow` on the grants of the context's roles.
  authorize-grants_allow :
      (s : State)
      → k.db_outcome s.tick ≡ none
      → (authorize k ctx action resource target s).0 ≡ (
          if grants_allow k (role_grants ctx s.db) ctx action resource target
          then ok tt
          else err (denied action resource))
  unfolding authorize grants_allow
  authorize-grants_allow s n = answer_by s (is_trusted ctx) n

  Granted-allow :
      (db : Db)
      → Granted k ctx action resource target db
      → grants_allow k (role_grants ctx db) ctx action resource target ≡ true
  unfolding grants_allow
  Granted-allow db (by_trust e) = rw e refl
  Granted-allow db (by_role row g m t r n c) =
      let a = any-of-Covers k ctx action resource target db row g m t r n c in
      elim (Bool-cases (is_trusted ctx)) [ inl e ↦ rw e refl | inr e ↦ rw e a ]

  pub allow-Granted :
      (db : Db)
      → grants_allow k (role_grants ctx db) ctx action resource target ≡ true
      → Granted k ctx action resource target db
  unfolding grants_allow
  allow-Granted db h = elim (Bool-cases (is_trusted ctx)) [
    | inl e ↦ by_trust e
    | inr e ↦ Granted-of-any k ctx action resource target db (grind arith)
  ]

  -- Where the database answers the query for the roles, `authorize` lets through exactly the
  -- requests that are granted, and answers `forbidden` with the action and the resource to all
  -- others.
  pub authorize-decides :
      (s : State)
      → k.db_outcome s.tick ≡ none
      → (Granted k ctx action resource target s.db
          × ((authorize k ctx action resource target s).0 ≡ ok tt))
        ⊎ (¬ Granted k ctx action resource target s.db
            × ((authorize k ctx action resource target s).0 ≡ err (denied action resource)))
  authorize-decides s n =
      let a = authorize-grants_allow s n in
      elim (Bool-cases (grants_allow k (role_grants ctx s.db) ctx action resource target)) [
        | inl e ↦ inl (allow-Granted s.db e, grind arith)
        | inr e ↦ inr ((λ g. let t = Granted-allow s.db g in absurd (grind arith)), grind arith)
      ]
