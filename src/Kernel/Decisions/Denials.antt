-- ===== src/Kernel/Decisions/Denials.antt =====
-- What a denial by `authorize` writes.
use latent_db.Prelude.{
  ℕ, subst, String, Bool, true, false, Option, none, some, [], ◌∷◌, ◌++◌, ◌≡◌, refl, inl, inr, any,
  if◌then◌else◌, ◌==◌, arith, suc, format, Bool-cases,
}
use latent_db.Contracts.Error.{Result, ok}
use latent_db.Contracts.Auth.{AuthContext}
use latent_db.Contracts.Audit.{AuditEvent}
use latent_db.Contracts.Permission.{Action, action_str}
use latent_db.Contracts.Record.{Rec}
use latent_db.Kernel.Host.{Kernel, DbError}
use latent_db.Kernel.Store.{Db}
use latent_db.Kernel.Exec.{
  State, statement, outcome, settle, pure, raise, ◌>>=◌, continue, ignore, fresh_id, current_time,
  execute,
}
use latent_db.Kernel.Audit.{audit_denial, event_from, audit, insert_audit, add_audit, audit_event}
use latent_db.Kernel.Rbac.{
  applies, is_trusted, role_grants, effective_grants, conclude, authorize, target_id, grants_allow,
}
use latent_db.Kernel.Access.{Granted}
use latent_db.Kernel.Decisions.{
  read_roles, refused, effective_grants-Answers, decide_on, allow-Granted,
}

outcome_ok :
    (s : State) (o : Option DbError) (f : Db → Result (Unit {0} × Db)) (d : Db)
    → o ≡ none
    → f s.db ≡ ok (tt, d)
    → (outcome s o f).1.db ≡ d
unfolding outcome settle
outcome_ok s none f d n e = rw e refl
outcome_ok s (some x) f d n e = absurd (grind arith)

pub execute_ok :
    (k : Kernel) (f : Db → Result Db) (s : State) (d : Db)
    → k.db_outcome s.tick ≡ none
    → f s.db ≡ ok d
    → (execute k f s).1.db ≡ d
unfolding execute statement
execute_ok k f s d n e = outcome_ok s (k.db_outcome s.tick) _ d n (rw e refl)

add_audit-ok :
    (ev : AuditEvent) (d : Db)
    → any (λ e. e.id == ev.id) d.audit_logs ≡ false
    → add_audit ev d ≡ ok (record d { audit_logs = d.audit_logs ++ ev ∷ [] })
unfolding add_audit
add_audit-ok ev d c = rw (c, add_audit) refl

pub insert_audit-logs :
    (k : Kernel) (ev : AuditEvent) (s : State)
    → k.db_outcome s.tick ≡ none
    → any (λ e. e.id == ev.id) s.db.audit_logs ≡ false
    → (insert_audit k ev s).1.db ≡ record s.db { audit_logs = s.db.audit_logs ++ ev ∷ [] }
unfolding insert_audit
insert_audit-logs k ev s n c = execute_ok k _ s _ n (add_audit-ok ev s.db c)

-- The event that `audit_denial` writes.
abbrev pub denial : AuthContext → Action → String → Option Rec → String → String → AuditEvent
denial ctx action resource target id now =
    record (audit_event ctx "permission.denied" (some resource) (target_id target) none none id
      now) { reason = some (format ("denied " ∷ action_str action ∷ " on " ∷ resource ∷ [])) }

module _ (k : Kernel) (ctx : AuthContext) (action : Action) (resource : String)
    (target : Option Rec) (up : (n : ℕ) → k.db_outcome n ≡ none) where
  abbrev IsDenied : Db → Db → Type 0
  IsDenied d d' =
      (id : String) × (now : String) × (d'
        ≡ record d { audit_logs = d.audit_logs ++ denial ctx action resource target id now ∷ [] })

  conclude_logs :
      (t : State)
      → ((n : ℕ) → any (λ e. e.id == k.new_id n) t.db.audit_logs ≡ false)
      → IsDenied t.db (conclude k ctx action resource target false t).1.db
  unfolding conclude audit_denial event_from fresh_id current_time pure raise ignore ◌>>=◌ continue
      audit
  conclude_logs t fresh = (
    k.new_id t.tick,
    k.now_rfc3339 (suc t.tick),
    insert_audit-logs k _ (record t { tick = suc (suc t.tick) }) (up _) (fresh t.tick),
  )

  IsDenied-by :
      (s : State) (b : Bool)
      → is_trusted ctx ≡ b
      → grants_allow k (role_grants ctx s.db) ctx action resource target ≡ false
      → ((n : ℕ) → any (λ e. e.id == k.new_id n) s.db.audit_logs ≡ false)
      → IsDenied s.db
          ((if b
              then pure tt
              else (effective_grants k ctx >>= decide_on k ctx action resource target))
            s).1.db
  unfolding ◌>>=◌ continue grants_allow
  IsDenied-by s true e g fresh = absurd (grind arith)
  IsDenied-by s false e g fresh = elim (effective_grants-Answers k ctx s) [
    | read_roles t f q ↦
        let c : any (applies k ctx action resource target) (role_grants ctx s.db) ≡ false =
          grind arith in
        rw q (
          rw c (
            subst (λ d. IsDenied d (conclude k ctx action resource target false t).1.db) f
              (conclude_logs t (λ n. rw f (fresh n)))))
    | refused t x f e' q ↦ absurd (f (up s.tick))
  ]

  -- A request that is not granted leaves the tables as they were, but for one row at the end of
  -- the audit log: the caller's `permission.denied`, with the action, the resource and the target;
  -- where the database refuses nothing and no id that the host draws stands in the log already.
  pub authorize-logs :
      (s : State)
      → ((n : ℕ) → any (λ e. e.id == k.new_id n) s.db.audit_logs ≡ false)
      → ¬ Granted k ctx action resource target s.db
      → (id : String) × (now : String) × ((authorize k ctx action resource target s).1.db
          ≡ record s.db {
            audit_logs = s.db.audit_logs ++ denial ctx action resource target id now ∷ [];
          })
  unfolding authorize
  authorize-logs s fresh n =
      IsDenied-by s (is_trusted ctx) refl
        (elim (Bool-cases (grants_allow k (role_grants ctx s.db) ctx action resource target)) [
          | inl e ↦ absurd (n (allow-Granted k ctx action resource target s.db e))
          | inr e ↦ e
        ])
        fresh
