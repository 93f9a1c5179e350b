-- ===== src/Kernel/Tenants/Suspended.antt =====
-- crates/kernel/src/tenant.rs: a tenant that is no longer active lets nobody in
use latent_db.Prelude.{
  List, String, false, Option, some, inl, inr, ◌||◌, ◌≡◌, refl, sym, ap, ◌∙◌, ◌==◌, subst, arith,
  find, find-updated,
}
use latent_db.Contracts.Error.{ok, validation, not_found}
use latent_db.Contracts.Auth.{AuthContext, Source, is_system}
use latent_db.Kernel.Host.{Kernel}
use latent_db.Kernel.Store.{Db, Tenant}
use latent_db.Kernel.Exec.{State, query, ensure, or_raise, pure, ◌>>=◌, ◌>>◌}
use latent_db.Kernel.Exec.Returns.{bind-step}
use latent_db.Kernel.Allows.Accounts.{audited_update-ok}
use latent_db.Kernel.Principals.{find_tenant}
use latent_db.Kernel.Auth.{authenticate}
use latent_db.Kernel.Auth.Accepts.{TenantActive, authenticate-Accepts}
use latent_db.Kernel.Calls.{Call, run}
use latent_db.Kernel.Histories.Credentials.{run-accounts}
use latent_db.Kernel.Tenants.{ensure_platform, set_status, store_tenant_status, set_tenant_status}

some_inj : {a b : Tenant} → some a ≡ some b → a ≡ b
some_inj e = cc

module _ (k : Kernel) (ctx : AuthContext) (id status : String) where
  store_tenant_status-ok :
      (before : String) (s : State) (u : Unit {0})
      → (store_tenant_status k ctx id before status s).0 ≡ ok u
      → (store_tenant_status k ctx id before status s).1.db.accounts
        ≡ (set_status id status s.db).accounts
  unfolding store_tenant_status
  store_tenant_status-ok before s u e =
      audited_update-ok k ctx (set_status id status) _ _ _ _ _ s u e

  -- The accounts after the call are those of some tables after the update.
  set_tenant_status-ok :
      (s : State) (t : Tenant)
      → (set_tenant_status k ctx id status s).0 ≡ ok t
      → (d : Db) × ((set_tenant_status k ctx id status s).1.db.accounts
          ≡ (set_status id status d).accounts)
  unfolding set_tenant_status pure
  set_tenant_status-ok s t e =
      let end = λ (row : Tenant).
        store_tenant_status k ctx id row.status status >> pure (record row { status = status }) in
      let take = λ (found : Option Tenant). or_raise found (not_found "tenant not found") >>= end in
      let look = query k (find_tenant id) >>= take in
      let test =
        ensure (status == "active" || status == "suspended")
          (validation "status must be 'active' or 'suspended'") in
      let (u1, s1, h1, t1, r1, e1) =
        bind-step (ensure_platform k ctx "configure" (ctx.is_platform_admin || is_system ctx))
          (λ _. test >> look) s t e in
      let (u2, s2, h2, t2, r2, e2) = bind-step test (λ _. look) s1 t e1 in
      let (found, s3, h3, t3, r3, e3) = bind-step (query k (find_tenant id)) take s2 t e2 in
      let (row, s4, h4, t4, r4, e4) =
        bind-step (or_raise found (not_found "tenant not found")) end s3 t e3 in
      let (u5, s5, h5, t5, r5, e5) =
        bind-step (store_tenant_status k ctx id row.status status)
          (λ _. pure (record row { status = status })) s4 t e4 in
      (
        s4.db,
        ap (λ p. p.1.db.accounts) (r1 ∙ r2 ∙ r3 ∙ r4 ∙ r5)
            ∙ ap (λ x. x.db.accounts) (sym t5)
            ∙ store_tenant_status-ok row.status s4 u5 h5,
      )

  inactive :
      (status == "active") ≡ false
      → (d d' : Db) → d'.accounts ≡ (set_status id status d).accounts
      → ¬ TenantActive id d'
  unfolding find_tenant set_status
  inactive i d d' e (t, f, a) =
      let moved : find (λ (x : Tenant). x.id == id) (set_status id status d).accounts.tenants
          ≡ some t =
        ap (λ acc. find (λ (x : Tenant). x.id == id) acc.tenants) (sym e) ∙ f in
      let (x, q) =
        find-updated (λ (x : Tenant). x.id == id) (λ x. record x { status = status })
          d.accounts.tenants (λ x. refl) t moved in
      let q' : t.status ≡ status = ap (λ y. y.status) q in absurd (grind arith)

  -- Once a call has returned that takes a tenant out of service, and after any history of calls of the
  -- object type, workflow, record, relation, task, approval and transition services, no session and
  -- no API key gets a context of that tenant, whoever it belongs to.
  pub set_tenant_status-authenticate :
      (token request_id : String) (source : Source) (s : State) (t : Tenant)
      (calls : List (AuthContext × Call)) (given : AuthContext)
      → (status == "active") ≡ false
      → (set_tenant_status k ctx id status s).0 ≡ ok t
      → (authenticate k token request_id source
          (run k calls (set_tenant_status k ctx id status s).1)).0
        ≡ ok given
      → ¬ (given.tenant_id ≡ id)
  set_tenant_status-authenticate token request_id source s t calls given i e h q =
      let (d, left) = set_tenant_status-ok s t e in
      let s' = run k calls (set_tenant_status k ctx id status s).1 in
      let c = run-accounts k calls (set_tenant_status k ctx id status s).1 ∙ left in
      elim (authenticate-Accepts k token request_id source s' given h) [
        | inl b ↦
            inactive i d s'.db c (
              subst (λ x. TenantActive x s'.db) (sym (ap (λ x. x.tenant_id) b.context) ∙ q)
                b.tenant)
        | inr b ↦
            inactive i d s'.db c (
              subst (λ x. TenantActive x s'.db) (sym (ap (λ x. x.tenant_id) b.context) ∙ q)
                b.tenant)
      ]
