-- ===== src/Kernel/Identity/Disabled.antt =====
-- crates/kernel/src/identity.rs: a user who is no longer active is let in nowhere
use latent_db.Prelude.{
  List, ℕ, String, true, false, not, Option, some, none, inl, inr, ◌||◌, ◌&&◌, ◌≡◌, refl, sym, ap,
  ◌∙◌, ◌==◌, arith, find, find-updated, find-after_update, eq_iff, update_where, if◌then◌else◌,
  Bool-cases,
}
use latent_db.Contracts.Error.{ok, validation, failed_precondition}
use latent_db.Contracts.Auth.{AuthContext, Source, ActorType}
use latent_db.Contracts.Permission.{Action}
use latent_db.Kernel.Host.{Kernel, DbError}
use latent_db.Kernel.Store.{Db, UserRow, SessionRow}
use latent_db.Kernel.Exec.{State, ensure, pure, ◌>>=◌, ◌>>◌, statement, outcome, settle}
use latent_db.Kernel.Exec.Frames.{Frames, frames_rules}
use latent_db.Kernel.Exec.Returns.{bind-step}
use latent_db.Kernel.Allows.Accounts.{same_accounts, same_accounts-Denies, audited_update-ok}
use latent_db.Kernel.Allows.Basics.{authorize-Frames}
use latent_db.Kernel.Rbac.{authorize}
use latent_db.Kernel.Principals.{find_user, is_user, roles_for_principal}
use latent_db.Kernel.Auth.{
  user_status, authenticate, find_session, principal_status, is_live_session,
}
use latent_db.Kernel.Auth.Accepts.{authenticate-Accepts}
use latent_db.Kernel.Auth.Logout.{
  revoke_user, revoke_sessions_for_user, update_sessions, is_users, revoke,
}
use latent_db.Kernel.Calls.{Call, run}
use latent_db.Kernel.Histories.Credentials.{run-accounts}
use latent_db.Kernel.Identity.{
  User, get_user, set_status, store_user_status, revoke_unless, set_user_status,
}

revoked-ok :
    (s : State) (o : Option DbError) (n : ℕ) (f : Db → ℕ) (g : Db → Db)
    → (outcome s o (λ db. ok (f db, g db))).0 ≡ ok n
    → (outcome s o (λ db. ok (f db, g db))).1.db ≡ g s.db
unfolding outcome settle
revoked-ok s none n f g e = refl
revoked-ok s (some x) n f g e = absurd (grind arith)

not_active :
    (status : String) (u : UserRow)
    → u.status ≡ status
    → (status == "active") ≡ false
    → ¬ (user_status (some u) ≡ some "active")
not_active status u q i g =
    let w : u.status ≡ "active" = (cc) in
    let w' = (eq_iff status "active").1 (sym q ∙ w) in absurd (grind arith)

module _ (k : Kernel) (ctx : AuthContext) (id : String) where
  revoke_sessions-ok :
      (s : State) (n : ℕ)
      → (revoke_sessions_for_user k ctx.tenant_id id s).0 ≡ ok n
      → (revoke_sessions_for_user k ctx.tenant_id id s).1.db ≡ revoke_user ctx.tenant_id id s.db
  unfolding revoke_sessions_for_user statement
  revoke_sessions-ok s n e = revoked-ok s (k.db_outcome s.tick) n _ (revoke_user ctx.tenant_id id) e

  revoke_unless-ok :
      (s : State) (u : Unit {0})
      → (revoke_unless k ctx id false s).0 ≡ ok u
      → (revoke_unless k ctx id false s).1.db ≡ revoke_user ctx.tenant_id id s.db
  unfolding pure
  revoke_unless-ok s u e =
      let (n, s', h, t, r, e') =
        bind-step (revoke_sessions_for_user k ctx.tenant_id id) (λ _. pure tt) s u e in
      ap (λ p. p.1.db) r ∙ ap (λ x. x.db) (sym t) ∙ revoke_sessions-ok s n h

  get_user-Frames : Frames same_accounts (get_user k ctx id)
  unfolding get_user roles_for_principal
  get_user-Frames = search (frames_rules, authorize-Frames k ctx (same_accounts-Denies k ctx))

  get_user-accounts : (s : State) → (get_user k ctx id s).1.db.accounts ≡ s.db.accounts
  unfolding same_accounts
  get_user-accounts s = get_user-Frames.at s

  store_user_status-ok :
      (before status : String) (s : State) (u : Unit {0})
      → (store_user_status k ctx id before status s).0 ≡ ok u
      → (store_user_status k ctx id before status s).1.db.accounts
        ≡ (set_status ctx.tenant_id id status s.db).accounts
  unfolding store_user_status
  store_user_status-ok before status s u e =
      audited_update-ok k ctx (set_status ctx.tenant_id id status) _ _ _ _ _ s u e

  -- The accounts after a call that disables: the status is set, and the sessions are revoked.
  set_user_status-ok :
      (status : String) (s : State) (u : User)
      → (status == "active") ≡ false
      → (set_user_status k ctx id status s).0 ≡ ok u
      → (d d' : Db) × (d'.accounts ≡ (set_status ctx.tenant_id id status d).accounts)
        × ((set_user_status k ctx id status s).1.db.accounts
            ≡ (revoke_user ctx.tenant_id id d').accounts)
  unfolding set_user_status
  set_user_status-ok status s u i e =
      let allowed =
        ensure (status == "active" || status == "disabled")
          (validation "status must be 'active' or 'disabled'") in
      let other =
        ensure (not (id == ctx.actor_id && not (status == "active")))
          (failed_precondition "you cannot disable your own account") in
      let end = revoke_unless k ctx id (status == "active") >> get_user k ctx id in
      let rest = λ (before : User). store_user_status k ctx id before.status status >> end in
      let (u1, s1, h1, t1, r1, e1) =
        bind-step (authorize k ctx Action.configure "admin:users" none)
          (λ _. allowed >> (other >> (get_user k ctx id >>= rest))) s u e in
      let (u2, s2, h2, t2, r2, e2) =
        bind-step allowed (λ _. other >> (get_user k ctx id >>= rest)) s1 u e1 in
      let (u3, s3, h3, t3, r3, e3) = bind-step other (λ _. get_user k ctx id >>= rest) s2 u e2 in
      let (before, s4, h4, t4, r4, e4) = bind-step (get_user k ctx id) rest s3 u e3 in
      let (u5, s5, h5, t5, r5, e5) =
        bind-step (store_user_status k ctx id before.status status) (λ _. end) s4 u e4 in
      let (u6, s6, h6, t6, r6, e6) =
        bind-step (revoke_unless k ctx id (status == "active")) (λ _. get_user k ctx id) s5 u e5 in
      let revoked : s6.db ≡ revoke_user ctx.tenant_id id s5.db =
        ap (λ x. x.db) (sym t6)
        ∙ ap (λ b. (revoke_unless k ctx id b s5).1.db) i
        ∙ revoke_unless-ok s5 u6 (ap (λ b. (revoke_unless k ctx id b s5).0) (sym i) ∙ h6) in
      (
        s4.db,
        s5.db,
        ap (λ x. x.db.accounts) (sym t5) ∙ store_user_status-ok before.status status s4 u5 h5,
        ap (λ p. p.1.db.accounts) (r1 ∙ r2 ∙ r3 ∙ r4 ∙ r5 ∙ r6)
            ∙ get_user-accounts s6
            ∙ ap (λ d. d.accounts) revoked,
      )

  -- No session that is still open is the user's.
  no-session :
      (hash : String) (d d' : Db) (row : SessionRow)
      → d'.accounts ≡ (revoke_user ctx.tenant_id id d).accounts
      → find_session hash d' ≡ some row
      → row.tenant_id ≡ ctx.tenant_id
      → ¬ (row.user_id ≡ id)
  unfolding find_session revoke_user update_sessions
  no-session hash d d' row e h a b =
      let found : find (is_live_session hash) (revoke_user ctx.tenant_id id d).accounts.sessions
          ≡ some row =
        ap (λ acc. find (is_live_session hash) acc.sessions) (sym e) ∙ h in
      let (live, c) =
        find-after_update (is_live_session hash) (is_users ctx.tenant_id id) revoke
          d.accounts.sessions row found in
      let ta = (eq_iff row.tenant_id ctx.tenant_id).1 a in
      let ub = (eq_iff row.user_id id).1 b in
      elim c [
        | inl (x, q) ↦ let r : row.revoked ≡ true = ap (λ y. y.revoked) q in absurd (grind arith)
        | inr n ↦ absurd (grind arith)
      ]

  -- The user's row does not say that the user is active.
  no-key :
      (status : String)
      → (status == "active") ≡ false
      → (d d' : Db) → d'.accounts.users ≡ (set_status ctx.tenant_id id status d).accounts.users
      → ¬ (principal_status "user" ctx.tenant_id id d' ≡ some "active")
  unfolding principal_status find_user set_status
  no-key status i d d' e h =
      let rows =
        update_where (is_user ctx.tenant_id id) (λ u. record u { status = status })
          d.accounts.users in
      by_row (find (is_user ctx.tenant_id id) rows) refl
        (ap (λ us. user_status (find (is_user ctx.tenant_id id) us)) (sym e) ∙ h)
    where
      by_row :
          (o : Option UserRow)
          → find (is_user ctx.tenant_id id) (
              update_where
                (is_user ctx.tenant_id id)
                (λ u. record u { status = status })
                d.accounts.users)
            ≡ o
          → user_status o ≡ some "active"
          → ⊥
      by_row none f g = absurd (grind arith)
      by_row (some u) f g =
          let (x, q) =
            find-updated (is_user ctx.tenant_id id) (λ u. record u { status = status })
              d.accounts.users (λ x. refl) u f in
          not_active status u (ap (λ y. y.status) q) i g

  of_user :
      (row_type : String)
      → (if row_type == "user" then ActorType.user else ActorType.service_account) ≡ ActorType.user
      → row_type ≡ "user"
  of_user row_type e = elim (Bool-cases (row_type == "user")) [
    | inl b ↦ (eq_iff row_type "user").0 b
    | inr b ↦ absurd (grind arith)
  ]

  -- Once a call has returned that disables a user of the caller's tenant, and after any history of
  -- calls of the object type, workflow, record, relation, task, approval and transition services,
  -- neither a session nor an API key gets a context that acts as this user in this tenant.
  pub set_user_status-authenticate :
      (status token request_id : String) (source : Source) (s : State) (u : User)
      (calls : List (AuthContext × Call)) (given : AuthContext)
      → (status == "active") ≡ false
      → (set_user_status k ctx id status s).0 ≡ ok u
      → (authenticate k token request_id source
          (run k calls (set_user_status k ctx id status s).1)).0
        ≡ ok given
      → given.actor_type ≡ ActorType.user
      → given.tenant_id ≡ ctx.tenant_id
      → ¬ (given.actor_id ≡ id)
  unfolding revoke_user update_sessions
  set_user_status-authenticate status token request_id source s u calls given i e h ty t a =
      let (d, d', c, left) = set_user_status-ok status s u i e in
      let s' = run k calls (set_user_status k ctx id status s).1 in
      let c' = run-accounts k calls (set_user_status k ctx id status s).1 ∙ left in
      elim (authenticate-Accepts k token request_id source s' given h) [
        | inl b ↦
            no-session (k.sha256_hex token) d' s'.db b.row c' b.session
              (sym (ap (λ x. x.tenant_id) b.context) ∙ t) (sym (ap (λ x. x.actor_id) b.context) ∙ a)
        | inr b ↦
            let kind = of_user b.row.principal_type (sym (ap (λ x. x.actor_type) b.context) ∙ ty) in
            let tenant = sym (ap (λ x. x.tenant_id) b.context) ∙ t in
            let actor = sym (ap (λ x. x.actor_id) b.context) ∙ a in
            let seen =
              ap (λ x. principal_status x b.row.tenant_id b.row.principal_id s'.db) (sym kind)
              ∙ b.principal in
            let seen' =
              ap (λ x. principal_status "user" x b.row.principal_id s'.db) (sym tenant) ∙ seen in
            let seen'' =
              ap (λ x. principal_status "user" ctx.tenant_id x s'.db) (sym actor) ∙ seen' in
            no-key status i d s'.db (users_kept d' s'.db c' ∙ ap (λ acc. acc.users) c) seen''
      ]
    where
      users_kept :
          (d1 d2 : Db)
          → d2.accounts ≡ (revoke_user ctx.tenant_id id d1).accounts
          → d2.accounts.users ≡ d1.accounts.users
      users_kept d1 d2 q = ap (λ acc. acc.users) q
