-- ===== src/Kernel/Allows/Accounts.antt =====
-- What is written to the audit log leaves the accounts as they are.
use latent_db.Prelude.{String, Option, ◌≡◌, refl, sym, ap, ◌∙◌}
use latent_db.Contracts.Json.{Value}
use latent_db.Contracts.Error.{ok}
use latent_db.Contracts.Auth.{AuthContext}
use latent_db.Contracts.Audit.{AuditEvent}
use latent_db.Kernel.Host.{Kernel}
use latent_db.Kernel.Store.{Db}
use latent_db.Kernel.Exec.{State, execute, transaction, ◌>>=◌, ◌>>◌}
use latent_db.Kernel.Exec.Frames.{Guarantee, Frames, Frames-execute}
use latent_db.Kernel.Exec.Returns.{bind-step, update-ok}
use latent_db.Kernel.Exec.Commits.{transaction-ok}
use latent_db.Kernel.Histories.Lists.{inserted}
use latent_db.Kernel.Audit.{insert_audit, add_audit, event_from}
use latent_db.Kernel.Allows.{Denies}
use latent_db.Kernel.Allows.Basics.{event_from-Frames}

unfoldable pub same_accounts : Guarantee
same_accounts = record {
  rel = λ a b. b.accounts ≡ a.accounts;
  rel_refl = λ d. refl;
  rel_trans = λ a b c p q. q ∙ p;
}

module _ (k : Kernel) where
  pub insert_audit-accounts : (ev : AuditEvent) → Frames same_accounts (insert_audit k ev)
  unfolding insert_audit same_accounts add_audit
  insert_audit-accounts ev =
      Frames-execute k _ (λ d db e. ap (λ x. x.accounts) (inserted _ _ ev d.audit_logs db e).1)

  pub same_accounts-Denies : (ctx : AuthContext) → Denies k ctx same_accounts
  same_accounts-Denies ctx = record { audits = λ ev e. insert_audit-accounts ev }

  -- A transaction of one statement and its audit row: the accounts are those of the statement.
  pub audited_update-ok :
      (ctx : AuthContext) (g : Db → Db) (action : String) (ot rid : Option String)
      (b a : Option Value) (s : State) (u : Unit {0})
      → let body =
          execute k (λ db. ok (g db)) >> (event_from k ctx action ot rid b a >>= insert_audit k) in
        (transaction k body s).0 ≡ ok u → (transaction k body s).1.db.accounts ≡ (g s.db).accounts
  unfolding same_accounts
  audited_update-ok ctx g action ot rid b a s u e =
      let tail = event_from k ctx action ot rid b a >>= insert_audit k in
      let first = execute k (λ db. ok (g db)) in
      let (s0, d0, h0, r0) = transaction-ok k (first >> tail) s u e in
      let (v, s1, h1, t1, r1, e1) = bind-step first (λ _. tail) s0 u h0 in
      let kept =
        (event_from-Frames k ctx (same_accounts-Denies ctx) action ot rid b a (insert_audit k)
            (λ ev e. insert_audit-accounts ev)).at
          s1 in
      ap (λ d. d.accounts) r0
      ∙ ap (λ p. p.1.db.accounts) r1
      ∙ kept
      ∙ ap (λ x. x.db.accounts) (sym t1)
      ∙ ap (λ d. d.accounts) (update-ok k g s0 v h1)
      ∙ ap (λ d. (g d).accounts) d0
