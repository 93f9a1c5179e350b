-- ===== src/Examples/Access.antt =====
-- Concrete runs: the access decision.
use latent_db.Prelude.{String, none, some, [], ◌∷◌, ◌++◌, ◌≡◌, ◌⊎◌, refl, arith}
use latent_db.Contracts.Error.{ok}
use latent_db.Contracts.Permission.{Action}
use mathlib.Core.List.{flat_map}
use latent_db.Contracts.Error.{err}
use latent_db.Contracts.Permission.{Action-discrete, matches_resource}
use latent_db.Kernel.Exec.{query, statement, outcome, settle, pure, ◌>>=◌, continue}
use latent_db.Kernel.Rbac.{
  authorize, effective_grants, role_grants, conclude, applies, action_covered_by, scope_ok,
  conditions_ok, denied,
}
use latent_db.Kernel.Access.{Granted, by_trust, by_role}
use latent_db.Kernel.Decisions.{authorize-Granted, authorize-decides}
use latent_db.Kernel.Decisions.Denials.{denial, authorize-logs}
use latent_db.Examples.{kernel, member, stranger, note, store, start}

authorize-Granted_example :
    Granted kernel member Action.read "object:note" (some note) store
    × ((authorize kernel member Action.read "object:note" (some note) start).1.db ≡ store)
unfolding authorize effective_grants role_grants conclude query statement outcome settle pure ◌>>=◌
    continue applies action_covered_by Action-discrete matches_resource scope_ok conditions_ok
    flat_map
authorize-Granted_example =
    authorize-Granted kernel member Action.read "object:note" (some note) start refl

authorize-decides_example :
    (Granted kernel member Action.create "object:note" none store
      × ((authorize kernel member Action.create "object:note" none start).0 ≡ ok tt))
    ⊎ (¬ Granted kernel member Action.create "object:note" none store
        × ((authorize kernel member Action.create "object:note" none start).0
            ≡ err (denied Action.create "object:note")))
authorize-decides_example =
    authorize-decides kernel member Action.create "object:note" none start refl

not-Granted : Granted kernel stranger Action.read "object:note" none store → ⊥
not-Granted (by_trust e) = absurd (grind arith)
not-Granted (by_role row g m t r n c) = absurd (grind arith)

authorize-logs_example :
    (id : String) × (now : String) × ((authorize kernel stranger Action.read "object:note" none
        start).1.db
      ≡ record store {
        audit_logs = store.audit_logs ++ denial stranger Action.read "object:note" none id now ∷ [];
      })
authorize-logs_example =
    authorize-logs kernel stranger Action.read "object:note" none (λ n. refl) start (λ n. refl)
      not-Granted
