-- ===== src/Examples/Closures.antt =====
-- Concrete runs: tenants and users who are taken out of service, and what is counted.
use latent_db.Prelude.{List, ◌+◌, false, some, [], ◌∷◌, ◌≡◌, refl, ◌==◌, ◌&&◌, if◌then◌else◌}
use latent_db.Contracts.Auth.{AuthContext, Source}
use latent_db.Kernel.Store.{Tenant, UserRow}
use latent_db.Kernel.Calls.{Call, run, gets_record}
use latent_db.Kernel.Records.{get_record, require_record, load_record}
use latent_db.Kernel.Exec.{
  State, ◌>>=◌, pure, query, transaction, execute, fresh_id, current_time, clock, statement, raise,
}
use latent_db.Kernel.Audit.{event_from, insert_audit, add_audit}
use latent_db.Kernel.Rbac.{authorize}
use latent_db.Kernel.Principals.{find_tenant, find_user, roles_for_principal, role_keys_of}
use latent_db.Kernel.Auth.Logout.{revoke_sessions_for_user, revoke_user}
use latent_db.Kernel.Auth.{session_context, authenticate}
use latent_db.Kernel.Tenants.{set_tenant_status}
use latent_db.Kernel.Tenants.Suspended.{set_tenant_status-authenticate}
use latent_db.Kernel.Identity.{
  User, set_user_status, get_user, row_to_user, store_user_status, set_status,
}
use latent_db.Kernel.Identity.Disabled.{set_user_status-authenticate}
use latent_db.Kernel.Usage.{period_of, current_period, record_usage, upsert_usage}
use latent_db.Kernel.Usage.Meters.{usage_of, record_usage-usage_of}
use latent_db.Examples.{admin}
use latent_db.Examples.Logins.{clockwork, acme, ann, ann_session, signed_in, count_marks}

abbrev idle : Tenant
idle = record acme { id = "idle"; slug = "idle" }

abbrev bob : UserRow
bob = record ann { id = "bob"; email = "bob@acme" }

abbrev crowded : State
crowded = record signed_in {
  db = record signed_in.db {
    accounts = record signed_in.db.accounts { tenants = idle ∷ acme ∷ []; users = bob ∷ ann ∷ [] };
  };
}

abbrev as_ann : AuthContext
as_ann = session_context ann_session ann ("clerk" ∷ []) "req" Source.api

abbrev bob_disabled : User
bob_disabled = record {
  id = "bob";
  tenant_id = "acme";
  email = "bob@acme";
  name = "Ann";
  status = "disabled";
  is_platform_admin = false;
  default_org_id = some "org";
  role_keys = [];
  created_at = "";
}

abbrev later : List (AuthContext × Call)
later = (admin, gets_record "n1") ∷ []

set_tenant_status-authenticate_example : ¬ (as_ann.tenant_id ≡ "idle")
unfolding set_tenant_status ◌>>=◌ pure query find_tenant transaction execute event_from fresh_id
    current_time insert_audit add_audit authenticate clock count_marks run get_record require_record
    load_record raise
set_tenant_status-authenticate_example =
    set_tenant_status-authenticate clockwork admin "idle" "suspended" "lds_1" "req" Source.api
      crowded (record idle { status = "suspended" }) later as_ann refl refl refl

set_user_status-authenticate_example : ¬ (as_ann.actor_id ≡ "bob")
unfolding set_user_status get_user authorize find_user roles_for_principal role_keys_of row_to_user
    store_user_status set_status revoke_sessions_for_user revoke_user statement ◌>>=◌ pure query
    find_tenant transaction execute event_from fresh_id current_time insert_audit add_audit
    authenticate clock count_marks run get_record require_record load_record raise
set_user_status-authenticate_example =
    set_user_status-authenticate clockwork admin "bob" "disabled" "lds_1" "req" Source.api crowded
      bob_disabled later as_ann refl refl refl refl refl

record_usage-usage_of_example :
    usage_of "acme" "api_calls" "2025-01"
      (record_usage clockwork "acme" "api_calls" 1 signed_in).1.db.usage_meters
    ≡ usage_of "acme" "api_calls" "2025-01" []
      + (if "acme" == "acme"
            && ("api_calls" == "api_calls" && period_of clockwork (clockwork.now 1) == "2025-01")
          then 1
          else 0)
unfolding record_usage fresh_id current_period current_time clock pure ◌>>=◌ execute upsert_usage
record_usage-usage_of_example =
    record_usage-usage_of clockwork "acme" "api_calls" 1 signed_in tt "acme" "api_calls" "2025-01"
      refl refl
