-- ===== src/Examples/Logins.antt =====
-- Concrete runs: logging in, the credentials that are accepted, and logging out.
use Prim.Native.Nat.{zero}
use latent_db.Prelude.{ℕ, suc, String, false, none, some, [], ◌∷◌, ◌≡◌, refl, ap, ◌⊎◌, format}
use latent_db.Contracts.Error.{ok}
use latent_db.Contracts.Auth.{Source, default_flags}
use latent_db.Kernel.Host.{Kernel}
use latent_db.Kernel.Store.{Db, empty_db, Tenant, UserRow, SessionRow, RoleAssignment}
use latent_db.Kernel.Exec.{State, ◌>>=◌, query, fresh_id, recover, pure, execute, clock}
use latent_db.Kernel.Migration.Services.{logout_migration_output}
use latent_db.Kernel.Migration.Sessions.{load_session}
use latent_db.Kernel.RateLimit.{Limiter, lookup, is_locked, reset}
use latent_db.Kernel.Principals.{find_tenant, role_keys_of}
use latent_db.Kernel.Auth.{find_account, session_context, authenticate}
use latent_db.Kernel.Auth.Login.{
  Attempt, LoginResult, limiter_key, login_context, login_attempt, find_by_slug, find_by_email,
  too_many, session_ttl_days, expiry,
}
use latent_db.Kernel.Auth.Logout.{logout}
use latent_db.Kernel.Auth.Accepts.{BySession, ByKey, authenticate-Accepts}
use latent_db.Kernel.Auth.Failures.{EndsAs, entered, login_attempt-locked}
use latent_db.Kernel.Auth.Refusals.{Refused, IsInvalid, login_attempt-Refused}
use latent_db.Kernel.Auth.Revoked.{logout-authenticate}
use latent_db.Kernel.Auth.RoundTrip.{Ready}
use latent_db.Kernel.Auth.Welcome.{Known, login-authenticate}
use latent_db.Examples.{host}

-- A time as so many marks, which can be read back.
unfoldable pub tally : ℕ → String
tally zero = ""
tally (suc n) = String.◌∷◌ "I" (tally n)

unfoldable pub count_marks : String → ℕ
count_marks String.[] = 0
count_marks (String.◌∷◌ c s) = suc (count_marks s)

abbrev pub clockwork : Kernel
clockwork = record {
  flags = default_flags;
  host = record host {
    now = λ n. 0;
    to_rfc3339 = tally;
    parse_rfc3339 = λ s. some (count_marks s);
  };
}

-- The clock shows the number of its reading.
abbrev ticking : Kernel
ticking = record clockwork { host = record clockwork.host { now = λ n. n } }

tally_lem : (n : ℕ) → count_marks (tally n) ≡ n
unfolding tally count_marks
tally_lem zero = refl
tally_lem (suc n) = ap suc (tally_lem n)

abbrev pub acme : Tenant
acme = record {
  id = "acme";
  name = "Acme";
  slug = "acme";
  plan = "standard";
  status = "active";
  created_at = "";
}

abbrev pub ann : UserRow
ann = record {
  id = "ann";
  tenant_id = "acme";
  email = "ann@acme";
  name = "Ann";
  password_hash = "argon:secret99";
  status = "active";
  is_platform_admin = false;
  default_org_id = some "org";
  created_at = "";
}

abbrev clerk_role : RoleAssignment
clerk_role = record {
  id = "ra1";
  tenant_id = "acme";
  principal_type = "user";
  principal_id = "ann";
  role_key = "clerk";
  org_id = none;
  created_at = "";
}

abbrev pub ann_session : SessionRow
ann_session = record {
  id = "s1";
  tenant_id = "acme";
  user_id = "ann";
  org_id = "org";
  token_hash = "#lds_1";
  created_at = "";
  expires_at = "III";
  revoked = false;
}

abbrev pub office : Db
office = record empty_db {
  accounts = record empty_db.accounts {
    tenants = acme ∷ [];
    users = ann ∷ [];
    role_assignments = clerk_role ∷ [];
  };
}

abbrev opened : Db
opened = record office { accounts = record office.accounts { sessions = ann_session ∷ [] } }

abbrev at_office : Limiter → State
at_office m = record { db = office; limiter = m; tick = 0 }

abbrev pub signed_in : State
signed_in = record { db = opened; limiter = []; tick = 0 }

abbrev by_ann : Attempt
by_ann = record {
  slug = "acme";
  email = "ann@acme";
  password = "secret99";
  request_id = "req";
  source = Source.admin_ui;
}

abbrev by_mistake : Attempt
by_mistake = record by_ann { password = "guess" }

abbrev tired : Limiter
tired = ("acme|ann@acme", record { window_start = 0; failures = 10 }) ∷ []

abbrev both_tired : Limiter
both_tired =
    ("acme|ann@acme", record { window_start = 0; failures = 9 })
    ∷ ("acme|bob@acme", record { window_start = 0; failures = 10 })
    ∷ []

ann-Ready : Ready clockwork by_ann acme ann office
unfolding find_by_slug find_by_email
ann-Ready = record {
  up = λ n. refl;
  tenant = refl;
  user = refl;
  active = refl;
  password = refl;
  new_session_row = λ n m. refl;
  new_event = λ n. refl;
}

ann-Known : Known clockwork acme ann office
unfolding find_tenant find_account expiry session_ttl_days
ann-Known = record {
  parsed = λ n. ap some (tally_lem n);
  before = λ n m. refl;
  tenant = refl;
  tenant_active = refl;
  account = refl;
}

login-authenticate_example :
    let (answer, s') = login_attempt clockwork by_ann (at_office []) in
    (given : LoginResult) × (answer ≡ ok given)
    × (s'.limiter ≡ reset (limiter_key by_ann) (entered clockwork by_ann (at_office [])).limiter)
    × ((authenticate clockwork given.token "next" Source.api s').0
        ≡ ok (record (login_context by_ann acme ann (role_keys_of "acme" "ann" office)) {
          request_id = "next";
          source = Source.api;
        }))
unfolding is_locked lookup
login-authenticate_example =
    login-authenticate clockwork by_ann acme ann "next" Source.api (at_office []) ann-Ready
      ann-Known refl

login_attempt-locked_example :
    EndsAs
      (at_office tired)
      (entered clockwork by_ann (at_office tired))
      too_many
      (login_attempt clockwork by_ann (at_office tired))
unfolding is_locked lookup format
login_attempt-locked_example = login_attempt-locked clockwork by_ann (at_office tired) refl

mistaken : Refused clockwork by_mistake office "bad_password"
unfolding find_by_slug find_by_email
mistaken = Refused.bad_password acme ann refl refl refl refl

login_attempt-Refused_example :
    IsInvalid clockwork by_mistake
      (λ n. refl)
      (entered clockwork by_mistake (at_office []))
      (login_attempt clockwork by_mistake (at_office []))
unfolding is_locked lookup
login_attempt-Refused_example =
    login_attempt-Refused clockwork by_mistake (λ n. refl) "bad_password" (at_office []) refl
      mistaken

authenticate-Accepts_example :
    BySession ticking "#lds_1" "req" Source.api
      (ticking.now 1)
      opened
      (session_context ann_session ann ("clerk" ∷ []) "req" Source.api)
    ⊎ ByKey "#lds_1" "req" Source.api opened
        (session_context ann_session ann ("clerk" ∷ []) "req" Source.api)
unfolding authenticate ◌>>=◌ query pure clock count_marks
authenticate-Accepts_example =
    authenticate-Accepts ticking "lds_1" "req" Source.api signed_in
      (session_context ann_session ann ("clerk" ∷ []) "req" Source.api) refl

logout-authenticate_example : ¬ (
    (authenticate clockwork "lds_1" "req" Source.api (logout clockwork "lds_1" signed_in).1).0
    ≡ ok (session_context ann_session ann [] "req" Source.api))
unfolding logout ◌>>=◌ query fresh_id recover logout_migration_output load_session pure execute
logout-authenticate_example =
    logout-authenticate clockwork "lds_1" "req" Source.api signed_in none
      (session_context ann_session ann [] "req" Source.api) refl refl
