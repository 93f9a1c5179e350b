-- ===== src/Examples.antt =====
-- A small store and its callers: the concrete inputs of the examples.
pub mod Histories
pub mod Access
pub mod Services
pub mod Checks
pub mod Logins
pub mod Onboarding
pub mod Closures
pub mod Publishing
use latent_db.Prelude.{ℕ, true, false, none, some, List, [], ◌∷◌, eqb, ◌-◌, ◌==◌}
use Prim.Native.Nat.{compare}
use Prim.Native.String.{◌++◌ as append}
use latent_db.Prelude.{inr}
use latent_db.Contracts.Json.{string, null, JsonMap}
use latent_db.Contracts.Auth.{AuthContext, ActorType, Source, default_flags}
use latent_db.Contracts.Permission.{Action, Scope, new_grant}
use latent_db.Contracts.Field.{ObjectTypeDef, FieldDefinition, FieldType, new_field}
use latent_db.Contracts.Workflow.{WorkflowDef, Transition}
use latent_db.Contracts.Record.{Rec, Lifecycle, RecordFilter, ListResponse, nonneg}
use latent_db.Kernel.Host.{Kernel, Host}
use latent_db.Kernel.Store.{Db, empty_db, RoleRow, Approval}
use latent_db.Kernel.Exec.{State}
use latent_db.Kernel.Calls.{Call, creates_workflow, gets_record}
use latent_db.Kernel.RateLimit.{Limiter}
use latent_db.Kernel.Approvals.{decide}
use latent_db.Kernel.Transitions.{TransitionResult}

abbrev pub host : Host
host = record {
  new_id = λ n. "id";
  now_rfc3339 = λ n. "2025-01-01T00:00:00Z";
  db_outcome = λ n. none;
  is_rfc3339 = λ s. true;
  to_lowercase = λ s. s;
  number_of = λ n. n;
  is_i64 = λ n. true;
  is_u64 = λ n. true;
  number_eq = eqb;
  as_f64 = λ n. some n;
  partial_cmp = λ a b. some (compare a b);
  instant = λ n. n;
  now = λ n. n;
  to_rfc3339 = λ n. "2025-01-01T00:00:00Z";
  parse_rfc3339 = λ s. some 5000;
  year_of = λ n. 2025;
  month_of = λ n. 1;
  random_hex = λ n. "5ec7e7";
  sha256_hex = λ s. append "#" s;
  salt = λ n. inr "salt";
  argon2_hash = λ salt p. inr (append "argon:" p);
  argon2_verify = λ p h. inr (h == append "argon:" p);
  session_ttl_var = none;
  preview_json = λ d. null;
}

abbrev pub kernel : Kernel
kernel = record { flags = default_flags; host = host }

abbrev pub member : AuthContext
member = record {
  actor_type = ActorType.user;
  actor_id = "ann";
  tenant_id = "acme";
  org_id = "org";
  workspace_id = none;
  role_keys = "clerk" ∷ [];
  is_platform_admin = false;
  request_id = "req";
  source = Source.api;
  agent_safety_level = none;
}

abbrev pub stranger : AuthContext
stranger = record member { tenant_id = "other"; role_keys = [] }

abbrev pub note_type : ObjectTypeDef
note_type = record {
  id = "t1";
  key = "note";
  label = "Note";
  label_plural = none;
  description = none;
  system = false;
  workflow_key = some "flow";
  display_field = none;
  module_name = none;
  fields =
      record (new_field "title" "Title" FieldType.text) { required = true }
      ∷ record (new_field "pay" "Pay" FieldType.text) { restricted = true }
      ∷ [];
}

abbrev pub submit : Transition
submit = record {
  key = "submit";
  from = "draft";
  to = "sent";
  label = "Submit";
  guard_permission = none;
  requires_approval = false;
  approval_policy = none;
}

abbrev pub flow : WorkflowDef
flow = record {
  key = "flow";
  object_type = "note";
  name = "Flow";
  initial_state = "draft";
  states =
      record { key = "draft"; label = "Draft"; terminal = false }
      ∷ record { key = "sent"; label = "Sent"; terminal = true }
      ∷ [];
  transitions = submit ∷ [];
}

abbrev pub fields : JsonMap
fields = ("pay", string "high") ∷ ("title", string "hello") ∷ []

abbrev pub note : Rec
note = record {
  id = "n1";
  object_type = "note";
  tenant_id = "acme";
  org_id = "org";
  workspace_id = none;
  lifecycle = Lifecycle.active;
  workflow_state = none;
  fields = fields;
  created_by = "ann";
  created_at = "2025-01-01T00:00:00Z";
  updated_at = "2025-01-01T00:00:00Z";
  archived_at = none;
}

abbrev pub request : Approval
request = record {
  id = "a1";
  tenant_id = "acme";
  org_id = "org";
  status = "pending";
  policy = none;
  requested_by = "bob";
  decided_by = none;
  decision_reason = none;
  related_object_type = some "note";
  related_record_id = some "n1";
  transition_key = some "submit";
  target_state = some "sent";
  risk_score = none;
  payload = null;
  created_at = "2025-01-01T00:00:00Z";
  decided_at = none;
}

abbrev pub clerk : RoleRow
clerk = record {
  id = "r1";
  tenant_id = "acme";
  key = "clerk";
  name = "Clerk";
  description = none;
  system = false;
  created_at = "2025-01-01T00:00:00Z";
  grants =
      new_grant Action.read "object:note" Scope.tenant
      ∷ new_grant Action.search "object:note" Scope.tenant
      ∷ new_grant Action.transition "object:note" Scope.tenant
      ∷ new_grant Action.approve "object:note" Scope.tenant
      ∷ [];
}

abbrev pub store : Db
store = record empty_db {
  roles = clerk ∷ [];
  object_types = record { tenant_id = "acme"; def = note_type } ∷ [];
  workflows = record { tenant_id = "acme"; def = flow } ∷ [];
  records = note ∷ [];
  approvals = request ∷ [];
}

abbrev pub start : State
start = record { db = store; limiter = []; tick = 0 }

abbrev pub other_admin : AuthContext
other_admin = record member { tenant_id = "other"; is_platform_admin = true }

abbrev pub admin : AuthContext
admin = record member { is_platform_admin = true }

abbrev pub calls : List (AuthContext × Call)
calls = (other_admin, creates_workflow flow) ∷ (other_admin, gets_record "n1") ∷ []

abbrev pub shown_note : Rec
shown_note = record note { fields = ("title", string "hello") ∷ [] }

abbrev pub four : List ℕ
four = 5 ∷ 6 ∷ 7 ∷ 8 ∷ []

abbrev pub two_keys : Limiter
two_keys =
    ("ann", record { window_start = 5; failures = 12 })
    ∷ ("bob", record { window_start = 5; failures = 12 })
    ∷ []

abbrev pub title : FieldDefinition
title = record (new_field "title" "Title" FieldType.text) { required = true }

abbrev pub all_notes : RecordFilter
all_notes = record {
  filters = [];
  search = none;
  sort = none;
  desc = false;
  include_archived = false;
  page = record { limit = nonneg 10; offset = nonneg 0 };
}

abbrev pub note_page : ListResponse Rec
note_page = record { items = shown_note ∷ []; total = 1; limit = 10; offset = 0 }

abbrev pub sent : TransitionResult
sent = record {
  status = "transitioned";
  record_id = "n1";
  from = "draft";
  to = "sent";
  approval_id = none;
}

abbrev pub approved_request : Approval
approved_request = decide member true none "2025-01-01T00:00:00Z" request

abbrev pub given : JsonMap
given = ("title", string "bye") ∷ []
