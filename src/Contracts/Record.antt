-- ===== src/Contracts/Record.antt =====
-- crates/contracts/src/record.rs and crates/contracts/src/page.rs
use latent_db.Prelude.{
  ℕ, String, Bool, Option, some, List, [], ◌∷◌, ◌++◌, ◌==◌, select, ltb, if◌then◌else◌, ◌≡◌, refl,
}
use latent_db.Contracts.Json.{Value, string, JsonMap, get}
use latent_db.Contracts.Permission.{ConditionOp}

pub data Lifecycle : Type 0 where
  active archived : Lifecycle

pub lifecycle_str : Lifecycle → String
lifecycle_str Lifecycle.active = "active"
lifecycle_str Lifecycle.archived = "archived"

unfoldable pub parse_lifecycle : String → Lifecycle
parse_lifecycle s = if s == "archived" then Lifecycle.archived else Lifecycle.active

-- a row that was written with a lifecycle's name is read back with that lifecycle
pub parse_lifecycle-lifecycle_str : (l : Lifecycle) → parse_lifecycle (lifecycle_str l) ≡ l
unfolding parse_lifecycle lifecycle_str
parse_lifecycle-lifecycle_str Lifecycle.active = refl
parse_lifecycle-lifecycle_str Lifecycle.archived = refl

-- The struct `Record`; the word is antt's.
pub record Rec : Type 0 where
  pub id : String
  pub object_type : String
  pub tenant_id : String
  pub org_id : String
  pub workspace_id : Option String
  pub fields : JsonMap
  pub lifecycle : Lifecycle
  pub workflow_state : Option String
  pub created_by : String
  pub created_at : String
  pub updated_at : String
  pub archived_at : Option String

-- what one of the owner fields adds
abbrev pub owner_of : Option Value → List String
owner_of (some (string s)) = s ∷ []
owner_of _ = []

unfoldable pub owner_candidates : Rec → List String
owner_candidates r =
    r.created_by
    ∷ (owner_of (get r.fields "owner_id")
        ++ (owner_of (get r.fields "assignee_id") ++ owner_of (get r.fields "user_id")))

unfoldable pub project_fields : Rec → (String → Bool) → Rec
project_fields r visible = record r { fields = select (λ e. visible e.0) r.fields }

pub record NewRecord : Type 0 where
  pub object_type : String
  pub fields : JsonMap
  pub workspace_id : Option String

pub record RecordPatch : Type 0 where
  pub fields : JsonMap

-- An `i64` by its sign: `nonneg n` is n, `neg n` is -(n + 1).
pub data I64 : Type 0 where
  nonneg : ℕ → I64
  neg : ℕ → I64

pub record Page : Type 0 where
  pub limit : I64
  pub offset : I64

-- `limit.clamp(1, 500)`
abbrev pub clamp_limit : I64 → ℕ
clamp_limit (neg n) = 1
clamp_limit (nonneg n) = if ltb n 1 then 1 else if ltb 500 n then 500 else n

-- `offset.max(0)`
abbrev pub clamp_offset : I64 → ℕ
clamp_offset (neg n) = 0
clamp_offset (nonneg n) = n

pub record ListResponse {ℓ} (A : Type ℓ) : Type ℓ where
  pub items : List A
  pub total : ℕ
  pub limit : ℕ
  pub offset : ℕ

pub record FieldFilter : Type 0 where
  pub field : String
  pub op : ConditionOp
  pub value : Value

pub record RecordFilter : Type 0 where
  pub filters : List FieldFilter
  pub search : Option String
  pub sort : Option String
  pub desc : Bool
  pub include_archived : Bool
  pub page : Page
