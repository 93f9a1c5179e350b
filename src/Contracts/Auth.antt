-- ===== src/Contracts/Auth.antt =====
-- crates/contracts/src/auth.rs and the flags of crates/contracts/src/flags.rs
use latent_db.Prelude.{ℕ, String, Bool, true, false, Option, none, List, [], ◌∷◌}

pub data ActorType : Type 0 where
  user service_account agent system : ActorType

pub data Source : Type 0 where
  api admin_ui agent system seed : Source

pub record AuthContext : Type 0 where
  pub actor_type : ActorType
  pub actor_id : String
  pub tenant_id : String
  pub org_id : String
  pub workspace_id : Option String
  pub role_keys : List String
  pub is_platform_admin : Bool
  pub request_id : String
  pub source : Source
  pub agent_safety_level : Option ℕ

abbrev pub is_system_actor : ActorType → Bool
is_system_actor ActorType.system = true
is_system_actor _ = false

abbrev pub is_agent_actor : ActorType → Bool
is_agent_actor ActorType.agent = true
is_agent_actor _ = false

abbrev pub is_system : AuthContext → Bool
is_system ctx = is_system_actor ctx.actor_type

abbrev pub is_agent : AuthContext → Bool
is_agent ctx = is_agent_actor ctx.actor_type

-- `AuthContext::system`, with the request id that was drawn for it
unfoldable pub system_context : String → String → String → AuthContext
system_context tenant_id org_id request_id = record {
  actor_type = ActorType.system;
  actor_id = "system";
  tenant_id = tenant_id;
  org_id = org_id;
  workspace_id = none;
  role_keys = "system" ∷ [];
  is_platform_admin = true;
  request_id = request_id;
  source = Source.system;
  agent_safety_level = none;
}

pub record FeatureFlags : Type 0 where
  pub enable_ai_agents : Bool
  pub enable_semantic_search : Bool
  pub enable_datafusion_reports : Bool
  pub enable_triton_accel : Bool
  pub enable_webgpu_ui : Bool
  pub enable_burn_runtime : Bool
  pub enable_cloud_control_plane : Bool
  pub enable_agent_action_execution : Bool
  pub enable_advanced_permissions : Bool
  pub enable_usage_metering : Bool
  pub enable_approval_separation_of_duties : Bool

abbrev pub default_flags : FeatureFlags
default_flags = record {
  enable_ai_agents = true;
  enable_semantic_search = false;
  enable_datafusion_reports = false;
  enable_triton_accel = false;
  enable_webgpu_ui = false;
  enable_burn_runtime = false;
  enable_cloud_control_plane = false;
  enable_agent_action_execution = true;
  enable_advanced_permissions = true;
  enable_usage_metering = true;
  enable_approval_separation_of_duties = false;
}

abbrev pub all_off : FeatureFlags
all_off = record {
  enable_ai_agents = false;
  enable_semantic_search = false;
  enable_datafusion_reports = false;
  enable_triton_accel = false;
  enable_webgpu_ui = false;
  enable_burn_runtime = false;
  enable_cloud_control_plane = false;
  enable_agent_action_execution = false;
  enable_advanced_permissions = false;
  enable_usage_metering = false;
  enable_approval_separation_of_duties = false;
}
