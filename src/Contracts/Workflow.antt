-- ===== src/Contracts/Workflow.antt =====
-- crates/contracts/src/workflow.rs
use latent_db.Prelude.{String, Bool, ◌&&◌, Option, List, ◌==◌, find, select}

pub record WorkflowState : Type 0 where
  pub key : String
  pub label : String
  pub terminal : Bool

pub record Transition : Type 0 where
  pub key : String
  pub from : String
  pub to : String
  pub label : String
  pub guard_permission : Option String
  pub requires_approval : Bool
  pub approval_policy : Option String

pub record WorkflowDef : Type 0 where
  pub key : String
  pub object_type : String
  pub name : String
  pub initial_state : String
  pub states : List WorkflowState
  pub transitions : List Transition

-- `WorkflowDef::state`
unfoldable pub state : WorkflowDef → String → Option WorkflowState
state w key = find (λ s. s.key == key) w.states

unfoldable pub transition_from : WorkflowDef → String → String → Option Transition
transition_from w current key = find (λ t. t.key == key && t.from == current) w.transitions

unfoldable pub available_from : WorkflowDef → String → List Transition
available_from w current = select (λ t. t.from == current) w.transitions
