-- ===== src/Agents/Policy.antt =====
-- python/lore_eden/agents/policy.py: what a host decides when a tool asks to run.
use lore_eden.Prelude.{String, Bool, true, false, Option, none, if◌then◌else◌}
use lore_eden.Prelude.Json.{Fields, no_fields}
use lore_eden.Agents.Protocol.{ToolPermissionRequest}

pub record PermissionDecision : Type 0 where
  pub approved : Bool
  pub message : String
  pub updated_input : Option Fields
  pub metadata : Fields

-- `PermissionPolicy`: a policy answers from a state of its own, and `cancelled()` is a reading of
-- that state.
pub record PermissionPolicy : Type 1 where
  pub State : Type 0
  pub decide : State → ToolPermissionRequest → PermissionDecision × State

abbrev pub decision : Bool → String → PermissionDecision
decision approved message = record {
  approved = approved;
  message = message;
  updated_input = none;
  metadata = no_fields;
}

-- `_Constant`, in a host whose `cancelled()` reads the state.
abbrev pub constant : {S : Type 0} → (S → Bool) → Bool → String → PermissionPolicy
constant {S} cancelled approved message = record {
  State = S;
  decide = λ s request.
      (if cancelled s then decision false "Run cancelled" else decision approved message, s);
}

abbrev pub allow_all : {S : Type 0} → (S → Bool) → PermissionPolicy
allow_all cancelled = constant cancelled true ""

abbrev pub deny_all : {S : Type 0} → (S → Bool) → PermissionPolicy
deny_all cancelled = constant cancelled false "No permission policy configured"
