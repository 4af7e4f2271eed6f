-- ===== src/Runner/Registry.antt =====
-- python/lore_eden/runner/registry.py: which agent runs a stage.
use lore_eden.Prelude.{
  String, Bool, true, false, Option, none, some, List, [], ◌∷◌, ◌==◌, if◌then◌else◌,
}
use lore_eden.Prelude.Dict.{Dict, get, put}
use lore_eden.Prelude.Result.{Result, ok, raised, ◌>>=◌}
use lore_eden.Prelude.Int.{ℤ}
use lore_eden.Workflow.Models.{WorkflowStageDef}

-- What a host brings: how it decides on tools, its idle times, and what its prompts are built from.
pub record Parts : Type 1 where
  pub Policy : Type 0
  pub Seconds : Type 0
  pub Values : Type 0

-- UnknownAgentError
pub data UnknownAgent : Type 0 where
  no_agent : String → UnknownAgent
  no_binding : String → UnknownAgent

-- The keys of `considered` are "override", "stage" and "default", in this order.
pub record AgentResolution : Type 0 where
  pub agent_id : String
  pub source : String
  pub consumes_override : Bool
  pub considered : Dict String

abbrev pub resolution : String → String → Bool → Dict String → AgentResolution
resolution agent_id source consumes_override considered = record {
  agent_id = agent_id;
  source = source;
  consumes_override = consumes_override;
  considered = considered;
}

unfoldable pub resolve_agent :
    WorkflowStageDef → String → String → Result UnknownAgent AgentResolution
resolve_agent stage override default =
    let considered =
      ("override", override) ∷ ("stage", stage.agent_id) ∷ ("default", default) ∷ [] in
    if override == ""
    then (if stage.agent_id == ""
        then (if default == ""
            then raised (no_agent stage.key)
            else ok (resolution default "default" false considered))
        else ok (resolution stage.agent_id "stage" false considered))
    else ok (resolution override "override" true considered)

-- python/lore_eden/agents/prompts.py
pub record PromptContext (h : Parts) : Type 0 where
  pub item_id : String
  pub stage_key : String
  pub attempt : ℤ
  pub workspace_root : String
  pub values : h.Values

-- `prompt` is the `build` of the host's PromptBuilder.
pub record AgentBinding (h : Parts) : Type 0 where
  pub agent_id : String
  pub prompt : PromptContext h → String
  pub policy : h.Policy
  pub model : String
  pub effort : String
  pub allowed_tools : List String
  pub disallowed_tools : List String
  pub idle_timeout : h.Seconds

pub record AgentRegistry (h : Parts) : Type 0 where
  pub bindings : Dict (AgentBinding h)
  pub default_agent_id : String

module _ {h : Parts} where
  unfoldable pub register : AgentRegistry h → AgentBinding h → AgentRegistry h
  register registry binding = record registry {
    bindings = put registry.bindings binding.agent_id binding;
  }

  abbrev pub bound : String → Option (AgentBinding h) → Result UnknownAgent (AgentBinding h)
  bound agent_id none = raised (no_binding agent_id)
  bound agent_id (some binding) = ok binding

  -- `AgentRegistry.get`
  unfoldable pub get_binding : AgentRegistry h → String → Result UnknownAgent (AgentBinding h)
  get_binding registry agent_id = bound agent_id (get registry.bindings agent_id)

  -- The stage's model pin.
  abbrev pub pinned : AgentBinding h → String → AgentBinding h
  pinned binding model = if model == "" then binding else record binding { model = model }

  -- `AgentRegistry.resolve`
  unfoldable pub resolve :
      AgentRegistry h
      → WorkflowStageDef
      → String
      → Result UnknownAgent (AgentBinding h × AgentResolution)
  unfolding resolve_agent get_binding
  resolve registry stage override = resolve_agent stage override registry.default_agent_id >>= λ r.
      get_binding registry r.agent_id >>= λ binding. ok (pinned binding stage.model, r)
