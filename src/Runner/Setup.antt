-- ===== src/Runner/Setup.antt =====
-- What a stage runner has and gives: the records of python/lore_eden/runner/stage_runner.py.
use lore_eden.Prelude.{
  String, Bool, true, false, not, ◌&&◌, Option, none, some, List, [], ◌∷◌, ◌==◌, if◌then◌else◌,
}
use lore_eden.Prelude.Dict.{Dict}
use lore_eden.Prelude.Result.{Result}
use lore_eden.Workflow.Models.{StageOutcome, pass, WorkflowStageDef}
use lore_eden.Workflow.Transitions.{Transition}
use lore_eden.Workflow.Routing.{RouteError}
use lore_eden.Workflow.Dispatch.{DispatchResult}
use lore_eden.Workflow.Gates.Shell.{Machine, GateFault, GateRunResult}
use lore_eden.Workflow.Gates.Config.{GatesConfig}
use lore_eden.Agents.Invocation.{CliAdapter, CliInvocation, InvocationError}
use lore_eden.Agents.Outcome.{BridgeOutcome}
use lore_eden.Runner.Registry.{Parts, AgentRegistry, AgentResolution, UnknownAgent}
use lore_eden.Runner.Report.{StageReport, ReportError}

-- What is around the runner: the machine, the agents, and what a host brings.
pub record Host : Type 1 where
  pub machine : Machine
  pub parts : Parts
  pub Decision : Type 0
  -- shutil.which
  pub which : String → Option String
  -- `write_prompt_file` of a text at a path
  pub write_file : machine.World → String → String → machine.World
  -- repr of a text
  pub repr : String → String
  -- the line that carries a prompt: json.dumps(build_user_message(prompt)) + "\n"
  pub user_line : String → String
  -- a bridge that runs an invocation, with the policy, the idle time and what goes to stdin
  pub drive :
      machine.World
      → CliInvocation
      → parts.Policy
      → parts.Seconds
      → Option String
      → BridgeOutcome Decision × machine.World

-- What running a stage may raise.
pub data RunError : Type 0 where
  -- the LookupError of `stage`
  no_stage : String → RunError
  no_agent : UnknownAgent → RunError
  no_invocation : InvocationError → RunError
  no_report : ReportError → RunError
  no_gate : GateFault → RunError
  no_route : RouteError → RunError

pub record StageExecution (Decision : Type 0) : Type 0 where
  pub stage_key : String
  pub agent_id : String
  pub resolution : AgentResolution
  pub prompt : String
  pub bridge : Option (BridgeOutcome Decision)
  pub report : StageReport
  pub gate : Option GateRunResult
  pub dispatch : DispatchResult

-- outcome is StageOutcome.PASS
abbrev pub is_pass : StageOutcome → Bool
is_pass pass = true
is_pass _ = false

abbrev pub refuses : Option GateRunResult → Bool
refuses none = false
refuses (some gate) = not gate.is_ok

module _ {Decision : Type 0} where
  abbrev pub is_absent : Option (BridgeOutcome Decision) → Bool
  is_absent none = true
  is_absent (some bridge) = false

  abbrev pub already_finished : StageExecution Decision → Bool
  already_finished e = is_absent e.bridge && e.dispatch.finished

  unfoldable pub gate_blocked : StageExecution Decision → Bool
  gate_blocked e = refuses e.gate && is_pass e.report.outcome

pub record StageRunner (h : Host) : Type 0 where
  pub registry : AgentRegistry h.parts
  pub stages : List WorkflowStageDef
  pub transitions : List Transition
  pub workspace_root : String
  pub prompt_dir : String
  pub adapter : CliAdapter
  pub interactive : Bool
  pub gates : GatesConfig
  pub reader : BridgeOutcome h.Decision → Result ReportError StageReport
  pub env : Dict String
  pub permission_mode : String

-- `StageRunner.stage`, with `none` for the LookupError
unfoldable pub find_stage : List WorkflowStageDef → String → Option WorkflowStageDef
find_stage [] key = none
find_stage (s ∷ ss) key = if s.key == key then some s else find_stage ss key

abbrev pub no_resolution : AgentResolution
no_resolution = record {
  agent_id = "";
  source = "none";
  consumes_override = false;
  considered = [];
}

abbrev pub no_stages_reason : String
no_stages_reason = "This workflow has no stages."
