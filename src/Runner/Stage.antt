-- ===== src/Runner/Stage.antt =====
-- python/lore_eden/runner/stage_runner.py: resolve, prompt, run, judge, gate and advance one stage.
pub mod Judged
pub mod Gating
pub mod Earned
use lore_eden.Prelude.{
  ℕ, String, Bool, true, false, not, ◌&&◌, Option, none, some, List, [], ◌∷◌, ◌==◌, if◌then◌else◌,
}
use lore_eden.Prelude.Int.{ℤ}
use lore_eden.Prelude.Dict.{Dict}
use lore_eden.Prelude.Result.{Result, ok, raised}
use lore_eden.Prelude.Text.{concat}
use lore_eden.Prelude.Strip.{strip}
use lore_eden.Workflow.Models.{StageOutcome, pass, reject, outcome_value, WorkflowStageDef}
use lore_eden.Workflow.Terminal.{is_terminal_stage}
use lore_eden.Workflow.Transitions.{Transition}
use lore_eden.Workflow.Routing.{RouteError}
use lore_eden.Workflow.Dispatch.{WorkflowCursor, DispatchResult, start, advance, block}
use lore_eden.Workflow.Gates.Shell.{Machine, GateFault, GateRunResult}
use lore_eden.Workflow.Gates.Config.{GatesConfig}
use lore_eden.Workflow.Gates.{run_gates}
use lore_eden.Agents.Invocation.{
  CliAdapter, stream_json, CliInvocation, InvocationError, build_invocation,
}
use lore_eden.Agents.Outcome.{BridgeOutcome}
use lore_eden.Runner.Registry.{
  Parts, PromptContext, AgentBinding, AgentRegistry, AgentResolution, UnknownAgent, resolve,
}
use lore_eden.Runner.Report.{StageReport, ReportError}
use lore_eden.Runner.Setup.{
  Host, RunError, no_stage, no_agent, no_invocation, no_report, no_gate, no_route, StageExecution,
  is_pass, StageRunner, find_stage, no_resolution, no_stages_reason,
}

module _ {h : Host} (runner : StageRunner h) where
  -- A call that may change the machine and may raise.
  abbrev pub Run : Type 0
  Run = Result RunError (StageExecution h.Decision) × h.machine.World

  -- `_at_the_end`
  abbrev pub at_the_end : WorkflowCursor → WorkflowStageDef → StageExecution h.Decision
  at_the_end cursor definition = record {
    stage_key = definition.key;
    agent_id = "";
    resolution = no_resolution;
    prompt = "";
    bridge = none;
    report = record {
      outcome = pass;
      summary = "";
      reason = concat (h.repr definition.key ∷ " ends this workflow; nothing left to run." ∷ []);
    };
    gate = none;
    dispatch = record { cursor = cursor; plan = none; finished = true; is_blocked = false };
  }

  -- `_blocked`
  abbrev pub blocked_with : WorkflowCursor → String → StageExecution h.Decision
  blocked_with cursor reason = record {
    stage_key = cursor.stage_key;
    agent_id = "";
    resolution = no_resolution;
    prompt = "";
    bridge = none;
    report = record { outcome = reject; summary = ""; reason = reason };
    gate = none;
    dispatch = block cursor reason;
  }

  -- `_run_agent`: the invocation, or why there is none
  abbrev pub invocation_for :
      AgentBinding h.parts → String → String → Result InvocationError CliInvocation
  invocation_for binding prompt prompt_file =
      build_invocation h.which
        (record {
          adapter = runner.adapter;
          workspace_root = runner.workspace_root;
          prompt = prompt;
          prompt_file = some prompt_file;
          model = binding.model;
          effort = binding.effort;
          interactive = runner.interactive;
          output_format = stream_json;
          partial_messages = false;
          resume_session_id = "";
          permission_mode = runner.permission_mode;
          allowed_tools = binding.allowed_tools;
          disallowed_tools = binding.disallowed_tools;
          extra_args = [];
          env = runner.env;
        })
        ""

  abbrev pub stdin_text : String → Option String
  stdin_text prompt = if runner.interactive then some (h.user_line prompt) else none

  -- What the gates make of a report.
  abbrev pub gated : StageReport → GateRunResult → StageReport
  gated report gate = if gate.is_ok then report else record report {
    outcome = reject;
    reason = strip (concat ("A gate rejected the work: " ∷ gate.message ∷ []));
  }

  module _ (cursor : WorkflowCursor) (definition : WorkflowStageDef) where
    -- What is known when the cursor is moved.
    abbrev pub dispatched :
        AgentBinding h.parts
        → AgentResolution
        → String
        → BridgeOutcome h.Decision
        → StageReport
        → Option GateRunResult
        → Result RouteError DispatchResult
        → Result RunError (StageExecution h.Decision)
    dispatched binding resolution prompt outcome report gate (raised e) = raised (no_route e)
    dispatched binding resolution prompt outcome report gate (ok dispatch) = ok (record {
      stage_key = definition.key;
      agent_id = binding.agent_id;
      resolution = resolution;
      prompt = prompt;
      bridge = some outcome;
      report = report;
      gate = gate;
      dispatch = dispatch;
    })

    abbrev pub moved : StageReport → Result RouteError DispatchResult
    moved report =
        advance cursor runner.stages runner.transitions (outcome_value report.outcome) ""
          report.reason

    abbrev pub after_gates :
        AgentBinding h.parts
        → AgentResolution
        → String
        → BridgeOutcome h.Decision
        → StageReport
        → Result GateFault GateRunResult × h.machine.World
        → Run
    after_gates binding resolution prompt outcome report (raised e, w) = (raised (no_gate e), w)
    after_gates binding resolution prompt outcome report (ok gate, w) = (
      dispatched binding resolution prompt outcome (gated report gate) (some gate)
          (moved (gated report gate)),
      w,
    )

    abbrev pub after_report :
        AgentBinding h.parts
        → AgentResolution
        → String
        → BridgeOutcome h.Decision
        → Result ReportError StageReport
        → h.machine.World
        → Run
    after_report binding resolution prompt outcome (raised e) w = (raised (no_report e), w)
    after_report binding resolution prompt outcome (ok report) w = elim (is_pass report.outcome) [
      | true ↦ after_gates binding resolution prompt outcome report (
          run_gates h.machine runner.gates runner.workspace_root
            (("stage", definition.key) ∷ ("item", cursor.item_id) ∷ []) (some definition) [] w)
      | false ↦ (dispatched binding resolution prompt outcome report none (moved report), w)
    ]

    abbrev pub after_agent :
        AgentBinding h.parts
        → AgentResolution
        → String
        → BridgeOutcome h.Decision × h.machine.World
        → Run
    after_agent binding resolution prompt (outcome, w) =
        after_report binding resolution prompt outcome (runner.reader outcome) w

    abbrev pub with_invocation :
        AgentBinding h.parts
        → AgentResolution
        → String
        → Result InvocationError CliInvocation
        → h.machine.World
        → Run
    with_invocation binding resolution prompt (raised e) w = (raised (no_invocation e), w)
    with_invocation binding resolution prompt (ok invocation) w =
        after_agent binding resolution prompt
          (h.drive w invocation binding.policy binding.idle_timeout (stdin_text prompt))

    abbrev pub prompt_path : String
    prompt_path =
        h.machine.child runner.prompt_dir
          (concat (cursor.item_id ∷ "-" ∷ definition.key ∷ ".md" ∷ []))

    -- What the runner knows when it asks for a prompt.
    abbrev pub context : ℤ → h.parts.Values → PromptContext h.parts
    context attempt values = record {
      item_id = cursor.item_id;
      stage_key = definition.key;
      attempt = attempt;
      workspace_root = runner.workspace_root;
      values = values;
    }

    abbrev pub with_binding :
        ℤ
        → h.parts.Values
        → Result UnknownAgent (AgentBinding h.parts × AgentResolution)
        → h.machine.World
        → Run
    with_binding attempt values (raised e) w = (raised (no_agent e), w)
    with_binding attempt values (ok (binding, resolution)) w =
        let prompt = binding.prompt (context attempt values) in
        with_invocation binding resolution prompt (invocation_for binding prompt prompt_path)
          (h.write_file w prompt_path prompt)

  abbrev pub on_stage :
      WorkflowCursor → String → ℤ → h.parts.Values → Option WorkflowStageDef → h.machine.World → Run
  on_stage cursor agent_override attempt values none w = (raised (no_stage cursor.stage_key), w)
  on_stage cursor agent_override attempt values (some definition) w =
      elim (is_terminal_stage definition) [
        | true ↦ (ok (at_the_end cursor definition), w)
        | false ↦
            with_binding cursor definition attempt values
              (resolve runner.registry definition agent_override) w
      ]

  -- The stage where the cursor stands.
  abbrev pub run_there : WorkflowCursor → String → ℤ → h.parts.Values → h.machine.World → Run
  run_there cursor agent_override attempt values w =
      on_stage cursor agent_override attempt values (find_stage runner.stages cursor.stage_key) w

  unfoldable pub run_stage : WorkflowCursor → String → ℤ → h.parts.Values → h.machine.World → Run
  run_stage cursor agent_override attempt values w = elim (cursor.stage_key == "") [
    | true ↦
        let started = start cursor runner.stages in
        elim started.is_blocked [
          | true ↦ (ok (blocked_with started.cursor no_stages_reason), w)
          | false ↦ run_there started.cursor agent_override attempt values w
        ]
    | false ↦ run_there cursor agent_override attempt values w
  ]

  -- Where the item stands once it has a stage.
  abbrev pub standing : WorkflowCursor → WorkflowCursor
  standing cursor = if cursor.stage_key == "" then (start cursor runner.stages).cursor else cursor
