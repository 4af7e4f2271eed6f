-- ===== src/Runner/Stage/Judged.antt =====
-- What stands behind an answer of `run_stage` (python/lore_eden/runner/stage_runner.py).
use lore_eden.Prelude.{
  String, ◌≡◌, refl, sym, ap, subst, Bool, true, false, Option, none, some, [], ◌∷◌, arith, ◌⊎◌,
  inl, inr,
}
use lore_eden.Prelude.Int.{ℤ}
use lore_eden.Prelude.Result.{Result, ok, raised}
use lore_eden.Workflow.Models.{outcome_value, WorkflowStageDef}
use lore_eden.Workflow.Terminal.{is_terminal_stage}
use lore_eden.Workflow.Routing.{RouteError}
use lore_eden.Workflow.Dispatch.{WorkflowCursor, DispatchResult, advance}
use lore_eden.Workflow.Gates.Shell.{GateFault, GateRunResult}
use lore_eden.Workflow.Gates.{run_gates}
use lore_eden.Agents.Invocation.{CliInvocation, InvocationError}
use lore_eden.Agents.Outcome.{BridgeOutcome}
use lore_eden.Runner.Registry.{AgentBinding, AgentResolution, UnknownAgent, resolve}
use lore_eden.Runner.Report.{StageReport, ReportError}
use lore_eden.Runner.Setup.{Host, StageExecution, StageRunner, RunError, is_pass, find_stage}
use lore_eden.Runner.Stage.{
  at_the_end, gated, dispatched, moved, after_gates, after_report, after_agent, stdin_text,
  with_invocation, with_binding, invocation_for, context, prompt_path, on_stage, run_there,
}

module _ {h : Host} (runner : StageRunner h) (cursor : WorkflowCursor)
    (definition : WorkflowStageDef) where
  -- The gates were run on a report that said PASS, in the tree that the agent left.
  pub record IsGated (e : StageExecution h.Decision) (said : StageReport) (w2 w' : h.machine.World)
      : Type 0 where
    pub passes : is_pass said.outcome ≡ true
    pub verdict : GateRunResult
    pub ran :
        run_gates h.machine runner.gates runner.workspace_root
          (("stage", definition.key) ∷ ("item", cursor.item_id) ∷ [])
          (some definition)
          []
          w2
        ≡ (ok verdict, w')
    pub kept : (e.gate ≡ some verdict) × (e.report ≡ gated runner said verdict)

  -- The agent that is bound to the stage was started with its prompt, model and policy, and its
  -- bridge ended with the outcome and left the tree.
  pub record Drove (agent_override : String) (attempt : ℤ) (values : h.parts.Values)
      (w : h.machine.World) (outcome : BridgeOutcome h.Decision) (w2 : h.machine.World)
      : Type 0 where
    pub binding : AgentBinding h.parts
    pub resolution : AgentResolution
    pub bound : resolve runner.registry definition agent_override ≡ ok (binding, resolution)
    pub invocation : CliInvocation
    pub built :
        invocation_for runner binding
          (binding.prompt (context runner cursor definition attempt values))
          (prompt_path runner cursor definition)
        ≡ ok invocation
    pub driven :
        h.drive
          (h.write_file w
            (prompt_path runner cursor definition)
            (binding.prompt (context runner cursor definition attempt values)))
          invocation
          binding.policy
          binding.idle_timeout
          (stdin_text runner (binding.prompt (context runner cursor definition attempt values)))
        ≡ (outcome, w2)

  -- An agent ran, its outcome was read, and the cursor was moved by what was made of it.
  pub record IsJudged (agent_override : String) (attempt : ℤ) (values : h.parts.Values)
      (w : h.machine.World) (e : StageExecution h.Decision) (w' : h.machine.World) : Type 0 where
    pub outcome : BridgeOutcome h.Decision
    pub said : StageReport
    pub w2 : h.machine.World
    pub drove : Drove agent_override attempt values w outcome w2
    pub bridged : e.bridge ≡ some outcome
    pub was_read : runner.reader outcome ≡ ok said
    pub judged :
        IsGated e said w2 w'
        ⊎ ((is_pass said.outcome ≡ false) × (e.gate ≡ none) × (e.report ≡ said))
    pub moves :
        advance cursor runner.stages runner.transitions
          (outcome_value e.report.outcome)
          ""
          e.report.reason
        ≡ ok e.dispatch

  module _ (agent_override : String) (attempt : ℤ) (values : h.parts.Values) (w : h.machine.World)
      (e : StageExecution h.Decision) (w' : h.machine.World) where
    abbrev Driven : BridgeOutcome h.Decision → h.machine.World → Type 0
    Driven = Drove agent_override attempt values w

    abbrev Judged : Type 0
    Judged = IsJudged agent_override attempt values w e w'

    dispatched-ok :
        (b : AgentBinding h.parts) (r : AgentResolution) (prompt : String)
        (o : BridgeOutcome h.Decision) (report : StageReport) (gate : Option GateRunResult)
        (d : Result RouteError DispatchResult)
        → dispatched runner cursor definition b r prompt o report gate d ≡ ok e
        → (d ≡ ok e.dispatch) × (e.bridge ≡ some o) × (e.report ≡ report) × (e.gate ≡ gate)
    dispatched-ok b r prompt o report gate (raised x) q = absurd (cc q)
    dispatched-ok b r prompt o report gate (ok d) q = ground arith

    with_gates :
        (b : AgentBinding h.parts) (r : AgentResolution) (prompt : String)
        (o : BridgeOutcome h.Decision) (said : StageReport) (w2 : h.machine.World)
        → Driven o w2
        → runner.reader o ≡ ok said
        → is_pass said.outcome ≡ true
        → (g : Result GateFault GateRunResult × h.machine.World)
        → run_gates h.machine runner.gates runner.workspace_root
            (("stage", definition.key) ∷ ("item", cursor.item_id) ∷ [])
            (some definition)
            []
            w2
          ≡ g
        → after_gates runner cursor definition b r prompt o said g ≡ (ok e, w')
        → Judged
    with_gates b r prompt o said w2 drove read p (raised x, w3) ran q = absurd (cc q)
    with_gates b r prompt o said w2 drove read p (ok gate, w3) ran q =
        let (d, bridged, rep, g) =
          dispatched-ok b r prompt o (gated runner said gate) (some gate)
            (moved runner cursor definition (gated runner said gate))
            (ap (λ (x : Result RunError (StageExecution h.Decision) × h.machine.World). x.0) q) in
        let same : w3 ≡ w' =
          ap (λ (x : Result RunError (StageExecution h.Decision) × h.machine.World). x.1) q in
        record {
          outcome = o;
          said = said;
          w2 = w2;
          drove = drove;
          bridged = bridged;
          was_read = read;
          judged = inl (record {
            passes = p;
            verdict = gate;
            ran =
                subst
                  (λ w.
                    run_gates h.machine runner.gates runner.workspace_root
                      (("stage", definition.key) ∷ ("item", cursor.item_id) ∷ []) (some definition)
                      [] w2
                    ≡ (ok gate, w))
                  same ran;
            kept = (g, rep);
          });
          moves =
              subst (λ (x : StageReport). moved runner cursor definition x ≡ ok e.dispatch)
                (sym rep) d;
        }

    with_report :
        (b : AgentBinding h.parts) (r : AgentResolution) (prompt : String)
        (o : BridgeOutcome h.Decision) (said : Result ReportError StageReport)
        (w2 : h.machine.World)
        → Driven o w2
        → runner.reader o ≡ said
        → after_report runner cursor definition b r prompt o said w2 ≡ (ok e, w')
        → Judged
    with_report b r prompt o (raised x) w2 drove read q = absurd (cc q)
    with_report b r prompt o (ok said) w2 drove read q = by_outcome (is_pass said.outcome) refl
      where
        by_outcome : (b : Bool) → is_pass said.outcome ≡ b → Judged
        by_outcome true p =
            with_gates b r prompt o said w2 drove read p
              (run_gates h.machine runner.gates runner.workspace_root
                (("stage", definition.key) ∷ ("item", cursor.item_id) ∷ []) (some definition) [] w2)
              refl (ground (arith, q))
        by_outcome false p =
            let shown : (
              dispatched runner cursor definition b r prompt o said none
                  (moved runner cursor definition said),
              w2,
            )
                ≡ (ok e, w') =
              ground (arith, q) in
            let (d, bridged, rep, g) =
              dispatched-ok b r prompt o said none (moved runner cursor definition said) (
                ap (λ (x : Result RunError (StageExecution h.Decision) × h.machine.World). x.0)
                  shown) in
            record {
              outcome = o;
              said = said;
              w2 = w2;
              drove = drove;
              bridged = bridged;
              was_read = read;
              judged = inr (p, g, rep);
              moves =
                  subst (λ (x : StageReport). moved runner cursor definition x ≡ ok e.dispatch)
                    (sym rep) d;
            }

    with_agent :
        (b : AgentBinding h.parts) (r : AgentResolution) (prompt : String)
        (o : BridgeOutcome h.Decision × h.machine.World)
        → Driven o.0 o.1
        → after_agent runner cursor definition b r prompt o ≡ (ok e, w')
        → Judged
    with_agent b r prompt (o, w2) drove q =
        with_report b r prompt o (runner.reader o) w2 drove refl q

    with_call :
        (b : AgentBinding h.parts) (r : AgentResolution)
        → resolve runner.registry definition agent_override ≡ ok (b, r)
        → (i : Result InvocationError CliInvocation)
        → invocation_for runner b
            (b.prompt (context runner cursor definition attempt values))
            (prompt_path runner cursor definition)
          ≡ i
        → with_invocation runner cursor definition b r
            (b.prompt (context runner cursor definition attempt values))
            i
            (h.write_file w
              (prompt_path runner cursor definition)
              (b.prompt (context runner cursor definition attempt values)))
          ≡ (ok e, w')
        → Judged
    with_call b r bound (raised x) built q = absurd (cc q)
    with_call b r bound (ok i) built q =
        with_agent b r (b.prompt (context runner cursor definition attempt values)) _
          (record {
            binding = b;
            resolution = r;
            bound = bound;
            invocation = i;
            built = built;
            driven = refl;
          })
          q

    pub with_agent_bound :
        (found : Result UnknownAgent (AgentBinding h.parts × AgentResolution))
        → resolve runner.registry definition agent_override ≡ found
        → with_binding runner cursor definition attempt values found w ≡ (ok e, w')
        → Judged
    with_agent_bound (raised x) bound q = absurd (cc q)
    with_agent_bound (ok (b, r)) bound q = with_call b r bound _ refl q

module _ {h : Host} (runner : StageRunner h) (cursor : WorkflowCursor) (agent_override : String)
    (attempt : ℤ) (values : h.parts.Values) (w : h.machine.World) (e : StageExecution h.Decision)
    (w' : h.machine.World) where
  -- A stage that ends the workflow is left alone; on any other an agent was judged.
  abbrev pub Ended : WorkflowStageDef → Type 0
  Ended definition =
      (e ≡ at_the_end runner cursor definition)
      ⊎ IsJudged runner cursor definition agent_override attempt values w e w'

  on_stage-Ended :
      (o : Option WorkflowStageDef)
      → on_stage runner cursor agent_override attempt values o w ≡ (ok e, w')
      → (definition : WorkflowStageDef) × (o ≡ some definition) × Ended definition
  on_stage-Ended none q = absurd (cc q)
  on_stage-Ended (some definition) q =
      (definition, refl, by_end (is_terminal_stage definition) refl)
    where
      by_end : (b : Bool) → is_terminal_stage definition ≡ b → Ended definition
      by_end true t = inl (ground (arith, q))
      by_end false t = inr (
          with_agent_bound runner cursor definition agent_override attempt values w e w'
            (resolve runner.registry definition agent_override) refl (ground (arith, q)))

  pub run_there-Ended :
      run_there runner cursor agent_override attempt values w ≡ (ok e, w')
      → (definition : WorkflowStageDef) × (find_stage runner.stages cursor.stage_key
          ≡ some definition)
        × Ended definition
  run_there-Ended q = on_stage-Ended (find_stage runner.stages cursor.stage_key) q
