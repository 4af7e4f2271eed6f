-- ===== src/Runner/Examples.antt =====
-- A runner with one agent, whose gates are those of Workflow/Gates/Examples.
use lore_eden.Prelude.{
  ℕ, String, ◌≡◌, refl, Bool, true, false, none, some, List, [], ◌∷◌, leb, nat_eq, ◌&&◌, ◌||◌,
}
use lore_eden.Prelude.Int.{pos}
use lore_eden.Prelude.Index.{contains, index_of}
use lore_eden.Prelude.Dict.{get, put}
use lore_eden.Prelude.Result.{Result, ok, raised}
use lore_eden.Prelude.Strip.{strip, reverse_onto, drop_spaces}
use lore_eden.Prelude.Text.{concat, join}
use lore_eden.Prelude.Decimal.{decimal}
use lore_eden.Workflow.Models.{pass, WorkflowStageDef, sorted, done}
use lore_eden.Workflow.Dispatch.{WorkflowCursor, status_of, start, advance}
use lore_eden.Workflow.Routing.{next_stage_key}
use lore_eden.Workflow.Gates.{blocking, run_gates, run_commands}
use lore_eden.Workflow.Gates.Shell.{run_template, run_command, format_gate_command}
use lore_eden.Workflow.Gates.Config.{collect_gate_commands, resolve_transition_script}
use lore_eden.Workflow.Gates.Examples.{machine, gates}
use lore_eden.Agents.Invocation.{claude, build_invocation}
use lore_eden.Agents.Outcome.{not_timed_out, BridgeOutcome}
use lore_eden.Runner.Registry.{Parts, resolve}
use lore_eden.Runner.Report.{no_outcome, parse_report, read}
use lore_eden.Runner.Report.Pattern.{match_at}
use lore_eden.Runner.Setup.{Host, StageExecution, StageRunner, RunError, gate_blocked, find_stage}
use lore_eden.Runner.Stage.{at_the_end, run_stage, standing}
use lore_eden.Runner.Stage.Earned.{IsEarned, run_stage-IsEarned}
use lore_eden.Runner.Stage.Gating.{run_stage-gate_blocked}

-- ASCII letters, digits and the underscore.
abbrev is_word : ℕ → Bool
is_word n =
    (leb 48 n && leb n 57) || ((leb 65 n && leb n 90) || ((leb 97 n && leb n 122) || nat_eq n 95))

last_word :
    parse_report is_word "STAGE-OUTCOME: reject too early\n\n  stage-outcome:\n PASS  ok now \nbye"
    ≡ ok (some (record { outcome = pass; summary = "ok now"; reason = "" }))
unfolding parse_report match_at strip drop_spaces reverse_onto
last_word = refl

no_word : parse_report is_word "say STAGE-OUTCOME: pass\nSTAGE-OUTCOME: passed" ≡ ok none
unfolding parse_report match_at strip drop_spaces reverse_onto
no_word = refl

-- A long s is matched by the pattern, and is no outcome.
long_s : parse_report is_word "STAGE-OUTCOME: paſs" ≡ raised (no_outcome "paſs")
unfolding parse_report match_at strip drop_spaces reverse_onto
long_s = refl

abbrev parts : Parts
parts = record { Policy = Unit {0}; Seconds = ℕ; Values = Unit {0} }

abbrev ended : String → BridgeOutcome (Unit {0})
ended stdout = record {
  result = record {
    returncode = some (pos 0);
    stdout = stdout;
    stderr = "";
    timed_out = not_timed_out;
    cancelled = false;
  };
  session_id = "s";
  reported_failure = false;
  saw_result = true;
  decisions = [];
}

abbrev said : String
said = "Done.\nSTAGE-OUTCOME: pass all of it"

-- The agent always reports a pass.
abbrev host : Host
host = record {
  machine = machine;
  parts = parts;
  Decision = Unit {0};
  which = λ name. none;
  write_file = λ w path text. w;
  repr = λ text. text;
  user_line = λ text. text;
  drive = λ w invocation policy seconds stdin. (ended said, w);
}

abbrev stage : String → ℕ → WorkflowStageDef
stage key order = record {
  key = key;
  name = key;
  agent_id = "writer";
  skill_name = "";
  optional = false;
  order = pos order;
  stage_type = "agent";
  classify_routes = [];
  parallel_agents = [];
  gate_commands = "lint" ∷ [];
  gate_required = false;
  required_evidence = [];
  terminal = false;
  skip_when = "";
  model = "";
  checklist = [];
  stage_brief = "";
}

abbrev stages : List WorkflowStageDef
stages = stage "plan" 1 ∷ stage "write" 2 ∷ []

abbrev runner : StageRunner host
runner = record {
  registry = record {
    bindings =
        (
          "writer",
          record {
            agent_id = "writer";
            prompt = λ context. context.stage_key;
            policy = tt;
            model = "";
            effort = "";
            allowed_tools = [];
            disallowed_tools = [];
            idle_timeout = 300;
          },
        )
        ∷ [];
    default_agent_id = "";
  };
  stages = stages;
  transitions = [];
  workspace_root = "repo";
  prompt_dir = "prompts";
  adapter = claude;
  interactive = true;
  gates = gates [];
  reader = read is_word;
  env = [];
  permission_mode = "";
}

abbrev fresh : WorkflowCursor
fresh = record { item_id = "a"; stage_key = ""; stage_statuses = []; blocking_issues = "" }

-- What a call returned, the end of the workflow for a call that raised.
abbrev returned : Result RunError (StageExecution (Unit {0})) → StageExecution (Unit {0})
returned (ok e) = e
returned (raised x) = at_the_end runner fresh (stage "plan" 1)

abbrev execution : ℕ → StageExecution (Unit {0})
execution repairs = returned (run_stage runner fresh "" (pos 1) tt repairs).0

ran : run_stage runner fresh "" (pos 1) tt 1 ≡ (ok (execution 1), 1)
unfolding run_stage start next_stage_key sorted find_stage resolve get build_invocation read
    parse_report match_at drop_spaces run_gates resolve_transition_script strip reverse_onto
    run_commands collect_gate_commands run_template run_command format_gate_command decimal concat
    join advance put index_of blocking
ran = refl

refused : run_stage runner fresh "" (pos 1) tt 0 ≡ (ok (execution 0), 0)
unfolding run_stage start next_stage_key sorted find_stage resolve get build_invocation read
    parse_report match_at drop_spaces run_gates resolve_transition_script strip reverse_onto
    run_commands collect_gate_commands run_template run_command format_gate_command decimal concat
    join advance put index_of blocking
refused = refl

plan_done : status_of (execution 1).dispatch.cursor "plan" ≡ done
unfolding run_stage start next_stage_key sorted find_stage resolve get build_invocation read
    parse_report match_at drop_spaces run_gates resolve_transition_script strip reverse_onto
    run_commands collect_gate_commands run_template run_command format_gate_command decimal concat
    join advance put index_of blocking
plan_done = refl

run_stage-IsEarned_example :
    IsEarned runner is_word (standing runner fresh) "" (pos 1) tt 1 "plan" (execution 1) 1
unfolding get contains
run_stage-IsEarned_example =
    run_stage-IsEarned runner is_word (refl, (refl, tt)) refl (λ o. refl) "" (pos 1) tt 1
      (execution 1) 1 "plan" fresh ran (cc) plan_done

-- The gate refused the work.
run_stage-gate_blocked_example : gate_blocked (execution 0) ≡ false
run_stage-gate_blocked_example =
    run_stage-gate_blocked runner "" (pos 1) tt 0 (execution 0) 0 fresh refused
