-- ===== src/Workflow/Gates/Examples.antt =====
-- A machine whose tree is a number of repairs, and gates on it.
use lore_eden.Prelude.{
  ℕ, ◌+◌, String, ◌≡◌, refl, true, false, none, some, List, [], ◌∷◌, ◌==◌, nat_eq, if◌then◌else◌,
  ◌<◌, ◌⊎◌,
}
use lore_eden.Prelude.Int.{pos}
use lore_eden.Prelude.Strip.{strip, reverse_onto, drop_spaces}
use lore_eden.Prelude.Text.{concat, join}
use lore_eden.Prelude.Result.{ok, raised}
use lore_eden.Prelude.Decimal.{decimal, decimal_ℤ}
use lore_eden.Prelude.Int.{negsuc}
use lore_eden.Workflow.Models.{passed, failed}
use lore_eden.Workflow.Gates.Shell.{
  Machine, GateRunResult, Completion, completed, not_executed, filled, misformed, run_command,
  run_template, format_gate_command, malformed_template, CompletedProcess,
}
use lore_eden.Workflow.Gates.Config.{
  GatesConfig, collect_gate_commands, resolve_transition_script, transition_name,
}
use lore_eden.Workflow.Gates.Ansi.{strip_ansi}
use lore_eden.Workflow.Gates.{
  GateCycleResult, run_gates, run_commands, blocking, run_fixers, run_autofix,
  run_gates_with_autofix, is_undefined_transition,
}
use lore_eden.Workflow.Gates.Spec.{Scripted, Ran, Evaluates}
use lore_eden.Workflow.Gates.Evaluation.{run_gates-Evaluates}
use lore_eden.Workflow.Gates.Verdicts.{
  IsStamped, run_gates-passed, run_gates-IsStamped, run_command-exits,
}
use lore_eden.Workflow.Gates.Cycle.{LeftAlone, Unrepaired, Repaired, run_gates_with_autofix-cycle}

abbrev done_with : ℕ → String → Completion
done_with code said = completed (record { returncode = pos code; stdout = said; stderr = "" })

-- `lint` passes once `fix` has run.
abbrev spawn : ℕ → List String → Completion × ℕ
spawn repairs [] = (not_executed "", repairs)
spawn repairs (program ∷ argv) =
    if program == "fix"
    then (done_with 0 "", repairs + 1)
    else if program == "lint"
    then (done_with (if nat_eq repairs 0 then 1 else 0) "2 problems", repairs)
    else (not_executed "no such file", repairs)

abbrev pub machine : Machine
machine = record {
  World = ℕ;
  is_dir = λ w path. true;
  is_file = λ w path. false;
  child = λ root candidate. candidate;
  split = λ command. ok (command ∷ []);
  quote = λ text. text;
  fill = λ template context. if template == "{" then misformed else filled template;
  spawn = λ w cwd argv. spawn w argv;
}

abbrev pub gates : List String → GatesConfig
gates commands = record {
  enabled = true;
  commands = commands;
  transition_script = "";
  autofix_commands = "fix" ∷ [];
  autofix_agent_fallback = true;
  autofix_max_agent_attempts = pos 2;
}

abbrev fine : GateRunResult
fine = record {
  is_ok = true;
  outcome = some passed;
  message = "passed 1 gate command(s)";
  command = "";
  stdout = "";
  stderr = "";
}

passing : run_gates machine (gates (" " ∷ "lint" ∷ [])) "repo" [] none [] 1 ≡ (ok fine, 1)
unfolding run_gates resolve_transition_script collect_gate_commands run_template run_command
    format_gate_command run_commands strip decimal reverse_onto drop_spaces concat join
passing = refl

run_gates-Evaluates_example :
    Evaluates machine "repo" [] []
      (gates (" " ∷ "lint" ∷ []))
      none
      1
      (run_gates machine (gates (" " ∷ "lint" ∷ [])) "repo" [] none [] 1).0
      (run_gates machine (gates (" " ∷ "lint" ∷ [])) "repo" [] none [] 1).1
run_gates-Evaluates_example =
    run_gates-Evaluates machine "repo" [] [] (gates (" " ∷ "lint" ∷ [])) none 1

run_gates-IsStamped_example : IsStamped fine
run_gates-IsStamped_example =
    run_gates-IsStamped machine "repo" [] [] (gates (" " ∷ "lint" ∷ [])) none 1 fine 1 passing

run_gates-passed_example :
    ((gates (" " ∷ "lint" ∷ [])).enabled ≡ true)
    × (machine.is_dir 1 "repo" ≡ true)
    × ((n m : ℕ) × (w1 : ℕ) × Scripted machine "repo" [] [] none 1 n w1
        × Ran machine "repo" [] (" " ∷ "lint" ∷ []) w1 m 1
        × (0 < n + m))
unfolding resolve_transition_script collect_gate_commands strip reverse_onto drop_spaces concat join
run_gates-passed_example =
    run_gates-passed machine "repo" [] [] (gates (" " ∷ "lint" ∷ [])) none 1 fine 1 passing refl

abbrev linted : GateRunResult
linted = record {
  is_ok = true;
  outcome = some passed;
  message = "";
  command = "lint";
  stdout = "2 problems";
  stderr = "";
}

exits : run_command machine "lint" "repo" 1 ≡ (ok linted, 1)
unfolding run_command strip reverse_onto drop_spaces concat join
exits = refl

run_command-exits_example :
    (program : String) × (argv : List String) × (p : CompletedProcess) × (machine.split "lint"
      ≡ ok (program ∷ argv))
    × (machine.spawn 1 "repo" (program ∷ argv) ≡ (completed p, 1))
    × (p.returncode ≡ pos 0)
run_command-exits_example = run_command-exits machine "lint" "repo" 1 linted 1 exits refl

-- The fixer repairs the tree, and the second evaluation passes.
abbrev cycle : GateCycleResult
cycle = record {
  result = fine;
  autofix = some (record { ran = true; commands = "fix" ∷ []; output = "" });
  first_failure = some (record {
    is_ok = false;
    outcome = some failed;
    message = "2 problems";
    command = "lint";
    stdout = "2 problems";
    stderr = "";
  });
}

repaired : run_gates_with_autofix machine (gates ("lint" ∷ [])) "repo" [] none [] 0 ≡ (ok cycle, 1)
unfolding run_gates_with_autofix run_gates run_autofix run_fixers blocking resolve_transition_script
    collect_gate_commands run_template run_command format_gate_command run_commands strip decimal
    reverse_onto drop_spaces concat join
repaired = refl

run_gates_with_autofix-cycle_example :
    (first : GateRunResult) × (w1 : ℕ) × (run_gates machine
        (gates ("lint" ∷ []))
        "repo"
        []
        none
        []
        0
      ≡ (ok first, w1))
    × (LeftAlone machine "repo" [] [] (gates ("lint" ∷ [])) none 0 cycle first w1 1
        ⊎ (Unrepaired machine "repo" [] [] (gates ("lint" ∷ [])) none 0 cycle first w1 1
            ⊎ Repaired machine "repo" [] [] (gates ("lint" ∷ [])) none 0 cycle first w1 1))
run_gates_with_autofix-cycle_example =
    run_gates_with_autofix-cycle machine "repo" [] [] (gates ("lint" ∷ [])) none 0 cycle 1 repaired

-- A brace that opens no placeholder raises out of the evaluation.
malformed :
    run_gates machine (gates ("{" ∷ [])) "repo" [] none [] 0 ≡ (raised (malformed_template "{"), 0)
unfolding run_gates resolve_transition_script collect_gate_commands run_template format_gate_command
    run_commands strip reverse_onto drop_spaces concat join
malformed = refl

undefined : is_undefined_transition (record linted { stderr = "error: Invalid CHOICE" }) ≡ true
unfolding is_undefined_transition concat
undefined = refl

uncoloured : strip_ansi "\u{1b}[1;31mred\u{1b}[0m [x" ≡ "red [x"
unfolding strip_ansi
uncoloured = refl

exit_code : decimal_ℤ (negsuc 8) ≡ "-9"
unfolding decimal_ℤ
exit_code = refl

named : transition_name "plan" "write" ≡ "plan_to_write"
unfolding transition_name concat
named = refl
