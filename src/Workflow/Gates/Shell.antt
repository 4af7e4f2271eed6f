-- ===== src/Workflow/Gates/Shell.antt =====
-- Running one gate command (python/lore_eden/workflow/gates.py), over the machine that runs it.
use lore_eden.Prelude.{
  String, Bool, true, false, Option, some, List, [], ◌∷◌, if◌then◌else◌, nat_eq,
}
use lore_eden.Prelude.Int.{ℤ, pos}
use lore_eden.Prelude.Dict.{Dict}
use lore_eden.Prelude.Result.{Result, ok, raised}
use lore_eden.Prelude.Text.{concat}
use lore_eden.Prelude.Strip.{strip}
use lore_eden.Prelude.Decimal.{decimal_ℤ}
use lore_eden.Workflow.Models.{GateOutcome, passed, failed, unavailable}
use lore_eden.Workflow.Transitions.{or_text}

-- What evaluating a gate may raise: a template that `str.format` refuses with another error than
-- `KeyError` and `IndexError`, or output that is no text.
pub data GateFault : Type 0 where
  malformed_template : String → GateFault
  undecodable : GateFault
  -- ValueError of subprocess, with its text
  unusable_argument : String → GateFault

-- template.format(**context)
pub data Filled : Type 0 where
  filled : String → Filled
  -- KeyError or IndexError
  unknown_placeholder : Filled
  misformed : Filled

pub record CompletedProcess : Type 0 where
  pub returncode : ℤ
  pub stdout : String
  pub stderr : String

-- How `subprocess.run` ends.
pub data Completion : Type 0 where
  completed : CompletedProcess → Completion
  -- OSError, with its text
  not_executed : String → Completion
  -- TimeoutExpired
  expired : Completion
  -- UnicodeDecodeError
  not_text : Completion
  -- ValueError for what cannot be passed on, such as an argument with a null byte
  not_passed_on : String → Completion

-- The machine: its files and processes, `shlex`, `pathlib` and `str.format`.
pub record Machine : Type 1 where
  pub World : Type 0
  pub is_dir : World → String → Bool
  pub is_file : World → String → Bool
  -- repo_root / candidate
  pub child : String → String → String
  -- shlex.split, with the text of its ValueError
  pub split : String → Result String (List String)
  pub quote : String → String
  pub fill : String → Dict String → Filled
  -- subprocess.run in a directory, and the machine afterwards
  pub spawn : World → String → List String → Completion × World

pub record GateRunResult : Type 0 where
  pub is_ok : Bool
  pub outcome : Option GateOutcome
  pub message : String
  pub command : String
  pub stdout : String
  pub stderr : String

abbrev pub could_not_run : String → String → GateRunResult
could_not_run command message = record {
  is_ok = false;
  outcome = some unavailable;
  message = message;
  command = command;
  stdout = "";
  stderr = "";
}

abbrev pub is_zero : ℤ → Bool
is_zero (pos n) = nat_eq n 0
is_zero _ = false

-- The end of `run_command`, for a process that ran; the two texts are stripped.
abbrev pub judged : String → ℤ → String → String → GateRunResult
judged command returncode stdout stderr =
    if is_zero returncode
    then record {
      is_ok = true;
      outcome = some passed;
      message = "";
      command = command;
      stdout = stdout;
      stderr = stderr;
    }
    else record {
      is_ok = false;
      outcome = some failed;
      message = or_text stderr (or_text stdout (concat ("exit code " ∷ decimal_ℤ returncode ∷ [])));
      command = command;
      stdout = stdout;
      stderr = stderr;
    }

abbrev pub timeout_message : String
timeout_message = "Gate command timed out after 300s"

module _ (sh : Machine) where
  -- A call that may change the machine and may raise.
  abbrev pub M : Type 0 → Type 0
  M A = sh.World → Result GateFault A × sh.World

  abbrev pub then_run :
      {A B : Type 0} → (A → M B) → Result GateFault A × sh.World → Result GateFault B × sh.World
  then_run f (ok a, w) = f a w
  then_run f (raised e, w) = (raised e, w)

  abbrev pub classify : String → Completion × sh.World → Result GateFault GateRunResult × sh.World
  classify command (completed p, w) =
      (ok (judged command p.returncode (strip p.stdout) (strip p.stderr)), w)
  classify command (not_executed message, w) = (ok (could_not_run command message), w)
  classify command (expired, w) = (ok (could_not_run command timeout_message), w)
  classify command (not_text, w) = (raised undecodable, w)
  classify command (not_passed_on message, w) = (raised (unusable_argument message), w)

  abbrev pub run_argv : String → String → Result String (List String) → M GateRunResult
  run_argv command cwd (raised message) w =
      (ok (could_not_run command (concat ("malformed gate command: " ∷ message ∷ []))), w)
  run_argv command cwd (ok []) w = (ok (could_not_run command "empty gate command"), w)
  run_argv command cwd (ok (program ∷ argv)) w = classify command (sh.spawn w cwd (program ∷ argv))

  unfoldable pub run_command : String → String → M GateRunResult
  run_command command cwd w = run_argv command cwd (sh.split command) w

  abbrev pub formatted : String → Filled → Result GateFault String
  formatted template (filled command) = ok command
  formatted template unknown_placeholder = ok template
  formatted template misformed = raised (malformed_template template)

  unfoldable pub format_gate_command : String → Dict String → Result GateFault String
  format_gate_command template context = formatted template (sh.fill template context)

  abbrev pub run_formatted : String → Result GateFault String → M GateRunResult
  run_formatted cwd (ok command) w = run_command command cwd w
  run_formatted cwd (raised e) w = (raised e, w)

  -- run_command(format_gate_command(template, dict(context)), repo_root)
  unfoldable pub run_template : String → Dict String → String → M GateRunResult
  run_template cwd context template w = run_formatted cwd (format_gate_command template context) w
