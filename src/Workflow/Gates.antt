-- ===== src/Workflow/Gates.antt =====
-- python/lore_eden/workflow/gates.py: the shell commands that gate a transition, with one attempt at
-- repair.
pub mod Shell
pub mod Config
pub mod Ansi
pub mod Examples
pub mod Cycle
pub mod Verdicts
pub mod Commands
pub mod Evaluation
pub mod Spec
use lore_eden.Prelude.{
  ℕ, suc, ◌+◌, String, Bool, true, false, ◌||◌, not, Option, none, some, List, [], ◌∷◌, ◌++◌, map,
  ◌==◌, nat_eq, if◌then◌else◌,
}
use lore_eden.Prelude.Dict.{Dict}
use lore_eden.Prelude.Result.{Result, ok, raised}
use lore_eden.Prelude.Text.{concat, join}
use lore_eden.Prelude.Strip.{strip}
use lore_eden.Prelude.Decimal.{decimal}
use lore_eden.Prelude.Codes.{codes, lower, occurs}
use lore_eden.Workflow.Models.{
  GateOutcome, passed, failed, skipped, disabled, unavailable, WorkflowStageDef,
}
use lore_eden.Workflow.Gates.Shell.{
  Machine, GateFault, GateRunResult, M, then_run, run_command, format_gate_command, run_template,
}
use lore_eden.Workflow.Gates.Config.{
  GatesConfig, is_blank, collect_gate_commands, resolve_transition_script,
}
use lore_eden.Workflow.Gates.Ansi.{strip_ansi}

pub record GateAutofixResult : Type 0 where
  pub ran : Bool
  pub commands : List String
  pub output : String

pub record GateCycleResult : Type 0 where
  pub result : GateRunResult
  pub autofix : Option GateAutofixResult
  pub first_failure : Option GateRunResult

unfoldable pub is_undefined_transition : GateRunResult → Bool
unfolding lower occurs
is_undefined_transition result =
    let haystack = lower (codes (concat (result.stderr ∷ "\n" ∷ result.stdout ∷ []))) in
    occurs (codes "invalid choice") haystack || occurs (codes "unknown transition") haystack

-- result.outcome is GateOutcome.UNAVAILABLE
abbrev pub is_unavailable : Option GateOutcome → Bool
is_unavailable none = false
is_unavailable (some outcome) = elim outcome [ unavailable ↦ true | _ ↦ false ]

-- `_blocking`
unfoldable pub blocking : GateRunResult → GateRunResult
blocking result =
    if is_unavailable result.outcome then result else record result { outcome = some failed }

-- A result that no command gave.
abbrev pub remark : Bool → GateOutcome → String → GateRunResult
remark is_ok outcome message = record {
  is_ok = is_ok;
  outcome = some outcome;
  message = message;
  command = "";
  stdout = "";
  stderr = "";
}

-- The end of `run_gates`, when nothing blocked.
abbrev pub tally : ℕ → GateRunResult
tally ran =
    if nat_eq ran 0
    then remark true skipped "no gate commands configured"
    else remark true passed (concat ("passed " ∷ decimal ran ∷ " gate command(s)" ∷ []))

-- What the transition script said: how many gates it counts for, or that it blocks.
pub data ScriptVerdict : Type 0 where
  counts : ℕ → ScriptVerdict
  blocks : GateRunResult → ScriptVerdict

unfoldable pub judge_script : GateRunResult → ScriptVerdict
unfolding is_undefined_transition blocking
judge_script result =
    if result.is_ok
    then counts 1
    else if is_undefined_transition result
    then counts 0
    else blocks (blocking result)

-- [part for part in parts if part]
abbrev pub nonempty : List String → List String
nonempty [] = []
nonempty (part ∷ parts) = let rest = nonempty parts in if part == "" then rest else part ∷ rest

module _ (sh : Machine) where
  abbrev pub script_command : String → List String → String
  script_command script argv =
      strip (concat (sh.quote script ∷ " " ∷ join " " (map sh.quote argv) ∷ []))

  abbrev pub run_script : String → Dict String → List String → Option String → M sh ScriptVerdict
  run_script repo_root context argv none w = (ok (counts 0), w)
  run_script repo_root context argv (some script) w =
      then_run sh (λ result w'. (ok (judge_script result), w'))
        (run_template sh repo_root context (script_command script argv) w)

  -- The loop of `run_gates`.
  unfoldable pub run_commands : String → Dict String → List String → ℕ → M sh GateRunResult
  run_commands repo_root context [] ran w = (ok (tally ran), w)
  run_commands repo_root context (template ∷ templates) ran w = elim (is_blank template) [
    | true ↦ run_commands repo_root context templates ran w
    | false ↦
        then_run sh
          (λ result w'. elim result.is_ok [
            | true ↦ run_commands repo_root context templates (ran + 1) w'
            | false ↦ (ok (blocking result), w')
          ])
          (run_template sh repo_root context template w)
  ]

  abbrev pub after_script : String → Dict String → List String → ScriptVerdict → M sh GateRunResult
  after_script repo_root context templates (counts ran) w =
      run_commands repo_root context templates ran w
  after_script repo_root context templates (blocks result) w = (ok result, w)

  abbrev pub no_repo : String → String
  no_repo repo_root = concat ("Gate repo path does not exist: " ∷ repo_root ∷ [])

  unfoldable pub run_gates :
      GatesConfig
      → String
      → Dict String
      → Option WorkflowStageDef
      → List String
      → M sh GateRunResult
  run_gates gates repo_root context stage_def argv w =
      if not gates.enabled
      then (ok (remark true disabled "gates disabled"), w)
      else if not (sh.is_dir w repo_root)
      then (ok (remark false failed (no_repo repo_root)), w)
      else then_run sh (after_script repo_root context (collect_gate_commands gates stage_def))
          (run_script repo_root context argv (resolve_transition_script sh gates repo_root w) w)

  -- The text that a fixer adds to the report, "" for none.
  abbrev pub body_of : GateRunResult → String
  body_of result =
      let body = strip (join "\n" (nonempty (result.stdout ∷ result.stderr ∷ []))) in
      if body == "" then (if result.is_ok then "" else result.message) else body

  abbrev pub add_chunk : String → String → List String → List String
  add_chunk command body chunks =
      if body == ""
      then chunks
      else chunks ++ concat ("$ " ∷ command ∷ "\n" ∷ strip_ansi body ∷ []) ∷ []

  abbrev pub ran_some : List String → Bool
  ran_some [] = false
  ran_some (command ∷ commands) = true

  -- The loop of `run_autofix`.
  unfoldable pub run_fixers :
      String → Dict String → List String → List String → List String → M sh GateAutofixResult
  run_fixers repo_root context [] commands chunks w =
      (ok (record { ran = ran_some commands; commands = commands; output = join "\n\n" chunks }), w)
  run_fixers repo_root context (template ∷ templates) commands chunks w = elim (is_blank template) [
    | true ↦ run_fixers repo_root context templates commands chunks w
    | false ↦ elim (format_gate_command sh template context) [
      | raised e ↦ (raised e, w)
      | ok command ↦
          then_run sh
            (λ result w'.
              run_fixers repo_root context templates (commands ++ command ∷ [])
                (add_chunk command (body_of result) chunks) w')
            (run_command sh command repo_root w)
    ]
  ]

  abbrev pub no_fix : String → GateAutofixResult
  no_fix output = record { ran = false; commands = []; output = output }

  unfoldable pub run_autofix : GatesConfig → String → Dict String → M sh GateAutofixResult
  run_autofix gates repo_root context w =
      if not gates.enabled || not (ran_some gates.autofix_commands)
      then (ok (no_fix ""), w)
      else if not (sh.is_dir w repo_root)
      then (ok (no_fix (no_repo repo_root)), w)
      else run_fixers repo_root context gates.autofix_commands [] [] w

  abbrev pub once : GateRunResult → Option GateAutofixResult → M sh GateCycleResult
  once first autofix w =
      (ok (record { result = first; autofix = autofix; first_failure = none }), w)

  abbrev pub twice : GateRunResult → GateAutofixResult → GateRunResult → M sh GateCycleResult
  twice first autofix second w =
      (ok (record { result = second; autofix = some autofix; first_failure = some first }), w)

  abbrev pub after_fixers :
      M sh GateRunResult → GateRunResult → GateAutofixResult → M sh GateCycleResult
  after_fixers evaluate first autofix w = elim autofix.ran [
    | false ↦ once first (some autofix) w
    | true ↦ then_run sh (twice first autofix) (evaluate w)
  ]

  abbrev pub after_first :
      M sh GateRunResult → M sh GateAutofixResult → GateRunResult → M sh GateCycleResult
  after_first evaluate fix first w = elim (first.is_ok || is_unavailable first.outcome) [
    | true ↦ once first none w
    | false ↦ then_run sh (after_fixers evaluate first) (fix w)
  ]

  unfoldable pub run_gates_with_autofix :
      GatesConfig
      → String
      → Dict String
      → Option WorkflowStageDef
      → List String
      → M sh GateCycleResult
  run_gates_with_autofix gates repo_root context stage_def argv w =
      let evaluate = run_gates gates repo_root context stage_def argv in
      let fix = run_autofix gates repo_root context in
      then_run sh (after_first evaluate fix) (evaluate w)
