-- ===== src/Workflow/Gates/Config.antt =====
-- What gates a transition (python/lore_eden/workflow/gates.py): the configuration and its readings.
use lore_eden.Prelude.{
  String, Bool, true, false, not, ◌||◌, Option, none, some, List, [], ◌∷◌, ◌++◌, ◌==◌,
  if◌then◌else◌,
}
use lore_eden.Prelude.Int.{ℤ}
use lore_eden.Prelude.Text.{concat}
use lore_eden.Prelude.Strip.{strip}
use lore_eden.Workflow.Models.{WorkflowStageDef}
use lore_eden.Workflow.Gates.Shell.{Machine}

pub record GatesConfig : Type 0 where
  pub enabled : Bool
  pub commands : List String
  pub transition_script : String
  pub autofix_commands : List String
  pub autofix_agent_fallback : Bool
  pub autofix_max_agent_attempts : ℤ

unfoldable pub transition_name : String → String → String
unfolding concat
transition_name from_stage to_stage = concat (from_stage ∷ "_to_" ∷ to_stage ∷ [])

-- not template.strip()
abbrev pub is_blank : String → Bool
is_blank template = strip template == ""

abbrev pub stage_commands : Option WorkflowStageDef → List String
stage_commands none = []
stage_commands (some stage_def) = stage_def.gate_commands

unfoldable pub collect_gate_commands : GatesConfig → Option WorkflowStageDef → List String
collect_gate_commands gates stage_def =
    if gates.enabled then gates.commands ++ stage_commands stage_def else []

abbrev pub when_file : Bool → String → Option String
when_file true path = some path
when_file false path = none

abbrev pub is_there : Option String → Bool
is_there none = false
is_there (some path) = true

unfoldable pub any_runnable : List String → Bool
any_runnable [] = false
any_runnable (command ∷ commands) = not (is_blank command) || any_runnable commands

module _ (sh : Machine) where
  unfoldable pub resolve_transition_script : GatesConfig → String → sh.World → Option String
  resolve_transition_script gates repo_root w =
      let candidate = strip gates.transition_script in
      let path = sh.child repo_root candidate in
      if candidate == "" then none else when_file (sh.is_file w path) path

  unfoldable pub gates_can_run : GatesConfig → String → sh.World → Bool
  unfolding resolve_transition_script any_runnable
  gates_can_run gates repo_root w =
      if gates.enabled
      then any_runnable gates.commands || is_there (resolve_transition_script gates repo_root w)
      else false
