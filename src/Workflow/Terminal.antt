-- ===== src/Workflow/Terminal.antt =====
-- python/lore_eden/workflow/terminal.py: what it means for a stage to end the workflow.
pub mod Search
use lore_eden.Prelude.{String, Bool, ◌||◌, Option, none, some, List, [], ◌∷◌, ◌==◌, if◌then◌else◌}
use lore_eden.Workflow.Models.{WorkflowStageDef, sorted}

abbrev pub terminal_stage_key : String
terminal_stage_key = "done"

unfoldable pub is_terminal_stage : WorkflowStageDef → Bool
is_terminal_stage stage = stage.terminal || (stage.key == terminal_stage_key)

-- The loop of `find_terminal_stage` over the sorted stages.
unfoldable pub first_terminal : List WorkflowStageDef → Option WorkflowStageDef
unfolding is_terminal_stage
first_terminal [] = none
first_terminal (s ∷ ss) = if is_terminal_stage s then some s else first_terminal ss

unfoldable pub find_terminal_stage : List WorkflowStageDef → Option WorkflowStageDef
unfolding first_terminal sorted
find_terminal_stage stages = first_terminal (sorted stages)
