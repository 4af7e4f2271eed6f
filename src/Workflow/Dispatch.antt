-- ===== src/Workflow/Dispatch.antt =====
-- python/lore_eden/workflow/dispatch.py: moving a work item through its workflow.
pub mod Direction
pub mod Statuses
pub mod Rejects
pub mod Reach
pub mod Pass
pub mod Passes
use lore_eden.Prelude.{
  ℕ, zero, suc, String, Bool, true, false, Option, none, some, List, [], ◌∷◌, ◌==◌, if◌then◌else◌,
  get_elem?,
}
use lore_eden.Prelude.Dict.{Dict, get_with, put}
use lore_eden.Prelude.Result.{Result, ok, ◌>>=◌}
use lore_eden.Workflow.Models.{
  StageStatus, pending, blocked, done, reject, outcome_value, WorkflowStageDef,
}
use lore_eden.Workflow.Terminal.{is_terminal_stage}
use lore_eden.Workflow.Transitions.{Transition, or_text}
use lore_eden.Workflow.Routing.{
  StageRoutePlan, RouteError, ordered_keys, stage_index, next_stage_key, resolve_next_stage_key,
  reset_upstream_stages, skip_intermediate_stages,
}

pub record WorkflowCursor : Type 0 where
  pub item_id : String
  pub stage_key : String
  pub stage_statuses : Dict StageStatus
  pub blocking_issues : String

abbrev pub status_of : WorkflowCursor → String → StageStatus
status_of c stage_key = get_with c.stage_statuses stage_key pending

abbrev pub with_status : WorkflowCursor → String → StageStatus → WorkflowCursor
with_status c stage_key status = record c { stage_statuses = put c.stage_statuses stage_key status }

pub record DispatchResult : Type 0 where
  pub cursor : WorkflowCursor
  pub plan : Option StageRoutePlan
  pub finished : Bool
  pub is_blocked : Bool

unfoldable pub reaches_terminal : List WorkflowStageDef → String → Bool
unfolding is_terminal_stage
reaches_terminal [] stage_key = false
reaches_terminal (s ∷ ss) stage_key =
    if s.key == stage_key then is_terminal_stage s else reaches_terminal ss stage_key

abbrev pub no_stages_issue : String
no_stages_issue = "This workflow has no stages"

abbrev pub start_at : WorkflowCursor → List WorkflowStageDef → Option String → DispatchResult
start_at c stages none = record {
  cursor = record c { blocking_issues = no_stages_issue };
  plan = none;
  finished = false;
  is_blocked = true;
}
start_at c stages (some first) = record {
  cursor = record c { stage_key = first; blocking_issues = "" };
  plan = none;
  finished = reaches_terminal stages first;
  is_blocked = false;
}

unfoldable pub start : WorkflowCursor → List WorkflowStageDef → DispatchResult
unfolding reaches_terminal
start c stages = start_at c stages (next_stage_key stages "")

abbrev pub or_empty : Option String → String
or_empty none = ""
or_empty (some k) = k

-- `ordered[index - 1] if index > 0 else ""`, with "" for a stage that is not there too.
abbrev pub before : List String → Option ℕ → String
before keys none = ""
before keys (some zero) = ""
before keys (some (suc i)) = or_empty (get_elem? keys i)

unfoldable pub previous_stage_key : List WorkflowStageDef → String → String
previous_stage_key stages stage_key = before (ordered_keys stages) (stage_index stages stage_key)

unfoldable pub apply :
    WorkflowCursor → List WorkflowStageDef → StageRoutePlan → String → WorkflowCursor
unfolding reset_upstream_stages skip_intermediate_stages
apply c stages plan blocking_issues = record c {
  stage_key = plan.to_key;
  stage_statuses =
      if plan.upstream
      then reset_upstream_stages c.stage_statuses stages plan.from_key plan.to_key
      else skip_intermediate_stages c.stage_statuses stages plan.from_key plan.to_key;
  blocking_issues = blocking_issues;
}

-- The fallback of a reject that no route takes: the preceding stage.
abbrev pub or_previous :
    Bool → String → String → String → Option StageRoutePlan → Option StageRoutePlan
or_previous rejected fallback from_key outcome (some plan) = some plan
or_previous rejected fallback from_key outcome none =
    if rejected
    then (if fallback == ""
        then none
        else some (record {
          from_key = from_key;
          to_key = fallback;
          outcome = outcome;
          upstream = true;
          transition_agent_id = "";
        }))
    else none

abbrev pub no_return_issue : String
no_return_issue = "Rejected with no earlier stage to return to"

-- The end of `advance`: `settled` is the cursor with the outcome recorded.
abbrev pub move :
    Bool → WorkflowCursor → List WorkflowStageDef → String → Option StageRoutePlan → DispatchResult
move rejected settled stages blocking_issues (some plan) = record {
  cursor = apply settled stages plan blocking_issues;
  plan = some plan;
  finished = reaches_terminal stages plan.to_key;
  is_blocked = false;
}
move true settled stages blocking_issues none = record {
  cursor = record (with_status settled settled.stage_key blocked) {
    blocking_issues = or_text blocking_issues no_return_issue;
  };
  plan = none;
  finished = false;
  is_blocked = true;
}
move false settled stages blocking_issues none = record {
  cursor = settled;
  plan = none;
  finished = true;
  is_blocked = false;
}

abbrev pub settle : Bool → WorkflowCursor → WorkflowCursor
settle rejected c = if rejected then c else with_status c c.stage_key done

unfoldable pub advance :
    WorkflowCursor
    → List WorkflowStageDef
    → List Transition
    → String
    → String
    → String
    → Result RouteError DispatchResult
unfolding start resolve_next_stage_key apply previous_stage_key reaches_terminal
advance c stages transitions outcome explicit_to blocking_issues =
    let rejected = outcome == outcome_value reject in
    if c.stage_key == "" then ok (start c stages) else do
      plan ← resolve_next_stage_key stages transitions c.stage_key outcome explicit_to
      ok (
          move rejected (settle rejected c) stages blocking_issues
            (or_previous rejected (previous_stage_key stages c.stage_key) c.stage_key outcome plan))

-- `replace(cursor.with_status(cursor.stage_key, BLOCKED), blocking_issues=reason)`
unfoldable pub block : WorkflowCursor → String → DispatchResult
block c reason = record {
  cursor = record (with_status c c.stage_key blocked) { blocking_issues = reason };
  plan = none;
  finished = false;
  is_blocked = true;
}
