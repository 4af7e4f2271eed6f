-- ===== src/Workflow/Routing.antt =====
-- python/lore_eden/workflow/state_machine.py: where a workflow's cursor goes next.
pub mod Moves
pub mod Plan
use lore_eden.Prelude.{
  ℕ, ◌+◌, ◌-◌, String, Bool, false, Option, none, some, List, [], ◌∷◌, map, ◌==◌, ltb, leb,
  if◌then◌else◌, slice, get_elem?,
}
use lore_eden.Prelude.Index.{contains, index_of}
use lore_eden.Prelude.Dict.{Dict, get_with, put, put_all}
use lore_eden.Prelude.Result.{Result, ok, raised}
use lore_eden.Workflow.Models.{
  StageStatus, pending, wont_do, reject, outcome_value, is_pending, WorkflowStageDef, sorted,
}
use lore_eden.Workflow.Transitions.{Transition, resolve_transition_target}

pub record StageRoutePlan : Type 0 where
  pub from_key : String
  pub to_key : String
  pub outcome : String
  pub upstream : Bool
  pub transition_agent_id : String

-- ValueError of `resolve_next_stage_key`, with the target and the stage that its message names.
pub data RouteError : Type 0 where
  unknown_target : String → String → RouteError

abbrev pub ordered_keys : List WorkflowStageDef → List String
ordered_keys stages = map (λ s. s.key) (sorted stages)

abbrev pub stage_index : List WorkflowStageDef → String → Option ℕ
stage_index stages stage_key = index_of stage_key (ordered_keys stages)

-- The two indices compared, when both are there.
abbrev pub is_before : Option ℕ → Option ℕ → Bool
is_before none to_idx = false
is_before (some i) none = false
is_before (some i) (some j) = ltb j i

unfoldable pub is_upstream_route : List WorkflowStageDef → String → String → Bool
is_upstream_route stages from_key to_key =
    is_before (stage_index stages from_key) (stage_index stages to_key)

abbrev pub head? : List String → Option String
head? [] = none
head? (k ∷ ks) = some k

unfoldable pub next_stage_key : List WorkflowStageDef → String → Option String
next_stage_key stages current_key =
    let keys = ordered_keys stages in
    if current_key == ""
    then head? keys
    else elim (index_of current_key keys) [ none ↦ none | some i ↦ get_elem? keys (i + 1) ]

-- The last part of `resolve_next_stage_key`: the linear order, when the key is not empty.
abbrev pub linear_plan : String → String → Option String → Option StageRoutePlan
linear_plan current_key outcome none = none
linear_plan current_key outcome (some key) =
    if key == ""
    then none
    else some (record {
      from_key = current_key;
      to_key = key;
      outcome = outcome;
      upstream = false;
      transition_agent_id = "";
    })

abbrev pub routed_plan :
    List WorkflowStageDef → String → String → Option (String × String) → Option StageRoutePlan
routed_plan stages current_key outcome (some (to_key, agent_id)) = some (record {
  from_key = current_key;
  to_key = to_key;
  outcome = outcome;
  upstream = is_upstream_route stages current_key to_key;
  transition_agent_id = agent_id;
})
routed_plan stages current_key outcome none =
    if outcome == outcome_value reject
    then none
    else linear_plan current_key outcome (next_stage_key stages current_key)

unfoldable pub resolve_next_stage_key :
    List WorkflowStageDef
    → List Transition
    → String
    → String
    → String
    → Result RouteError (Option StageRoutePlan)
unfolding resolve_transition_target next_stage_key is_upstream_route
resolve_next_stage_key stages transitions current_key outcome explicit_to =
    if explicit_to == ""
    then ok (
        routed_plan stages current_key outcome
          (resolve_transition_target transitions current_key outcome))
    else if contains (map (λ s. s.key) stages) explicit_to
    then ok (
        some (record {
          from_key = current_key;
          to_key = explicit_to;
          outcome = outcome;
          upstream = is_upstream_route stages current_key explicit_to;
          transition_agent_id = "";
        }))
    else raised (unknown_target explicit_to current_key)

-- The loop over `range(to_idx, from_idx + 1)`.
abbrev pub reset_range : Dict StageStatus → List String → Option ℕ → Option ℕ → Dict StageStatus
reset_range stage_map keys (some from_idx) (some to_idx) =
    if ltb from_idx to_idx
    then stage_map
    else put_all stage_map (slice to_idx (from_idx + 1 - to_idx) keys) pending
reset_range stage_map keys _ _ = stage_map

unfoldable pub reset_upstream_stages :
    Dict StageStatus → List WorkflowStageDef → String → String → Dict StageStatus
unfolding put_all
reset_upstream_stages stage_map stages from_key to_key =
    reset_range stage_map (ordered_keys stages) (stage_index stages from_key)
      (stage_index stages to_key)

-- The loop body of `skip_intermediate_stages` over the keys that the branch jumped over.
unfoldable pub skip_pending : Dict StageStatus → List String → Dict StageStatus
skip_pending stage_map [] = stage_map
skip_pending stage_map (k ∷ ks) =
    skip_pending
      (if is_pending (get_with stage_map k pending) then put stage_map k wont_do else stage_map) ks

abbrev pub skip_range : Dict StageStatus → List String → Option ℕ → Option ℕ → Dict StageStatus
skip_range stage_map keys (some from_idx) (some to_idx) =
    if leb to_idx (from_idx + 1)
    then stage_map
    else skip_pending stage_map (slice (from_idx + 1) (to_idx - (from_idx + 1)) keys)
skip_range stage_map keys _ _ = stage_map

unfoldable pub skip_intermediate_stages :
    Dict StageStatus → List WorkflowStageDef → String → String → Dict StageStatus
unfolding skip_pending
skip_intermediate_stages stage_map stages from_key to_key =
    skip_range stage_map (ordered_keys stages) (stage_index stages from_key)
      (stage_index stages to_key)
