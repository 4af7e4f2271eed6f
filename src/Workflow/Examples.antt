-- ===== src/Workflow/Examples.antt =====
-- Three stages with a rework edge, and what the workflow modules do with them.
use mathlib.Core.List.{not-mem-nil, mem-cons}
use mathlib.Core.Logic.Or
use lore_eden.Prelude.{
  ℕ, String, ◌≡◌, refl, inr, Bool, true, false, none, some, List, [], ◌∷◌, arith, ◌==◌, ◌≢◌,
  eq_false→ne,
}
use lore_eden.Prelude.Int.{pos}
use lore_eden.Prelude.Index.{contains, index_of, Distinct}
use lore_eden.Prelude.Dict.{get, put}
use lore_eden.Prelude.Result.{ok}
use lore_eden.Workflow.Models.{WorkflowStageDef, pending, done, wont_do, sorted, is_pending}
use lore_eden.Workflow.Transitions.{Transition, resolve_transition_target}
use lore_eden.Workflow.Transitions.Sound.{Routes, resolve_transition_target-Routes}
use lore_eden.Workflow.Routing.{
  StageRoutePlan, stage_index, resolve_next_stage_key, reset_upstream_stages,
  skip_intermediate_stages,
}
use lore_eden.Workflow.Routing.Moves.{
  is_inside, get-reset_upstream_stages, get-skip_intermediate_stages,
}
use lore_eden.Workflow.Routing.Plan.{Faithful, resolve_next_stage_key-Faithful}
use lore_eden.Workflow.Order.{stage_keys}
use lore_eden.Workflow.Terminal.{find_terminal_stage}
use lore_eden.Workflow.Terminal.Search.{FindsTerminal, find_terminal_stage-FindsTerminal}
use lore_eden.Workflow.Dispatch.Direction.{IsTrue, advance-IsTrue}
use lore_eden.Workflow.Dispatch.Statuses.{
  get-advance, advance-leaves_nothing_pending, advance-redoes, advance-reject_completes_nothing,
}
use lore_eden.Workflow.Dispatch.Rejects.{Returns, advance-reject_goes_back}
use lore_eden.Workflow.Dispatch.Reach.{
  IsClosed, IsPlaced, here, next, advances, blocks, Reach-IsPlaced,
}
use lore_eden.Workflow.Dispatch.Pass.{Finishes}
use lore_eden.Workflow.Dispatch.Passes.{run_passes, run_passes-Finishes}
use lore_eden.Workflow.Dispatch.{WorkflowCursor, DispatchResult, status_of, advance, block}

abbrev stage : String → ℕ → Bool → WorkflowStageDef
stage key order terminal = record {
  key = key;
  name = key;
  agent_id = "";
  skill_name = "";
  optional = false;
  order = pos order;
  stage_type = "agent";
  classify_routes = [];
  parallel_agents = [];
  gate_commands = [];
  gate_required = false;
  required_evidence = [];
  terminal = terminal;
  skip_when = "";
  model = "";
  checklist = [];
  stage_brief = "";
}

-- Written out of order, as a template may.
abbrev stages : List WorkflowStageDef
stages =
    stage "review" 2 false ∷ stage "plan" 0 false ∷ stage "write" 1 false ∷ stage "done" 3 true ∷ []

abbrev edge : String → String → String → Transition
edge from to when = record {
  entries = ("from", from) ∷ ("to", to) ∷ ("when", when) ∷ [];
  true_entry = none;
}

abbrev rework : List Transition
rework = edge "review" "plan" "reject" ∷ edge "plan" "review" "pass" ∷ []

abbrev at_stage : String → WorkflowCursor
at_stage key = record {
  item_id = "item-1";
  stage_key = key;
  stage_statuses = [];
  blocking_issues = "";
}

distinct : Distinct (stage_keys stages)
unfolding contains
distinct = (refl, (refl, (refl, (refl, tt))))

all_named : contains (stage_keys stages) "" ≡ false
unfolding contains
all_named = refl

reject_from_review : resolve_transition_target rework "review" "reject" ≡ some ("plan", "")
unfolding resolve_transition_target get
reject_from_review = refl

resolve_transition_target-Routes_example : Routes rework "review" "reject" ("plan", "")
resolve_transition_target-Routes_example =
    resolve_transition_target-Routes rework "review" "reject" ("plan", "") reject_from_review

-- A pass over the only edge, a reject edge, does not take it: the linear order is used.
pass_from_review : resolve_transition_target rework "review" "pass" ≡ none
unfolding resolve_transition_target get
pass_from_review = refl

get-reset_upstream_stages_example :
    get (reset_upstream_stages [] stages "review" "plan") "write" ≡ some pending
unfolding index_of sorted
get-reset_upstream_stages_example =
    get-reset_upstream_stages [] stages "review" "plan" "write" distinct

get-skip_intermediate_stages_example :
    get (skip_intermediate_stages [] stages "plan" "review") "write" ≡ some wont_do
unfolding index_of sorted get
get-skip_intermediate_stages_example =
    get-skip_intermediate_stages [] stages "plan" "review" "write" distinct

find_terminal_stage_example : FindsTerminal stages (find_terminal_stage stages)
find_terminal_stage_example = find_terminal_stage-FindsTerminal stages

started : (key : String) → (key == "") ≡ false → key ≢ ""
started key e = eq_false→ne key "" e

abbrev plan_to : String → String → String → Bool → StageRoutePlan
plan_to from to outcome upstream = record {
  from_key = from;
  to_key = to;
  outcome = outcome;
  upstream = upstream;
  transition_agent_id = "";
}

reject_plan :
    resolve_next_stage_key stages rework "review" "reject" ""
    ≡ ok (some (plan_to "review" "plan" "reject" true))
unfolding resolve_next_stage_key get index_of sorted
reject_plan = refl

resolve_next_stage_key-Faithful_example :
    Faithful stages rework "review" "reject" (plan_to "review" "plan" "reject" true)
resolve_next_stage_key-Faithful_example =
    resolve_next_stage_key-Faithful stages rework "review" "reject" distinct (started "review" refl)
      "" (plan_to "review" "plan" "reject" true) reject_plan

-- The item after the reject of a review that came behind three finished stages.
abbrev reviewed : WorkflowCursor
reviewed = record (at_stage "review") { stage_statuses = ("plan", done) ∷ ("write", done) ∷ [] }

abbrev rejected : DispatchResult
rejected = record {
  cursor = record (at_stage "plan") {
    stage_statuses = ("plan", pending) ∷ ("write", pending) ∷ ("review", pending) ∷ [];
    blocking_issues = "too short";
  };
  plan = some (plan_to "review" "plan" "reject" true);
  finished = false;
  is_blocked = false;
}

reject_moves : advance reviewed stages rework "reject" "" "too short" ≡ ok rejected
unfolding advance get put index_of sorted
reject_moves = refl

abbrev passed : DispatchResult
passed = record {
  cursor = record (at_stage "review") { stage_statuses = ("plan", done) ∷ ("write", wont_do) ∷ [] };
  plan = some (plan_to "plan" "review" "pass" false);
  finished = false;
  is_blocked = false;
}

pass_moves : advance (at_stage "plan") stages rework "pass" "" "" ≡ ok passed
unfolding advance get put index_of sorted
pass_moves = refl

get-advance_example : get rejected.cursor.stage_statuses "write" ≡ some pending
unfolding index_of sorted
get-advance_example =
    get-advance reviewed stages rework "reject" "" "too short" distinct (started "review" refl)
      rejected reject_moves "write"

advance-IsTrue_example :
    IsTrue stages "review" (plan_to "review" "plan" "reject" true)
    × (rejected.cursor.stage_key ≡ "plan")
advance-IsTrue_example =
    advance-IsTrue reviewed stages rework "reject" "" "too short" distinct (started "review" refl)
      rejected (plan_to "review" "plan" "reject" true) reject_moves refl

advance-leaves_nothing_pending_example :
    (status_of passed.cursor "plan" ≡ done)
    × (is_inside
            (stage_index stages "plan")
            (stage_index stages "write")
            (stage_index stages "review")
          ≡ true
        → is_pending (status_of passed.cursor "write") ≡ false)
advance-leaves_nothing_pending_example =
    advance-leaves_nothing_pending (at_stage "plan") stages rework "pass" "" "" distinct
      (started "plan" refl) passed pass_moves (plan_to "plan" "review" "pass" false) "write" refl
      refl refl

advance-redoes_example : status_of rejected.cursor "write" ≡ pending
unfolding index_of sorted
advance-redoes_example =
    advance-redoes reviewed stages rework "reject" "" "too short" distinct (started "review" refl)
      rejected reject_moves (plan_to "review" "plan" "reject" true) "write" refl refl refl

-- A stage that is done before and after a reject.
abbrev rejected_write : DispatchResult
rejected_write = record {
  cursor = record (at_stage "plan") {
    stage_statuses = ("plan", pending) ∷ ("review", done) ∷ ("write", pending) ∷ [];
    blocking_issues = "no";
  };
  plan = some (plan_to "write" "plan" "reject" true);
  finished = false;
  is_blocked = false;
}

abbrev written : WorkflowCursor
written = record (at_stage "write") { stage_statuses = ("plan", done) ∷ ("review", done) ∷ [] }

write_moves : advance written stages rework "reject" "" "no" ≡ ok rejected_write
unfolding advance get put index_of sorted
write_moves = refl

advance-reject_completes_nothing_example : status_of written "review" ≡ done
unfolding get
advance-reject_completes_nothing_example =
    advance-reject_completes_nothing written stages rework "reject" "" "no" distinct
      (started "write" refl) rejected_write write_moves "review" refl refl

advance-reject_goes_back_example :
    (r : DispatchResult) × (advance (at_stage "plan") stages rework "reject" "" "no" ≡ ok r)
    × Returns (at_stage "plan") stages r (stage_index stages "plan")
unfolding resolve_transition_target get
advance-reject_goes_back_example =
    advance-reject_goes_back (at_stage "plan") stages rework "reject" "no" distinct all_named
      (started "plan" refl) refl refl

rework-IsClosed : IsClosed stages rework
unfolding contains get
rework-IsClosed t m =
    Or.elim (hlevel) (mem-cons.0 m) (λ e. rw e)
      (λ m'. Or.elim (hlevel) (mem-cons.0 m') (λ e. rw e) (λ m''. absurd (not-mem-nil m'')))

review_is_a_stage : contains (stage_keys stages) "review" ≡ true
unfolding contains
review_is_a_stage = refl

Reach-IsPlaced_example : IsPlaced stages (block rejected.cursor "waiting").cursor
Reach-IsPlaced_example =
    Reach-IsPlaced stages rework distinct rework-IsClosed {a = reviewed} (inr review_is_a_stage) (
      next (next here (advances reviewed "reject" "" "too short" rejected reject_moves))
        (blocks rejected.cursor "waiting"))

run_passes-Finishes_example :
    (r : DispatchResult) × (run_passes 4 stages (at_stage "plan") ≡ ok (some r))
    × Finishes stages (at_stage "plan") 0 r
unfolding index_of sorted
run_passes-Finishes_example =
    run_passes-Finishes stages distinct all_named 4 (at_stage "plan") 0 refl (omega arith)
