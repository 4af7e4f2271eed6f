-- ===== src/Workflow/Transitions.antt =====
-- `resolve_transition_target` of python/lore_eden/workflow/state_machine.py, and what it reads of a
-- template's transitions.
pub mod Sound
use mathlib.Core.Option.{get_or}
use lore_eden.Prelude.{
  String, Bool, false, not, Option, none, some, List, [], ◌∷◌, ◌==◌, if◌then◌else◌, select,
}
use lore_eden.Prelude.Dict.{Dict, get, get_with}
use lore_eden.Workflow.Models.{pass, reject, default, outcome_value}

-- One transition: a dict with text keys, and the entry under the key True that YAML 1.1 makes of
-- a bare `on:`.
pub record Transition : Type 0 where
  pub entries : Dict String
  pub true_entry : Option String

-- `x or y` on texts.
abbrev pub or_text : String → String → String
or_text x y = if x == "" then y else x

unfoldable pub transition_when : Transition → String
transition_when item =
    or_text (get_with item.entries "when" "")
      (or_text (get_or item.true_entry "") (get_with item.entries "on" ""))

-- (item.get("to", ""), item.get("agent_id", ""))
abbrev pub target : Transition → String × String
target item = (get_with item.entries "to" "", get_with item.entries "agent_id" "")

-- item.get("from") == from_key
abbrev pub leaves : String → Transition → Bool
leaves from_key item = elim (get item.entries "from") [ none ↦ false | some f ↦ f == from_key ]

-- The inner loop of `pick`.
unfoldable pub pick_when : String → List Transition → Option (String × String)
unfolding transition_when
pick_when when [] = none
pick_when when (item ∷ items) =
    if transition_when item == when then some (target item) else pick_when when items

unfoldable pub pick : List String → List Transition → Option (String × String)
unfolding pick_when
pick [] items = none
pick (when ∷ rest) items =
    let later = pick rest items in
    elim (pick_when when items) [ none ↦ later | some routed ↦ some routed ]

-- `routed if routed and routed[0] else None`
abbrev pub with_target : Option (String × String) → Option (String × String)
with_target none = none
with_target (some (to, agent)) = if to == "" then none else some (to, agent)

-- A list of one transition that has a target.
abbrev pub lone : List Transition → Option (String × String)
lone [] = none
lone (item ∷ []) = with_target (some (target item))
lone (item ∷ other ∷ items) = none

abbrev pub or_else : Option (String × String) → Option (String × String) → Option (String × String)
or_else none later = later
or_else (some routed) later = some routed

abbrev pub pass_values : List String
pass_values = outcome_value pass ∷ outcome_value default ∷ "" ∷ []

abbrev pub is_legacy : Transition → Bool
is_legacy item = transition_when item == ""

abbrev pub is_not_reject : Transition → Bool
is_not_reject item = not (transition_when item == outcome_value reject)

-- The transitions that leave the stage, routed by the outcome.
unfoldable pub route_matches : List Transition → String → Option (String × String)
unfolding pick transition_when
route_matches [] outcome = none
route_matches (item ∷ items) outcome =
    let matches = item ∷ items in
    if outcome == outcome_value reject
    then with_target (pick (outcome_value reject ∷ []) matches)
    else or_else (with_target (pick pass_values matches))
        (or_else (lone (select is_legacy matches)) (lone (select is_not_reject matches)))

unfoldable pub resolve_transition_target :
    List Transition → String → String → Option (String × String)
unfolding route_matches
resolve_transition_target transitions from_key outcome =
    route_matches (select (leaves from_key) transitions) outcome
