-- ===== src/Workflow/Dispatch/Rejects.antt =====
-- Where a reject goes that names no target and that no reject edge leaves.
use lore_eden.Prelude.{
  ℕ, zero, suc, Option, List, [], ◌∷◌, arith, ◌∙◌, get_elem?, String, ◌≡◌, ◌≢◌, refl, inl, inr,
  true, false, none, some, ◌==◌, eq_refl, ne→eq_false, Bool-cases,
}
use lore_eden.Prelude.Index.{contains, Distinct, get_elem?-index_of}
use lore_eden.Prelude.Dict.{get-put}
use lore_eden.Prelude.Result.{ok}
use lore_eden.Workflow.Models.{blocked, WorkflowStageDef, reject, outcome_value}
use lore_eden.Workflow.Order.{stage_keys, contains-sorted}
use lore_eden.Workflow.Transitions.{Transition, or_text, resolve_transition_target}
use lore_eden.Workflow.Routing.{stage_index, ordered_keys}
use lore_eden.Workflow.Dispatch.{
  WorkflowCursor, DispatchResult, status_of, no_return_issue, previous_stage_key, before, or_empty,
  advance,
}
use lore_eden.Workflow.Dispatch.Direction.{previous_stage_key-index}

-- The item went back to the stage at the position, as a move upstream.
pub record WentBack (stages : List WorkflowStageDef) (at : ℕ) (r : DispatchResult) : Type 0 where
  pub there : stage_index stages r.cursor.stage_key ≡ some at
  pub open_again : r.is_blocked ≡ false

-- The item stays on its stage, blocked there with a reason.
pub record StaysBlocked (c : WorkflowCursor) (r : DispatchResult) : Type 0 where
  pub same_stage : r.cursor.stage_key ≡ c.stage_key
  pub stage_blocked : status_of r.cursor c.stage_key ≡ blocked
  pub reason : (r.cursor.blocking_issues == "") ≡ false
  pub says_so : r.is_blocked ≡ true
  pub not_finished : r.finished ≡ false

or_text_named : (issues : String) → (or_text issues no_return_issue == "") ≡ false
or_text_named issues = elim (Bool-cases (issues == "")) [
  | inl empty ↦ rw empty refl
  | inr named ↦ rw (named, named) refl
]

-- By the position where the item stood: the first stage has none before it.
abbrev pub Returns : WorkflowCursor → List WorkflowStageDef → DispatchResult → Option ℕ → Type 0
Returns c stages r none = StaysBlocked c r
Returns c stages r (some zero) = StaysBlocked c r
Returns c stages r (some (suc at)) = WentBack stages at r

key_before :
    (keys : List String) (i : ℕ) (k : String)
    → get_elem? keys (suc i) ≡ some k
    → contains keys "" ≡ false
    → (or_empty (get_elem? keys i) == "") ≡ false
unfolding contains
key_before [] i k h named = absurd (ground arith)
key_before (x ∷ keys) zero k h named = ground arith
key_before (x ∷ keys) (suc i) k h named = key_before keys i k h (ground arith)

module _ (c : WorkflowCursor) (stages : List WorkflowStageDef) (transitions : List Transition)
    (outcome issues : String) (d : Distinct (stage_keys stages))
    (all_named : contains (stage_keys stages) "" ≡ false) (placed : c.stage_key ≢ "")
    (rejects : (outcome == outcome_value reject) ≡ true)
    (unrouted : resolve_transition_target transitions c.stage_key outcome ≡ none) where
  nothing_before :
      (o : Option ℕ)
      → stage_index stages c.stage_key ≡ o
      → before (ordered_keys stages) o ≡ ""
      → (previous_stage_key stages c.stage_key == "") ≡ true
  unfolding previous_stage_key
  nothing_before o e empty = rw (e, empty)

  something_before :
      (i : ℕ)
      → stage_index stages c.stage_key ≡ some (suc i)
      → (previous_stage_key stages c.stage_key == "") ≡ false
  unfolding previous_stage_key
  something_before i e = rw e (
      key_before (ordered_keys stages) i c.stage_key
        (get_elem?-index_of c.stage_key (ordered_keys stages) (suc i) e)
        (contains-sorted "" stages ∙ all_named))

  blocks_here :
      (previous_stage_key stages c.stage_key == "") ≡ true
      → (r : DispatchResult) × (advance c stages transitions outcome "" issues ≡ ok r)
        × StaysBlocked c r
  unfolding advance
  blocks_here missing =
      rw (ne→eq_false c.stage_key "" placed, unrouted, rejects, missing)
        (
          _,
          refl,
          record {
            same_stage = refl;
            stage_blocked = simp (get-put, eq_refl);
            reason = or_text_named issues;
            says_so = refl;
            not_finished = refl;
          },
        )

  goes_back :
      (at : ℕ)
      → stage_index stages c.stage_key ≡ some (suc at)
      → (r : DispatchResult) × (advance c stages transitions outcome "" issues ≡ ok r)
        × WentBack stages at r
  unfolding advance
  goes_back at e =
      let named = something_before at e in
      rw (ne→eq_false c.stage_key "" placed, unrouted, rejects, named)
        (
          _,
          refl,
          (let (i, here, there) = previous_stage_key-index stages c.stage_key d named in
              record { there = ground (arith, here, there, e); open_again = refl }),
        )

  -- When the keys of the stages are distinct and not empty and the item has a stage key, a reject
  -- that names no target and that no reject edge routes always returns. From any stage of the
  -- workflow but the first in order it moves the item to the stage just before. From the first, and
  -- from a key that is no stage, it leaves the item there, blocked with a reason.
  pub advance-reject_goes_back :
      (r : DispatchResult) × (advance c stages transitions outcome "" issues ≡ ok r)
      × Returns c stages r (stage_index stages c.stage_key)
  advance-reject_goes_back = by_place (stage_index stages c.stage_key) refl
    where
      by_place :
          (o : Option ℕ)
          → stage_index stages c.stage_key ≡ o
          → (r : DispatchResult) × (advance c stages transitions outcome "" issues ≡ ok r)
            × Returns c stages r o
      by_place none e = blocks_here (nothing_before none e refl)
      by_place (some zero) e = blocks_here (nothing_before (some zero) e refl)
      by_place (some (suc at)) e = goes_back at e
