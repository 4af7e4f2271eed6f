-- ===== src/Workflow/Dispatch/Reach.antt =====
-- Every state that the dispatcher can reach keeps the item on a stage of the workflow.
use mathlib.Core.List.{Mem}
use lore_eden.Prelude.{
  String, ◌≡◌, ◌≢◌, refl, sym, ap, subst, ◌∙◌, ◌⊎◌, inl, inr, Bool, true, false, Option, none, some,
  List, [], ◌∷◌, arith, ◌==◌, eq_iff, eq_false→ne, Bool-cases,
}
use lore_eden.Prelude.Index.{contains, Distinct}
use lore_eden.Prelude.Result.{ok}
use lore_eden.Workflow.Models.{WorkflowStageDef, reject, outcome_value}
use lore_eden.Workflow.Order.{stage_keys, contains-sorted}
use lore_eden.Workflow.Transitions.{Transition, target}
use lore_eden.Workflow.Transitions.Sound.{Routes}
use lore_eden.Workflow.Routing.{
  StageRoutePlan, ordered_keys, next_stage_key, head?, resolve_next_stage_key,
}
use lore_eden.Workflow.Routing.Plan.{
  Faithful, resolve_next_stage_key-Faithful, contains-stage_index,
}
use lore_eden.Workflow.Dispatch.{
  WorkflowCursor, DispatchResult, start, start_at, block, advance, apply, move, settle, or_previous,
  previous_stage_key,
}
use lore_eden.Workflow.Dispatch.Direction.{advance-eq-ok, previous_stage_key-index}

-- Every transition's target is a stage of the workflow.
abbrev pub IsClosed : List WorkflowStageDef → List Transition → Type 0
IsClosed stages transitions =
    (t : Transition) → Mem t transitions → contains (stage_keys stages) (target t).0 ≡ true

-- The item has not started, or stands on a stage of the workflow.
abbrev pub IsPlaced : List WorkflowStageDef → WorkflowCursor → Type 0
IsPlaced stages c = (c.stage_key ≡ "") ⊎ (contains (stage_keys stages) c.stage_key ≡ true)

-- What a host can do with a cursor: start it, advance it with any outcome and request, or block it.
pub data Step (stages : List WorkflowStageDef) (transitions : List Transition)
    : WorkflowCursor → WorkflowCursor → Type 0 where
  starts : (c : WorkflowCursor) → Step stages transitions c (start c stages).cursor
  advances :
      (c : WorkflowCursor) (outcome explicit_to issues : String) (r : DispatchResult)
      → advance c stages transitions outcome explicit_to issues ≡ ok r
      → Step stages transitions c r.cursor
  blocks :
      (c : WorkflowCursor) (reason : String) → Step stages transitions c (block c reason).cursor

pub data Reach (stages : List WorkflowStageDef) (transitions : List Transition) (c : WorkflowCursor)
    : WorkflowCursor → Type 0 where
  here : Reach stages transitions c c
  next :
      {a b : WorkflowCursor}
      → Reach stages transitions c a
      → Step stages transitions a b
      → Reach stages transitions c b

head-contains : (ks : List String) (k : String) → head? ks ≡ some k → contains ks k ≡ true
unfolding contains
head-contains [] k h = cc
head-contains (j ∷ ks) k h = ground (arith, eq_iff j k)

start-IsPlaced :
    (c : WorkflowCursor) (stages : List WorkflowStageDef)
    → IsPlaced stages c
    → IsPlaced stages (start c stages).cursor
unfolding start next_stage_key
start-IsPlaced c stages h = go (head? (ordered_keys stages)) refl
  where
    go :
        (o : Option String)
        → head? (ordered_keys stages) ≡ o
        → IsPlaced stages (start_at c stages o).cursor
    go none e = h
    go (some k) e = inr (sym (contains-sorted k stages) ∙ head-contains (ordered_keys stages) k e)

module _ (stages : List WorkflowStageDef) (transitions : List Transition)
    (d : Distinct (stage_keys stages)) (closed : IsClosed stages transitions) where
  known_target :
      (current outcome : String) (p : StageRoutePlan)
      → Faithful stages transitions current outcome p
      → contains (stage_keys stages) p.to_key ≡ true
  known_target current outcome p f = go f.known
    where
      go :
          (contains (stage_keys stages) p.to_key ≡ true)
            ⊎ Routes transitions current outcome (p.to_key, p.transition_agent_id)
          → contains (stage_keys stages) p.to_key ≡ true
      go (inl k) = k
      go (inr r) = rw (ap (λ (q : String × String). q.0) r.reached) at (closed r.item r.listed)

  move-IsPlaced :
      (c : WorkflowCursor) (outcome explicit_to issues : String) (rejected : Bool)
      (plan : Option StageRoutePlan)
      → c.stage_key ≢ ""
      → IsPlaced stages c
      → resolve_next_stage_key stages transitions c.stage_key outcome explicit_to ≡ ok plan
      → IsPlaced stages
          (move rejected (settle rejected c) stages issues (
            or_previous rejected
              (previous_stage_key stages c.stage_key)
              c.stage_key
              outcome
              plan)).cursor
  unfolding apply
  move-IsPlaced c outcome explicit_to issues rejected (some p) placed h e = inr (
      known_target c.stage_key outcome p (
        resolve_next_stage_key-Faithful stages transitions c.stage_key outcome d placed explicit_to
          p e))
  move-IsPlaced c outcome explicit_to issues false none placed h e = h
  move-IsPlaced c outcome explicit_to issues true none placed h e =
      elim (Bool-cases (previous_stage_key stages c.stage_key == "")) [
        | inl missing ↦ rw missing h
        | inr named ↦
            let (i, at, there) = previous_stage_key-index stages c.stage_key d named in
            rw named
              (inr (contains-stage_index stages (previous_stage_key stages c.stage_key) there))
      ]

  advance-IsPlaced :
      (c : WorkflowCursor) (outcome explicit_to issues : String) (r : DispatchResult)
      → IsPlaced stages c
      → advance c stages transitions outcome explicit_to issues ≡ ok r
      → IsPlaced stages r.cursor
  unfolding advance
  advance-IsPlaced c outcome explicit_to issues r h e = elim (Bool-cases (c.stage_key == "")) [
    | inl unstarted ↦
        let same : start c stages ≡ r = ground arith in
        subst (λ (q : DispatchResult). IsPlaced stages q.cursor) same (start-IsPlaced c stages h)
    | inr started ↦
        let placed = eq_false→ne c.stage_key "" started in
        let (plan, found, same) =
          advance-eq-ok c stages transitions outcome explicit_to issues r placed e in
        subst (λ (q : DispatchResult). IsPlaced stages q.cursor) same
          (move-IsPlaced c outcome explicit_to issues (outcome == outcome_value reject) plan placed
            h found)
  ]

  Step-IsPlaced :
      {a b : WorkflowCursor} → Step stages transitions a b → IsPlaced stages a → IsPlaced stages b
  unfolding block
  Step-IsPlaced (starts c) h = start-IsPlaced c stages h
  Step-IsPlaced (advances c outcome explicit_to issues r e) h =
      advance-IsPlaced c outcome explicit_to issues r h e
  Step-IsPlaced (blocks c reason) h = h

  -- When keys are distinct and every transition leads to a stage of the workflow, an item that has
  -- not started or stands on a stage does so in every state that starting, advancing and blocking
  -- can reach, whatever the outcomes and requests: the cursor is never parked on a phantom stage.
  pub Reach-IsPlaced :
      {a b : WorkflowCursor} → IsPlaced stages a → Reach stages transitions a b → IsPlaced stages b
  Reach-IsPlaced h here = h
  Reach-IsPlaced h (next r s) = Step-IsPlaced s (Reach-IsPlaced h r)
