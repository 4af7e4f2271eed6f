-- ===== src/Workflow/Dispatch/Direction.antt =====
-- The plan that `advance` follows: where it comes from, and that its direction is true.
use mathlib.Core.Bool.{false≢true}
use lore_eden.Prelude.{
  ℕ, zero, suc, String, ◌≡◌, ◌≢◌, refl, sym, ap, ◌∙◌, inl, inr, Bool, true, false, Option, none,
  some, List, arith, ◌==◌, get_elem?, Bool-cases, ne→eq_false,
}
use lore_eden.Prelude.Index.{Distinct, index_of-get_elem?}
use lore_eden.Prelude.Result.{Result, ok, raised}
use lore_eden.Workflow.Models.{WorkflowStageDef, reject, outcome_value}
use lore_eden.Workflow.Order.{stage_keys, sorted-Distinct}
use lore_eden.Workflow.Transitions.{Transition}
use lore_eden.Workflow.Routing.{
  StageRoutePlan, RouteError, ordered_keys, stage_index, is_upstream_route, resolve_next_stage_key,
}
use lore_eden.Workflow.Routing.Plan.{resolve_next_stage_key-Faithful}
use lore_eden.Workflow.Dispatch.{
  WorkflowCursor, DispatchResult, previous_stage_key, or_empty, before, or_previous, move, settle,
  apply, advance,
}

or_empty-eq-some : (o : Option String) → (or_empty o == "") ≡ false → o ≡ some (or_empty o)
or_empty-eq-some none h = absurd (false≢true (sym h))
or_empty-eq-some (some k) h = refl

before-index :
    (keys : List String) (o : Option ℕ)
    → (before keys o == "") ≡ false
    → (i : ℕ) × (o ≡ some (suc i)) × (get_elem? keys i ≡ some (before keys o))
before-index keys none h = absurd (false≢true (sym h))
before-index keys (some zero) h = absurd (false≢true (sym h))
before-index keys (some (suc i)) h = (i, refl, or_empty-eq-some (get_elem? keys i) h)

-- The stage before, when there is one, stands one place earlier in order.
pub previous_stage_key-index :
    (stages : List WorkflowStageDef) (k : String)
    → Distinct (stage_keys stages)
    → (previous_stage_key stages k == "") ≡ false
    → (i : ℕ) × (stage_index stages k ≡ some (suc i))
      × (stage_index stages (previous_stage_key stages k) ≡ some i)
unfolding previous_stage_key
previous_stage_key-index stages k d h =
    let (i, e, at) = before-index (ordered_keys stages) (stage_index stages k) h in
    (i, e, index_of-get_elem? (ordered_keys stages) i _ (sorted-Distinct stages d) at)

-- How a successful `advance` from a stage went.
pub advance-eq-ok :
    (c : WorkflowCursor) (stages : List WorkflowStageDef) (transitions : List Transition)
    (outcome explicit_to issues : String) (r : DispatchResult)
    → c.stage_key ≢ ""
    → advance c stages transitions outcome explicit_to issues ≡ ok r
    → (plan : Option StageRoutePlan) × (resolve_next_stage_key stages transitions c.stage_key
          outcome explicit_to
        ≡ ok plan)
      × (move
            (outcome == outcome_value reject)
            (settle (outcome == outcome_value reject) c)
            stages
            issues
            (or_previous
              (outcome == outcome_value reject)
              (previous_stage_key stages c.stage_key)
              c.stage_key
              outcome
              plan)
          ≡ r)
unfolding advance
advance-eq-ok c stages transitions outcome explicit_to issues r h e =
    go (resolve_next_stage_key stages transitions c.stage_key outcome explicit_to) refl
  where
    go :
        (res : Result RouteError (Option StageRoutePlan))
        → resolve_next_stage_key stages transitions c.stage_key outcome explicit_to ≡ res
        → (plan : Option StageRoutePlan) × (resolve_next_stage_key stages transitions c.stage_key
              outcome explicit_to
            ≡ ok plan)
          × (move
                (outcome == outcome_value reject)
                (settle (outcome == outcome_value reject) c)
                stages
                issues
                (or_previous
                  (outcome == outcome_value reject)
                  (previous_stage_key stages c.stage_key)
                  c.stage_key
                  outcome
                  plan)
              ≡ r)
    go (ok plan) found = (plan, found, ground (arith, ne→eq_false c.stage_key "" h))
    go (raised err) found = absurd (ground (arith, ne→eq_false c.stage_key "" h))

pub plan-move :
    (rejected : Bool) (settled : WorkflowCursor) (stages : List WorkflowStageDef) (issues : String)
    (plan : Option StageRoutePlan)
    → (move rejected settled stages issues plan).plan ≡ plan
plan-move rejected settled stages issues (some p) = refl
plan-move true settled stages issues none = refl
plan-move false settled stages issues none = refl

stage_key-move :
    (rejected : Bool) (settled : WorkflowCursor) (stages : List WorkflowStageDef) (issues : String)
    (p : StageRoutePlan)
    → (move rejected settled stages issues (some p)).cursor.stage_key ≡ p.to_key
unfolding apply
stage_key-move rejected settled stages issues p = refl

-- A plan that leaves the given stage and whose flag is the direction of its target in order.
pub record IsTrue (stages : List WorkflowStageDef) (current : String) (p : StageRoutePlan)
    : Type 0 where
  pub starts : p.from_key ≡ current
  pub direction : p.upstream ≡ is_upstream_route stages current p.to_key

module _ (c : WorkflowCursor) (stages : List WorkflowStageDef) (transitions : List Transition)
    (outcome explicit_to issues : String) (d : Distinct (stage_keys stages))
    (placed : c.stage_key ≢ "") where
  fallback-IsTrue :
      (p : StageRoutePlan)
      → (previous_stage_key stages c.stage_key == "") ≡ false
      → or_previous true (previous_stage_key stages c.stage_key) c.stage_key outcome none ≡ some p
      → IsTrue stages c.stage_key p
  unfolding is_upstream_route
  fallback-IsTrue p named e =
      let (i, here, there) = previous_stage_key-index stages c.stage_key d named in
      let same : p.to_key ≡ previous_stage_key stages c.stage_key = ground arith in
      record { starts = ground arith; direction = rw same (ground (arith, here, there)) }

  or_previous-IsTrue :
      (rejected : Bool) (plan : Option StageRoutePlan) (p : StageRoutePlan)
      → resolve_next_stage_key stages transitions c.stage_key outcome explicit_to ≡ ok plan
      → or_previous rejected (previous_stage_key stages c.stage_key) c.stage_key outcome plan
        ≡ some p
      → IsTrue stages c.stage_key p
  or_previous-IsTrue rejected (some q) p found e =
      let f =
        resolve_next_stage_key-Faithful stages transitions c.stage_key outcome d placed explicit_to
          q found in
      let same : p ≡ q = cc in rw same (record { starts = f.starts; direction = f.direction })
  or_previous-IsTrue false none p found e = cc
  or_previous-IsTrue true none p found e =
      elim (Bool-cases (previous_stage_key stages c.stage_key == "")) [
        | inl missing ↦ cc (rw missing at e)
        | inr named ↦ fallback-IsTrue p named e
      ]

  -- When keys are distinct and the item stands on a stage, a plan that `advance` followed leaves
  -- that stage, its `upstream` flag says whether the target lies earlier in the order of stages,
  -- also for the fallback of a reject, and the cursor is then at its target.
  pub advance-IsTrue :
      (r : DispatchResult) (p : StageRoutePlan)
      → advance c stages transitions outcome explicit_to issues ≡ ok r
      → r.plan ≡ some p
      → IsTrue stages c.stage_key p × (r.cursor.stage_key ≡ p.to_key)
  advance-IsTrue r p e followed =
      let rejected = outcome == outcome_value reject in
      let (plan, found, same) =
        advance-eq-ok c stages transitions outcome explicit_to issues r placed e in
      let route =
        or_previous rejected (previous_stage_key stages c.stage_key) c.stage_key outcome plan in
      let taken : route ≡ some p =
        sym (plan-move rejected (settle rejected c) stages issues route)
        ∙ ap (λ (q : DispatchResult). q.plan) same
        ∙ followed in
      (
        or_previous-IsTrue rejected plan p found taken,
        rw (← same, taken) (stage_key-move rejected (settle rejected c) stages issues p),
      )
