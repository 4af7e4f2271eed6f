-- ===== src/Workflow/Dispatch/Statuses.antt =====
-- The statuses after `advance`: which stages a move settles, resets, skips and leaves alone.
use mathlib.Core.Option.{get_or}
use lore_eden.Prelude.{
  ℕ, String, ◌≡◌, ◌≢◌, refl, sym, ap, ◌∙◌, inl, inr, Bool, true, false, ◌&&◌, Option, none, some,
  List, arith, ◌==◌, eq_refl, if◌then◌else◌, Bool-cases,
}
use lore_eden.Prelude.Index.{Distinct}
use lore_eden.Prelude.Dict.{Dict, get, get_with, get-put}
use lore_eden.Prelude.Result.{ok}
use lore_eden.Workflow.Models.{
  StageStatus, pending, blocked, done, wont_do, is_pending, WorkflowStageDef, reject, outcome_value,
}
use lore_eden.Workflow.Order.{stage_keys}
use lore_eden.Workflow.Transitions.{Transition}
use lore_eden.Workflow.Routing.{StageRoutePlan, stage_index}
use lore_eden.Workflow.Routing.Moves.{
  is_between, is_inside, get-reset_upstream_stages, get-skip_intermediate_stages,
}
use lore_eden.Workflow.Dispatch.{
  WorkflowCursor, DispatchResult, status_of, previous_stage_key, or_previous, move, settle, apply,
  advance,
}
use lore_eden.Workflow.Dispatch.Direction.{advance-eq-ok, plan-move, advance-IsTrue}

-- The status of stage `k` once the outcome at `from_key` is recorded.
abbrev pub settled_status : Bool → String → Dict StageStatus → String → Option StageStatus
settled_status true from_key m k = get m k
settled_status false from_key m k = if from_key == k then some done else get m k

-- The status of stage `k` after the move, from the positions of the stages in order.
abbrev pub moved_status :
    List WorkflowStageDef
    → Bool
    → String
    → Dict StageStatus
    → Option StageRoutePlan
    → String
    → Option StageStatus
moved_status stages rejected from_key m (some p) k =
    let settled = settled_status rejected from_key m k in
    if p.upstream
    then (if is_between (stage_index stages p.to_key) (stage_index stages k)
          (stage_index stages from_key)
        then some pending
        else settled)
    else (if is_inside (stage_index stages from_key) (stage_index stages k)
            (stage_index stages p.to_key)
          && is_pending (get_or settled pending)
        then some wont_do
        else settled)
moved_status stages true from_key m none k = if from_key == k then some blocked else get m k
moved_status stages false from_key m none k = settled_status false from_key m k

get-settle :
    (rejected : Bool) (c : WorkflowCursor) (k : String)
    → get (settle rejected c).stage_statuses k
      ≡ settled_status rejected c.stage_key c.stage_statuses k
get-settle true c k = refl
get-settle false c k = get-put c.stage_statuses c.stage_key k done

module _ (stages : List WorkflowStageDef) (issues k : String)
    (d : Distinct (stage_keys stages)) where
  get-apply :
      (c : WorkflowCursor) (p : StageRoutePlan)
      → get (apply c stages p issues).stage_statuses k ≡ (
          if p.upstream
          then (if is_between
                (stage_index stages p.to_key)
                (stage_index stages k)
                (stage_index stages p.from_key)
              then some pending
              else get c.stage_statuses k)
          else (if is_inside
                  (stage_index stages p.from_key)
                  (stage_index stages k)
                  (stage_index stages p.to_key)
                && is_pending (get_with c.stage_statuses k pending)
              then some wont_do
              else get c.stage_statuses k))
  unfolding apply
  get-apply c p = elim (Bool-cases p.upstream) [
    | inl e ↦ rw e (get-reset_upstream_stages c.stage_statuses stages p.from_key p.to_key k d)
    | inr e ↦ rw e (get-skip_intermediate_stages c.stage_statuses stages p.from_key p.to_key k d)
  ]

  get-move :
      (rejected : Bool) (c : WorkflowCursor) (plan : Option StageRoutePlan)
      → ((p : StageRoutePlan) → plan ≡ some p → p.from_key ≡ c.stage_key)
      → get (move rejected (settle rejected c) stages issues plan).cursor.stage_statuses k
        ≡ moved_status stages rejected c.stage_key c.stage_statuses plan k
  get-move rejected c (some p) starts =
      rw (get-apply (settle rejected c) p, starts p refl, get-settle rejected c k)
  get-move true c none starts = get-put c.stage_statuses c.stage_key k blocked
  get-move false c none starts = get-settle false c k

-- A stage does not lie strictly between itself and another.
done_here :
    (here to : Option ℕ)
    → get_or (if is_inside here here to && is_pending done then some wont_do else some done) pending
      ≡ done
done_here none to = refl
done_here (some i) none = refl
done_here (some i) (some j) = ground arith

not_pending :
    (settled : Option StageStatus)
    → is_pending (
        get_or
          (if true && is_pending (get_or settled pending) then some wont_do else settled)
          pending)
      ≡ false
not_pending settled = ground arith

module _ (c : WorkflowCursor) (stages : List WorkflowStageDef) (transitions : List Transition)
    (outcome explicit_to issues : String) (d : Distinct (stage_keys stages))
    (placed : c.stage_key ≢ "") (r : DispatchResult)
    (moved : advance c stages transitions outcome explicit_to issues ≡ ok r) where
  -- When keys are distinct and the item has a stage key, the status of every stage after an
  -- `advance` that returns is the one that the outcome and the positions of the stages give. First
  -- an outcome that is no reject makes the stage left done, and a reject leaves it as it was. Then,
  -- on an upstream move, every stage from the target up to the one left is pending; on any other
  -- move every pending stage strictly between is WONT_DO; without a plan a reject blocks the stage.
  -- All else is as before.
  pub get-advance :
      (k : String)
      → get r.cursor.stage_statuses k
        ≡ moved_status stages
            (outcome == outcome_value reject)
            c.stage_key
            c.stage_statuses
            r.plan
            k
  get-advance k =
      let rejected = outcome == outcome_value reject in
      let (plan, found, same) =
        advance-eq-ok c stages transitions outcome explicit_to issues r placed moved in
      let route =
        or_previous rejected (previous_stage_key stages c.stage_key) c.stage_key outcome plan in
      let taken : r.plan ≡ route =
        ap (λ (q : DispatchResult). q.plan) (sym same)
        ∙ plan-move rejected (settle rejected c) stages issues route in
      let starts = λ (p : StageRoutePlan) (e : route ≡ some p).
        (advance-IsTrue c stages transitions outcome explicit_to issues d placed r p moved
          (taken ∙ e)).0.starts in
      ap (λ (q : DispatchResult). get q.cursor.stage_statuses k) (sym same)
      ∙ get-move stages issues k d rejected c route starts
      ∙ ap (λ pl. moved_status stages rejected c.stage_key c.stage_statuses pl k) (sym taken)

  -- When keys are distinct and the item has a stage key, after an outcome that is no reject and
  -- whose move is not upstream the stage left is done and no stage strictly between it and the target is
  -- pending.
  pub advance-leaves_nothing_pending :
      (p : StageRoutePlan) (k : String)
      → (outcome == outcome_value reject) ≡ false
      → r.plan ≡ some p
      → p.upstream ≡ false
      → (status_of r.cursor c.stage_key ≡ done)
        × (is_inside
                (stage_index stages c.stage_key)
                (stage_index stages k)
                (stage_index stages p.to_key)
              ≡ true
            → is_pending (status_of r.cursor k) ≡ false)
  advance-leaves_nothing_pending p k passes plan forward = (
    rw (get-advance c.stage_key, plan, forward, passes, eq_refl)
        (done_here (stage_index stages c.stage_key) (stage_index stages p.to_key)),
    λ inside.
        rw (get-advance k, plan, forward, passes, inside)
          (not_pending (settled_status false c.stage_key c.stage_statuses k)),
  )

  -- After a move to an earlier stage, every stage from the target up to the one left is pending.
  pub advance-redoes :
      (p : StageRoutePlan) (k : String)
      → r.plan ≡ some p
      → p.upstream ≡ true
      → is_between
          (stage_index stages p.to_key)
          (stage_index stages k)
          (stage_index stages c.stage_key)
        ≡ true
      → status_of r.cursor k ≡ pending
  advance-redoes p k plan upstream between = rw (get-advance k, plan, upstream, between)

  -- A reject makes no stage done: what is done afterwards was done before.
  pub advance-reject_completes_nothing :
      (k : String)
      → (outcome == outcome_value reject) ≡ true
      → status_of r.cursor k ≡ done
      → status_of c k ≡ done
  advance-reject_completes_nothing k rejects h = was_done r.plan (rw (get-advance k, rejects) at h)
    where
      was_done :
          (plan : Option StageRoutePlan)
          → get_or (moved_status stages true c.stage_key c.stage_statuses plan k) pending ≡ done
          → get_or (get c.stage_statuses k) pending ≡ done
      was_done none e = ground arith
      was_done (some p) e = ground arith

  -- A stage that `advance` makes done is the one where the item stood.
  pub advance-completes_own :
      (k : String) → status_of r.cursor k ≡ done → status_of c k ≢ done → (c.stage_key == k) ≡ true
  advance-completes_own k h new = elim (Bool-cases (c.stage_key == k)) [
    | inl own ↦ own
    | inr other ↦
        absurd
          (new (was_done other (outcome == outcome_value reject) r.plan (rw (get-advance k) at h)))
  ]
    where
      was_done :
          (c.stage_key == k) ≡ false
          → (rejected : Bool) (plan : Option StageRoutePlan)
          → get_or (moved_status stages rejected c.stage_key c.stage_statuses plan k) pending ≡ done
          → get_or (get c.stage_statuses k) pending ≡ done
      was_done other true none e = ground arith
      was_done other false none e = ground arith
      was_done other true (some p) e = ground arith
      was_done other false (some p) e = ground arith
