-- ===== src/Workflow/Dispatch/Passes.antt =====
-- A workflow without transitions, passed stage by stage, ends.
use lore_eden.Prelude.{
  ℕ, zero, suc, ◌+◌, ◌≤◌, String, ◌≡◌, inl, inr, false, Option, none, some, List, [], arith, ◌==◌,
  eq_iff, eq_false→ne, Bool-cases, Option-cases, if◌then◌else◌, length, get_elem?_behind,
}
use lore_eden.Prelude.Index.{contains, Distinct, get_elem?-index_of}
use lore_eden.Prelude.Result.{Result, ok, ◌>>=◌}
use lore_eden.Workflow.Models.{WorkflowStageDef, pass, outcome_value}
use lore_eden.Workflow.Order.{stage_keys}
use lore_eden.Workflow.Routing.{RouteError, ordered_keys, stage_index, next_stage_key}
use lore_eden.Workflow.Routing.Plan.{contains-stage_index}
use lore_eden.Workflow.Dispatch.{WorkflowCursor, DispatchResult, advance, apply}
use lore_eden.Workflow.Dispatch.Pass.{
  Finishes, after_pass, stepped, advance-linear, advance-last, to_index, last-Finishes,
  terminal-Finishes, later-Finishes,
}

-- A host that passes every stage until the dispatcher says that the item is finished. The inner
-- `none` means that the given number of passes did not end it.
pub run_passes :
    ℕ → List WorkflowStageDef → WorkflowCursor → Result RouteError (Option DispatchResult)
run_passes zero stages c = ok none
run_passes (suc n) stages c = do
  r ← advance c stages [] (outcome_value pass) "" ""
  let rest = run_passes n stages r.cursor
  if r.finished then ok (some r) else rest

module _ (stages : List WorkflowStageDef) (d : Distinct (stage_keys stages))
    (all_named : contains (stage_keys stages) "" ≡ false) where
  position_is_named : (k : String) (i : ℕ) → stage_index stages k ≡ some i → (k == "") ≡ false
  position_is_named k i at = ground (arith, eq_iff k "", contains-stage_index stages k at)

  run-last :
      (n : ℕ) (c : WorkflowCursor) (i : ℕ)
      → stage_index stages c.stage_key ≡ some i
      → next_stage_key stages c.stage_key ≡ none
      → (r : DispatchResult) × (run_passes (suc n) stages c ≡ ok (some r)) × Finishes stages c i r
  unfolding run_passes
  run-last n c i here e =
      let placed = eq_false→ne c.stage_key "" (position_is_named c.stage_key i here) in
      (
        after_pass stages c none,
        rw (advance-last stages c placed e),
        last-Finishes stages c placed d i here e,
      )

  run-next :
      (n : ℕ) (c : WorkflowCursor) (i : ℕ) (here : stage_index stages c.stage_key ≡ some i)
      (to : String) (e : next_stage_key stages c.stage_key ≡ some to)
      → ((r : DispatchResult) × (run_passes n stages (stepped stages c to).cursor ≡ ok (some r))
          × Finishes stages (stepped stages c to).cursor (i + 1) r)
      → (r : DispatchResult) × (run_passes (suc n) stages c ≡ ok (some r)) × Finishes stages c i r
  unfolding run_passes
  run-next n c i here to e (r, ran, f) =
      let placed = eq_false→ne c.stage_key "" (position_is_named c.stage_key i here) in
      let named = position_is_named to (i + 1) (to_index stages c placed d i here to e) in
      elim (Bool-cases (stepped stages c to).finished) [
        | inl ends ↦ (
          stepped stages c to,
          rw (advance-linear stages c placed to e named, ends),
          terminal-Finishes stages c placed d i here to e named ends,
        )
        | inr more ↦ (
          r,
          rw (advance-linear stages c placed to e named, more) ran,
          later-Finishes stages c placed d i here to e named r f,
        )
      ]

  -- In a workflow with distinct keys, none of them empty, and with no transitions, whether or not
  -- one of its stages is marked as terminal, an item at
  -- position `i` that is passed again and again is finished after at most as many passes as there
  -- are stages from `i` on; then every stage that it left is done, the last one too when it ran off
  -- the end, and the stages before `i` are as they were.
  pub run_passes-Finishes :
      (n : ℕ) (c : WorkflowCursor) (i : ℕ)
      → stage_index stages c.stage_key ≡ some i
      → length (ordered_keys stages) ≤ i + n
      → (r : DispatchResult) × (run_passes n stages c ≡ ok (some r)) × Finishes stages c i r
  unfolding run_passes
  run_passes-Finishes zero c i here enough = absurd (
      ground (
        arith,
        get_elem?-index_of c.stage_key (ordered_keys stages) i here,
        get_elem?_behind (ordered_keys stages) i,
      ))
  run_passes-Finishes (suc n) c i here enough =
      elim (Option-cases (next_stage_key stages c.stage_key)) [
        | inl e ↦ run-last n c i here e
        | inr (to, e) ↦
            let placed = eq_false→ne c.stage_key "" (position_is_named c.stage_key i here) in
            let after = to_index stages c placed d i here to e in
            run-next n c i here to e (
              run_passes-Finishes n (stepped stages c to).cursor (i + 1) (unfold apply in after)
                (omega arith))
      ]
