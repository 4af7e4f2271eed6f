-- ===== src/Workflow/Routing/Plan.antt =====
-- What a plan of `resolve_next_stage_key` promises.
use lore_eden.Prelude.{
  ℕ, ◌+◌, String, ◌≡◌, ◌≢◌, refl, ◌⊎◌, inl, inr, true, false, Option, none, some, List, arith, ◌==◌,
  eq_iff, Bool-cases, Option-cases,
}
use lore_eden.Prelude.Index.{contains, Distinct, index_of-get_elem?, contains-eq-index_of}
use lore_eden.Prelude.Result.{ok}
use lore_eden.Workflow.Models.{WorkflowStageDef}
use lore_eden.Workflow.Order.{stage_keys, sorted-Distinct, contains-sorted}
use lore_eden.Workflow.Transitions.{Transition, resolve_transition_target}
use lore_eden.Workflow.Transitions.Sound.{Routes, resolve_transition_target-Routes}
use lore_eden.Workflow.Routing.{
  StageRoutePlan, ordered_keys, stage_index, is_upstream_route, next_stage_key, linear_plan,
  routed_plan, resolve_next_stage_key,
}

-- From a stage that is there, `next_stage_key` returns the key one place further in order, and
-- none from the last stage and from an unknown one.
pub next_stage_key-index :
    (stages : List WorkflowStageDef) (current next : String)
    → current ≢ ""
    → Distinct (stage_keys stages)
    → next_stage_key stages current ≡ some next
    → (i : ℕ) × (stage_index stages current ≡ some i) × (stage_index stages next ≡ some (i + 1))
unfolding next_stage_key
next_stage_key-index stages current next h d e = elim (Option-cases (stage_index stages current)) [
  | inl missing ↦ absurd (ground (arith, eq_iff current ""))
  | inr (i, found) ↦ (
    i,
    found,
    index_of-get_elem? (ordered_keys stages) (i + 1) next (sorted-Distinct stages d)
        (ground (arith, eq_iff current "")),
  )
]

pub contains-stage_index :
    (stages : List WorkflowStageDef) (k : String) {i : ℕ}
    → stage_index stages k ≡ some i
    → contains (stage_keys stages) k ≡ true
contains-stage_index stages k {i} h =
    ground (arith, contains-sorted k stages, contains-eq-index_of k (ordered_keys stages))

-- What a plan promises: it starts at the current stage, its target is not empty and is a stage of
-- the workflow or what a declared transition for this outcome names, and its direction is that of
-- the two stages in order.
pub record Faithful (stages : List WorkflowStageDef) (transitions : List Transition)
    (current outcome : String) (p : StageRoutePlan) : Type 0 where
  pub starts : p.from_key ≡ current
  pub ends : (p.to_key == "") ≡ false
  pub same_outcome : p.outcome ≡ outcome
  pub known :
      (contains (stage_keys stages) p.to_key ≡ true)
      ⊎ Routes transitions current outcome (p.to_key, p.transition_agent_id)
  pub direction : p.upstream ≡ is_upstream_route stages current p.to_key

module _ (stages : List WorkflowStageDef) (transitions : List Transition) (current outcome : String)
    (d : Distinct (stage_keys stages)) (placed : current ≢ "") where
  linear_plan-Faithful :
      (next : Option String) (p : StageRoutePlan)
      → next_stage_key stages current ≡ next
      → linear_plan current outcome next ≡ some p
      → Faithful stages transitions current outcome p
  unfolding is_upstream_route
  linear_plan-Faithful none p e h = cc
  linear_plan-Faithful (some key) p e h =
      let (i, here, after) = next_stage_key-index stages current key placed d e in
      let same : p.to_key ≡ key = ground arith in
      record {
        starts = ground arith;
        ends = ground arith;
        same_outcome = ground arith;
        known = inl (rw same (contains-stage_index stages key after));
        direction = rw same (ground (arith, here, after));
      }

  routed_plan-Faithful :
      (routed : Option (String × String)) (p : StageRoutePlan)
      → resolve_transition_target transitions current outcome ≡ routed
      → routed_plan stages current outcome routed ≡ some p
      → Faithful stages transitions current outcome p
  routed_plan-Faithful none p e h =
      linear_plan-Faithful (next_stage_key stages current) p refl (ground arith)
  routed_plan-Faithful (some (to, agent)) p e h =
      let r = resolve_transition_target-Routes transitions current outcome (to, agent) e in
      let same : p.to_key ≡ to = ground arith in
      let same_agent : p.transition_agent_id ≡ agent = ground arith in
      record {
        starts = ground arith;
        ends = rw same r.named;
        same_outcome = ground arith;
        known = inr (rw (same, same_agent) r);
        direction = ground arith;
      }

  -- When keys are distinct and the item stands on a stage, a plan that `resolve_next_stage_key`
  -- returns, from a requested target, a transition or the linear order, leaves the current stage
  -- with the given outcome; its target is not empty and is a stage of the workflow or what a
  -- declared transition for that outcome names; and its `upstream` flag is the direction of the
  -- target in order.
  pub resolve_next_stage_key-Faithful :
      (explicit_to : String) (p : StageRoutePlan)
      → resolve_next_stage_key stages transitions current outcome explicit_to ≡ ok (some p)
      → Faithful stages transitions current outcome p
  unfolding resolve_next_stage_key
  resolve_next_stage_key-Faithful explicit_to p h = elim (Bool-cases (explicit_to == "")) [
    | inl e ↦
        routed_plan-Faithful (resolve_transition_target transitions current outcome) p refl
          (ground arith)
    | inr e ↦
        let listed : contains (stage_keys stages) explicit_to ≡ true = ground arith in
        let same : p.to_key ≡ explicit_to = ground arith in
        record {
          starts = ground arith;
          ends = rw same e;
          same_outcome = ground arith;
          known = inl (rw same listed);
          direction = ground arith;
        }
  ]
