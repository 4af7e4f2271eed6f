-- ===== src/Workflow/Dispatch/Pass.antt =====
-- One pass of an item in a workflow without transitions.
use lore_eden.Prelude.{
  ℕ, ◌+◌, ◌≤◌, ◌<◌, String, ◌≡◌, ◌≢◌, refl, ◌⊎◌, inl, inr, true, false, Option, none, some, List,
  [], arith, ◌==◌, eq_iff, ne→eq_false, Bool-cases, if◌then◌else◌, get_elem?, nat_eq,
  get_elem?-none_le,
}
use lore_eden.Prelude.Index.{Distinct, get_elem?-index_of}
use lore_eden.Prelude.Result.{ok}
use lore_eden.Workflow.Models.{WorkflowStageDef, done, pass, outcome_value}
use lore_eden.Workflow.Order.{stage_keys}
use lore_eden.Workflow.Transitions.{resolve_transition_target}
use lore_eden.Workflow.Routing.{
  StageRoutePlan, ordered_keys, stage_index, next_stage_key, resolve_next_stage_key,
}
use lore_eden.Workflow.Routing.Plan.{next_stage_key-index}
use lore_eden.Workflow.Dispatch.{
  WorkflowCursor, DispatchResult, status_of, advance, move, settle, apply,
}
use lore_eden.Workflow.Dispatch.Statuses.{get-advance}

-- The item is finished; every stage from position `i` on that the cursor has left is done, also
-- the last one when it ran off the end; and every stage before `i` has the status that it had.
pub record Finishes (stages : List WorkflowStageDef) (c : WorkflowCursor) (i : ℕ)
    (r : DispatchResult) : Type 0 where
  pub ends : r.finished ≡ true
  pub at : ℕ
  pub stands : stage_index stages r.cursor.stage_key ≡ some at
  pub ahead : i ≤ at
  pub completed :
      (k : String) (j : ℕ)
      → stage_index stages k ≡ some j
      → i ≤ j
      → (j < at) ⊎ (r.plan ≡ none)
      → status_of r.cursor k ≡ done
  pub kept :
      (k : String) (j : ℕ)
      → stage_index stages k ≡ some j
      → j < i
      → status_of r.cursor k ≡ status_of c k

abbrev pub forward_plan : String → String → StageRoutePlan
forward_plan from to = record {
  from_key = from;
  to_key = to;
  outcome = outcome_value pass;
  upstream = false;
  transition_agent_id = "";
}

abbrev pub after_pass :
    List WorkflowStageDef → WorkflowCursor → Option StageRoutePlan → DispatchResult
after_pass stages c plan = move false (settle false c) stages "" plan

abbrev pub stepped : List WorkflowStageDef → WorkflowCursor → String → DispatchResult
stepped stages c to = after_pass stages c (some (forward_plan c.stage_key to))

module _ (stages : List WorkflowStageDef) (c : WorkflowCursor) (placed : c.stage_key ≢ "") where
  pub advance-linear :
      (to : String)
      → next_stage_key stages c.stage_key ≡ some to
      → (to == "") ≡ false
      → advance c stages [] (outcome_value pass) "" ""
        ≡ ok (after_pass stages c (some (forward_plan c.stage_key to)))
  unfolding advance resolve_next_stage_key resolve_transition_target
  advance-linear to e named = ground (arith, ne→eq_false c.stage_key "" placed)

  pub advance-last :
      next_stage_key stages c.stage_key ≡ none
      → advance c stages [] (outcome_value pass) "" "" ≡ ok (after_pass stages c none)
  unfolding advance resolve_next_stage_key resolve_transition_target
  advance-last e = ground (arith, ne→eq_false c.stage_key "" placed)

  -- Stages are told apart by their positions.
  same_position :
      (k : String) (i : ℕ)
      → stage_index stages c.stage_key ≡ some i
      → stage_index stages k ≡ some i
      → c.stage_key ≡ k
  same_position k i e f = ground (
    arith,
    get_elem?-index_of c.stage_key (ordered_keys stages) i e,
    get_elem?-index_of k (ordered_keys stages) i f,
  )

  module _ (d : Distinct (stage_keys stages)) (i : ℕ)
      (here : stage_index stages c.stage_key ≡ some i) where
    same_test :
        (k : String) (j : ℕ) → stage_index stages k ≡ some j → (c.stage_key == k) ≡ nat_eq j i
    same_test k j at = ground (
      arith,
      eq_iff c.stage_key k,
      λ (e : stage_index stages k ≡ some i). same_position k i here e,
    )

    status-pass :
        (plan : Option StageRoutePlan) (k : String) (j : ℕ)
        → advance c stages [] (outcome_value pass) "" "" ≡ ok (after_pass stages c plan)
        → stage_index stages k ≡ some j
        → ((p : StageRoutePlan)
            → plan ≡ some p
            → (p.upstream ≡ false) × (stage_index stages p.to_key ≡ some (i + 1)))
        → status_of (after_pass stages c plan).cursor k
          ≡ (if nat_eq j i then done else status_of c k)
    status-pass none k j e at adjacent =
        rw
          (
            get-advance c stages [] (outcome_value pass) "" "" d placed (after_pass stages c none) e
                k,
            same_test k j at,
          )
          (ground arith)
    status-pass (some p) k j e at adjacent =
        let (forward, to) = adjacent p refl in
        rw
          (
            get-advance c stages [] (outcome_value pass) "" "" d placed
                (after_pass stages c (some p)) e k,
            forward,
            same_test k j at,
            at,
            here,
            to,
          )
          (ground arith)

    at_most_here :
        (k : String) (j : ℕ)
        → next_stage_key stages c.stage_key ≡ none
        → stage_index stages k ≡ some j
        → j ≤ i
    unfolding next_stage_key
    at_most_here k j e at =
        let empty : get_elem? (ordered_keys stages) (i + 1) ≡ none =
          ground (arith, ne→eq_false c.stage_key "" placed, here, e) in
        let filled = get_elem?-index_of k (ordered_keys stages) j at in
        ground (arith, get_elem?-none_le (ordered_keys stages) (i + 1) j empty)

    pub last-Finishes :
        next_stage_key stages c.stage_key ≡ none → Finishes stages c i (after_pass stages c none)
    last-Finishes e =
        let status = λ (k : String) (j : ℕ) (at : stage_index stages k ≡ some j).
          status-pass none k j (advance-last e) at (λ p q. cc) in
        record {
          ends = refl;
          at = i;
          stands = here;
          ahead = omega arith;
          completed = λ k j at ge _. ground (arith, at_most_here k j e at, status k j at);
          kept = λ k j at lt. ground (arith, status k j at);
        }

    pub to_index :
        (to : String)
        → next_stage_key stages c.stage_key ≡ some to
        → stage_index stages to ≡ some (i + 1)
    to_index to e =
        let (i', here', after) = next_stage_key-index stages c.stage_key to placed d e in
        let same : i' ≡ i = ground arith in rw same at after

    module _ (to : String) (e : next_stage_key stages c.stage_key ≡ some to)
        (named : (to == "") ≡ false) where
      status-step :
          (k : String) (j : ℕ)
          → stage_index stages k ≡ some j
          → status_of (stepped stages c to).cursor k ≡ (if nat_eq j i then done else status_of c k)
      status-step k j at =
          status-pass (some (forward_plan c.stage_key to)) k j (advance-linear to e named) at
            (λ p q.
              let same : forward_plan c.stage_key to ≡ p = cc in rw (← same) (refl, to_index to e))

      pub terminal-Finishes :
          (stepped stages c to).finished ≡ true → Finishes stages c i (stepped stages c to)
      unfolding apply
      terminal-Finishes ends = record {
        ends = ends;
        at = i + 1;
        stands = to_index to e;
        ahead = omega arith;
        completed = λ k j at ge before. ground (arith, status-step k j at);
        kept = λ k j at lt. ground (arith, status-step k j at);
      }

      pub later-Finishes :
          (r : DispatchResult)
          → Finishes stages (stepped stages c to).cursor (i + 1) r
          → Finishes stages c i r
      later-Finishes r f = record {
        ends = f.ends;
        at = f.at;
        stands = f.stands;
        ahead = omega (arith, f.ahead);
        completed = λ k j at ge before. elim (Bool-cases (nat_eq j i)) [
          | inl same ↦ ground (arith, status-step k j at, f.kept k j at)
          | inr other ↦ f.completed k j at (ground arith) before
        ];
        kept = λ k j at lt. ground (arith, status-step k j at, f.kept k j at);
      }
