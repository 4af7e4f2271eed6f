-- ===== src/Workflow/GateService/Refusals.antt =====
-- Gates that are answered too late, or with a stage that the workflow does not have.
use lore_eden.Prelude.{
  String, ◌≡◌, refl, ap, ◌∙◌, inl, inr, Bool, true, false, ◌&&◌, not, Option, none, some, List,
  ◌==◌, map, eq_iff, Bool-cases,
}
use lore_eden.Prelude.Index.{contains}
use lore_eden.Prelude.Dict.{Dict, get}
use lore_eden.Prelude.Result.{ok, raised}
use lore_eden.Workflow.Models.{WorkflowStageDef}
use lore_eden.Workflow.Transitions.{Transition}
use lore_eden.Workflow.Routing.{unknown_target, resolve_next_stage_key}
use lore_eden.Workflow.Dispatch.{WorkflowCursor, advance, block}
use lore_eden.Workflow.Approvals.{Approval, unroutable, is_unanswered, save_approval}
use lore_eden.Workflow.GateService.{
  Host, Answer, stale_issue, apply_answer, resumed_by, moved_by, resolve,
}
use lore_eden.Workflow.GateService.Answers.{answered, resolve-unanswered}

module _ (host : Host) where
  -- A gate that is answered while the item stands elsewhere.
  resumed_by-blocked :
      (hook : Option (host.State → WorkflowCursor → host.State)) (asked : Bool)
      (a : Approval host.Json) (c : WorkflowCursor) (issue : String)
      (store : Dict (Approval host.Json)) (s : host.State)
      → resumed_by host hook
          (asked && (not (block c issue).is_blocked && not (block c issue).finished))
          a
          (block c issue)
          (store, s)
        ≡ (ok (record { approval = a; dispatch = block c issue; resumed = false }), (store, s))
  unfolding block
  resumed_by-blocked none asked a c issue store s = refl
  resumed_by-blocked (some hook) true a c issue store s = refl
  resumed_by-blocked (some hook) false a c issue store s = refl

  -- If a pending approval of a stage is answered while the item is at another stage, the answer is
  -- stored, the item is blocked where it stands, and the host is not asked to resume it, whatever
  -- the answer.
  pub resolve-stale :
      (store : Dict (Approval host.Json)) (s : host.State) (id : String) (a : Approval host.Json)
      (answer : Answer) (stages : List WorkflowStageDef) (transitions : List Transition)
      (cursor : WorkflowCursor)
      → get store id ≡ some a
      → is_unanswered a ≡ true
      → host.read_cursor s a.subject_type a.subject_id ≡ cursor
      → (a.stage_key == "") ≡ false
      → (cursor.stage_key == a.stage_key) ≡ false
      → resolve host (store, s) id answer stages transitions ≡ (
        ok (record {
          approval = answered host a answer;
          dispatch = block cursor (stale_issue a.stage_key cursor);
          resumed = false;
        }),
        (
          save_approval store (answered host a answer),
          host.write_cursor s (block cursor (stale_issue a.stage_key cursor)).cursor,
        ),
      )
  unfolding apply_answer
  resolve-stale store s id a answer stages transitions cursor there waiting at gated elsewhere =
      resolve-unanswered host store s id a answer stages transitions there waiting
      ∙ rw (at, gated, elsewhere)
          (resumed_by-blocked host.on_resume (answer.is_approved && answer.resume)
            (answered host a answer) cursor (stale_issue a.stage_key cursor) _ _)

  advance-unknown :
      (c : WorkflowCursor) (stages : List WorkflowStageDef) (transitions : List Transition)
      (outcome to_key issues : String)
      → (c.stage_key == "") ≡ false
      → (to_key == "") ≡ false
      → contains (map (λ d. d.key) stages) to_key ≡ false
      → advance c stages transitions outcome to_key issues
        ≡ raised (unknown_target to_key c.stage_key)
  unfolding advance resolve_next_stage_key
  advance-unknown c stages transitions outcome to_key issues placed named unknown =
      rw (placed, named, unknown) refl

  apply_answer-unknown :
      (cursor : WorkflowCursor) (a : Approval host.Json) (answer : Answer)
      (stages : List WorkflowStageDef) (transitions : List Transition)
      → (a.stage_key == "") ≡ false
      → cursor.stage_key ≡ a.stage_key
      → (answer.rework_stage_key == "") ≡ false
      → contains (map (λ d. d.key) stages) answer.rework_stage_key ≡ false
      → apply_answer cursor a answer stages transitions
        ≡ raised (unknown_target answer.rework_stage_key cursor.stage_key)
  unfolding apply_answer
  apply_answer-unknown cursor a answer stages transitions gated here named unknown =
      let placed : (cursor.stage_key == "") ≡ false = ap (λ k. k == "") here ∙ gated in
      let same : (cursor.stage_key == a.stage_key) ≡ true = (eq_iff _ _).1 here in
      elim (Bool-cases answer.is_approved) [
        | inl given ↦
            rw (gated, same, given, named)
              (advance-unknown cursor stages transitions _ answer.rework_stage_key _ placed named
                unknown)
        | inr denied ↦
            rw (gated, same, denied)
              (advance-unknown cursor stages transitions _ answer.rework_stage_key _ placed named
                unknown)
      ]

  -- If a pending approval of the stage where the item stands is answered with a stage for rework
  -- that the workflow does not have, `resolve` raises, but the answer is stored all the same and
  -- the item is not moved.
  pub resolve-unroutable :
      (store : Dict (Approval host.Json)) (s : host.State) (id : String) (a : Approval host.Json)
      (answer : Answer) (stages : List WorkflowStageDef) (transitions : List Transition)
      (cursor : WorkflowCursor)
      → get store id ≡ some a
      → is_unanswered a ≡ true
      → host.read_cursor s a.subject_type a.subject_id ≡ cursor
      → (a.stage_key == "") ≡ false
      → cursor.stage_key ≡ a.stage_key
      → (answer.rework_stage_key == "") ≡ false
      → contains (map (λ d. d.key) stages) answer.rework_stage_key ≡ false
      → resolve host (store, s) id answer stages transitions ≡ (
        raised (unroutable (unknown_target answer.rework_stage_key a.stage_key)),
        (save_approval store (answered host a answer), s),
      )
  unfolding apply_answer
  resolve-unroutable store s id a answer stages transitions cursor there waiting at gated here named
        unknown =
      resolve-unanswered host store s id a answer stages transitions there waiting
      ∙ rw at (
          ap
            (moved_by host answer (answered host a answer)
              (save_approval store (answered host a answer), s))
            refused)
    where
      refused :
          apply_answer cursor (answered host a answer) answer stages transitions
          ≡ raised (unknown_target answer.rework_stage_key a.stage_key)
      refused =
          apply_answer-unknown cursor (answered host a answer) answer stages transitions gated here
            named unknown
          ∙ ap (λ k. raised (unknown_target answer.rework_stage_key k)) here
