-- ===== src/Workflow/GateService/Answers.antt =====
-- What answering a gate does to the approval and to the item.
use lore_eden.Prelude.{
  String, ◌≡◌, refl, ap, ◌∙◌, inl, inr, Bool, true, false, Option, none, some, List, if◌then◌else◌,
  arith, eq_iff, Bool-cases,
}
use lore_eden.Prelude.Dict.{Dict, get, put, get-put}
use lore_eden.Prelude.Result.{Result, ok, raised}
use lore_eden.Workflow.Models.{WorkflowStageDef}
use lore_eden.Workflow.Transitions.{Transition}
use lore_eden.Workflow.Routing.{RouteError}
use lore_eden.Workflow.Dispatch.{WorkflowCursor, DispatchResult}
use lore_eden.Workflow.Approvals.{
  Approval, ApprovalStatus, approved, rejected, already_resolved, is_unanswered, resolve_approval,
  save_approval,
}
use lore_eden.Workflow.GateService.{Host, Answer, apply_answer, resumed_by, moved_by, resolve}

-- The status of an approval after an answer was tried.
abbrev pub status_after : {Json : Type 0} → Approval Json → Answer → ApprovalStatus
status_after a answer =
    if is_unanswered a then (if answer.is_approved then approved else rejected) else a.status

module _ (host : Host) where
  resumed_by-store :
      (hook : Option (host.State → WorkflowCursor → host.State)) (ready : Bool)
      (a : Approval host.Json) (d : DispatchResult) (store : Dict (Approval host.Json))
      (s : host.State)
      → (resumed_by host hook ready a d (store, s)).1.0 ≡ store
  resumed_by-store none ready a d store s = refl
  resumed_by-store (some hook) false a d store s = refl
  resumed_by-store (some hook) true a d store s = refl

  moved_by-store :
      (answer : Answer) (a : Approval host.Json) (store : Dict (Approval host.Json))
      (s : host.State) (r : Result RouteError DispatchResult)
      → (moved_by host answer a (store, s) r).1.0 ≡ store
  moved_by-store answer a store s (raised e) = refl
  moved_by-store answer a store s (ok d) =
      resumed_by-store host.on_resume _ a d store (host.write_cursor s d.cursor)

  -- An approval that has an answer takes no other.
  resolve-answered :
      (store : Dict (Approval host.Json)) (s : host.State) (id : String) (a : Approval host.Json)
      (answer : Answer) (stages : List WorkflowStageDef) (transitions : List Transition)
      → get store id ≡ some a
      → is_unanswered a ≡ false
      → resolve host (store, s) id answer stages transitions
        ≡ (raised (already_resolved a.id a.status), (store, s))
  unfolding resolve resolve_approval
  resolve-answered store s id a answer stages transitions there closed = rw (there, closed) refl

  -- The approval as an answer leaves it.
  abbrev pub answered : Approval host.Json → Answer → Approval host.Json
  answered a answer = record a {
    status = if answer.is_approved then approved else rejected;
    resolved_by = answer.resolved_by;
    response = answer.response;
    resolved_at = some answer.now;
  }

  -- The item moves after the answer was stored.
  pub resolve-unanswered :
      (store : Dict (Approval host.Json)) (s : host.State) (id : String) (a : Approval host.Json)
      (answer : Answer) (stages : List WorkflowStageDef) (transitions : List Transition)
      → get store id ≡ some a
      → is_unanswered a ≡ true
      → resolve host (store, s) id answer stages transitions
        ≡ moved_by host answer
            (answered a answer)
            (save_approval store (answered a answer), s)
            (apply_answer
              (host.read_cursor s a.subject_type a.subject_id)
              (answered a answer)
              answer
              stages
              transitions)
  unfolding resolve resolve_approval
  resolve-unanswered store s id a answer stages transitions there open_still =
      rw (there, open_still) refl

  is_answered :
      (a : Approval host.Json) (answer : Answer) → is_unanswered (answered a answer) ≡ false
  is_answered a answer = elim (Bool-cases answer.is_approved) [
    | inl given ↦ rw given refl
    | inr denied ↦ rw denied refl
  ]

  stored_answer :
      (store : Dict (Approval host.Json)) (s : host.State) (id : String) (a : Approval host.Json)
      (answer : Answer) (stages : List WorkflowStageDef) (transitions : List Transition)
      → get store id ≡ some a
      → is_unanswered a ≡ true
      → (resolve host (store, s) id answer stages transitions).1.0
        ≡ put store a.id (answered a answer)
  stored_answer store s id a answer stages transitions there waiting =
      ap (λ o. o.1.0) (resolve-unanswered store s id a answer stages transitions there waiting)
      ∙ moved_by-store answer (answered a answer) (put store a.id (answered a answer)) s _

  -- For an approval that is stored under its id: after one call of `resolve`, whether it succeeded
  -- or raised, every other call for it raises that it was resolved already, with the status that
  -- the first answer gave it if it was pending, and changes nothing.
  pub resolve-once :
      (store : Dict (Approval host.Json)) (s : host.State) (id : String) (a : Approval host.Json)
      (answer again : Answer) (stages stages' : List WorkflowStageDef)
      (transitions transitions' : List Transition)
      → get store id ≡ some a
      → a.id ≡ id
      → resolve host
          (resolve host (store, s) id answer stages transitions).1
          id
          again
          stages'
          transitions'
        ≡ (
          raised (already_resolved id (status_after a answer)),
          (resolve host (store, s) id answer stages transitions).1,
        )
  resolve-once store s id a answer again stages stages' transitions transitions' there own =
      elim (Bool-cases (is_unanswered a)) [
        | inr closed ↦
            rw (resolve-answered store s id a answer stages transitions there closed, closed)
              (resolve-answered store s id a again stages' transitions' there closed
                ∙ ap (λ k. (raised (already_resolved k a.status), (store, s))) own)
        | inl waiting ↦
            let left = (resolve host (store, s) id answer stages transitions).1 in
            let status : (answered a answer).status ≡ status_after a answer = rw waiting refl in
            let kept : get left.0 id ≡ some (answered a answer) =
              ap (λ d. get d id)
                (stored_answer store s id a answer stages transitions there waiting)
              ∙ ground (arith, get-put store a.id id (answered a answer), (eq_iff a.id id).1 own) in
            resolve-answered left.0 left.1 id (answered a answer) again stages' transitions' kept
              (is_answered a answer)
            ∙ (λ i. (raised (already_resolved (own i) (status i)), left))
      ]
