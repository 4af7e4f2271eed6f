-- ===== src/Workflow/GateService.antt =====
-- python/lore_eden/workflow/gate_service.py: answering a gate, and moving the item that waited.
pub mod Answers
pub mod Refusals
mod Examples
use lore_eden.Prelude.{
  ℕ, String, Bool, true, false, ◌&&◌, ◌||◌, not, Option, none, some, List, [], ◌∷◌, ◌==◌,
  if◌then◌else◌,
}
use lore_eden.Prelude.Dict.{Dict, get, put}
use lore_eden.Prelude.Result.{Result, ok, raised}
use lore_eden.Prelude.Text.{concat}
use lore_eden.Prelude.Strip.{strip}
use lore_eden.Workflow.Models.{WorkflowStageDef, outcome_value, pass, reject, awaiting}
use lore_eden.Workflow.Transitions.{Transition, or_text}
use lore_eden.Workflow.Routing.{RouteError}
use lore_eden.Workflow.Dispatch.{WorkflowCursor, with_status, DispatchResult, advance, block}
use lore_eden.Workflow.Approvals.{
  Approval, GateError, unroutable, automation, unanswered, workflow_gate, resolve_approval,
  save_approval, get_approval,
}

-- What a host supplies: its JSON, where its cursors are, and what resuming does.
pub record Host : Type 1 where
  -- what a tool is asked with, and the empty dict of it
  pub Json : Type 0
  pub no_input : Json
  pub State : Type 0
  pub read_cursor : State → String → String → WorkflowCursor
  pub write_cursor : State → WorkflowCursor → State
  pub on_resume : Option (State → WorkflowCursor → State)

abbrev pub rework_note : String
rework_note = "Approved with rework requested"

abbrev pub reject_note : String
reject_note = "Rejected"

abbrev pub stale_issue : String → WorkflowCursor → String
stale_issue stage_key cursor =
    concat (
      "Gate for '" ∷ stage_key ∷ "' answered while the item was at '" ∷ cursor.stage_key ∷ "'" ∷ [])

abbrev pub rework_issue : String → String → String
rework_issue stage_key note =
    concat ("'" ∷ stage_key ∷ "' gate approved with rework: " ∷ or_text note rework_note ∷ [])

abbrev pub unmoved : WorkflowCursor → DispatchResult
unmoved cursor = record { cursor = cursor; plan = none; finished = false; is_blocked = false }

-- The answer to a gate, as the caller gives it.
pub record Answer : Type 0 where
  pub is_approved : Bool
  pub resolved_by : String
  pub response : String
  pub rework_stage_key : String
  pub resume : Bool
  pub now : ℕ

module _ {Json : Type 0} where
  -- `_apply`
  unfoldable pub apply_answer :
      WorkflowCursor
      → Approval Json
      → Answer
      → List WorkflowStageDef
      → List Transition
      → Result RouteError DispatchResult
  apply_answer cursor approval answer stages transitions =
      let note = strip answer.response in
      if approval.stage_key == ""
      then ok (unmoved cursor)
      else if cursor.stage_key == approval.stage_key
      then (if answer.is_approved && not (answer.rework_stage_key == "")
          then advance cursor stages transitions (outcome_value reject) answer.rework_stage_key
              (rework_issue approval.stage_key note)
          else if answer.is_approved
          then advance cursor stages transitions (outcome_value pass) "" ""
          else advance cursor stages transitions (outcome_value reject) answer.rework_stage_key
              (or_text note reject_note))
      else ok (block cursor (stale_issue approval.stage_key cursor))

pub record GateResolution (Json : Type 0) : Type 0 where
  pub approval : Approval Json
  pub dispatch : DispatchResult
  pub resumed : Bool

-- The arguments of `open_gate`, with the new id and the clock's reading.
pub record GateRequest : Type 0 where
  pub id : String
  pub subject_type : String
  pub subject_id : String
  pub stage_key : String
  pub title : String
  pub checklist : List String
  pub impact : String
  pub level : String
  pub now : ℕ

module _ (host : Host) where
  -- The approvals and the host's cursors.
  abbrev pub Service : Type 0
  Service = Dict (Approval host.Json) × host.State

  abbrev pub Outcome : Type 0
  Outcome = Result GateError (GateResolution host.Json) × Service

  abbrev pub asked_approval : GateRequest → Approval host.Json
  asked_approval r = record {
    subject_type = r.subject_type;
    subject_id = r.subject_id;
    title = r.title;
    kind = workflow_gate;
    id = r.id;
    stage_key = r.stage_key;
    level = r.level;
    impact = r.impact;
    checklist = r.checklist;
    tool_name = "";
    tool_input = host.no_input;
    status = unanswered;
    response = "";
    resolved_by = "";
    created_at = r.now;
    resolved_at = none;
  }

  -- `GateService.open_gate`
  unfoldable pub open_gate : Service → GateRequest → Service
  open_gate (store, s) r =
      let cursor = host.read_cursor s r.subject_type r.subject_id in
      (
        save_approval store (asked_approval r),
        host.write_cursor s (with_status cursor r.stage_key awaiting),
      )

  -- The end of `resolve`: the hook runs if the item is ready to go on.
  abbrev pub resumed_by :
      Option (host.State → WorkflowCursor → host.State)
      → Bool
      → Approval host.Json
      → DispatchResult
      → Service
      → Outcome
  resumed_by none ready approval dispatch service =
      (ok (record { approval = approval; dispatch = dispatch; resumed = false }), service)
  resumed_by (some hook) false approval dispatch service =
      (ok (record { approval = approval; dispatch = dispatch; resumed = false }), service)
  resumed_by (some hook) true approval dispatch (store, s) = (
    ok (record { approval = approval; dispatch = dispatch; resumed = true }),
    (store, hook s dispatch.cursor),
  )

  abbrev pub moved_by :
      Answer → Approval host.Json → Service → Result RouteError DispatchResult → Outcome
  moved_by answer approval service (raised e) = (raised (unroutable e), service)
  moved_by answer approval (store, s) (ok dispatch) =
      resumed_by host.on_resume
        ((answer.is_approved && answer.resume)
          && (not dispatch.is_blocked && not dispatch.finished))
        approval dispatch (store, host.write_cursor s dispatch.cursor)

  -- The approval is answered and saved before the item moves.
  abbrev pub answered_by :
      Answer
      → List WorkflowStageDef
      → List Transition
      → Service
      → Result GateError (Approval host.Json)
      → Outcome
  answered_by answer stages transitions service (raised e) = (raised e, service)
  answered_by answer stages transitions (store, s) (ok approval) =
      let cursor = host.read_cursor s approval.subject_type approval.subject_id in
      moved_by answer approval (save_approval store approval, s)
        (apply_answer cursor approval answer stages transitions)

  abbrev pub looked_up_by :
      Answer
      → List WorkflowStageDef
      → List Transition
      → Service
      → Result GateError (Approval host.Json)
      → Outcome
  looked_up_by answer stages transitions service (raised e) = (raised e, service)
  looked_up_by answer stages transitions service (ok approval) =
      answered_by answer stages transitions service
        (resolve_approval approval answer.is_approved answer.resolved_by answer.response answer.now)

  -- `GateService.resolve`
  unfoldable pub resolve :
      Service → String → Answer → List WorkflowStageDef → List Transition → Outcome
  resolve (store, s) approval_id answer stages transitions =
      looked_up_by answer stages transitions (store, s) (get_approval store approval_id)

  -- `GateService.auto_resolve`
  abbrev pub auto_resolve :
      Service → String → List WorkflowStageDef → List Transition → String → Bool → ℕ → Outcome
  auto_resolve service approval_id stages transitions response resume now =
      resolve service approval_id
        (record {
          is_approved = true;
          resolved_by = automation;
          response = response;
          rework_stage_key = "";
          resume = resume;
          now = now;
        })
        stages transitions
