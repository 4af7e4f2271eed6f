-- ===== src/Workflow/Approvals.antt =====
-- python/lore_eden/workflow/approvals.py: questions that a run stopped to ask, and their store.
use lore_eden.Prelude.{
  ℕ, String, Bool, true, false, ◌&&◌, ◌||◌, Option, none, some, List, [], ◌∷◌, ◌==◌, leb,
  if◌then◌else◌, select,
}
use lore_eden.Prelude.Dict.{Dict, get, put}
use lore_eden.Prelude.Result.{Result, ok, raised}
use lore_eden.Workflow.Routing.{RouteError}

pub data ApprovalKind : Type 0 where
  workflow_gate tool_permission question : ApprovalKind

pub data ApprovalStatus : Type 0 where
  unanswered approved rejected : ApprovalStatus

-- AUTOMATION
abbrev pub automation : String
automation = "automation"

-- What resolving a gate may raise.
pub data GateError : Type 0 where
  -- ApprovalNotFoundError
  not_found : String → GateError
  -- AlreadyResolvedError
  already_resolved : String → ApprovalStatus → GateError
  -- the ValueError of a route
  unroutable : RouteError → GateError

-- One question. `Json` is what a tool was asked with; the moments are those of the host's clock.
pub record Approval (Json : Type 0) : Type 0 where
  pub subject_type : String
  pub subject_id : String
  pub title : String
  pub kind : ApprovalKind
  pub id : String
  pub stage_key : String
  pub level : String
  pub impact : String
  pub checklist : List String
  pub tool_name : String
  pub tool_input : Json
  pub status : ApprovalStatus
  pub response : String
  pub resolved_by : String
  pub created_at : ℕ
  pub resolved_at : Option ℕ

-- A filter that an empty text leaves open.
abbrev pub is_asked : String → String → Bool
is_asked wanted given = wanted == "" || given == wanted

module _ {Json : Type 0} where
  -- `Approval.pending`
  abbrev pub is_unanswered : Approval Json → Bool
  is_unanswered a = elim a.status [ unanswered ↦ true | _ ↦ false ]

  -- `Approval.resolve`; `now` is the clock's reading.
  unfoldable pub resolve_approval :
      Approval Json → Bool → String → String → ℕ → Result GateError (Approval Json)
  resolve_approval a is_approved resolved_by response now =
      if is_unanswered a
      then ok (record a {
        status = if is_approved then approved else rejected;
        resolved_by = resolved_by;
        response = response;
        resolved_at = some now;
      })
      else raised (already_resolved a.id a.status)

  -- `ApprovalStore.add` and `ApprovalStore.save`
  abbrev pub save_approval : Dict (Approval Json) → Approval Json → Dict (Approval Json)
  save_approval store a = put store a.id a

  abbrev pub found_approval : String → Option (Approval Json) → Result GateError (Approval Json)
  found_approval id none = raised (not_found id)
  found_approval id (some a) = ok a

  -- `ApprovalStore.get`
  abbrev pub get_approval : Dict (Approval Json) → String → Result GateError (Approval Json)
  get_approval store id = found_approval id (get store id)

  -- sorted(found, key=lambda a: a.created_at): a stable sort.
  unfoldable pub insert_approval : Approval Json → List (Approval Json) → List (Approval Json)
  insert_approval a [] = a ∷ []
  insert_approval a (b ∷ found) =
      if leb a.created_at b.created_at then a ∷ b ∷ found else b ∷ insert_approval a found

  unfoldable pub sort_approvals : List (Approval Json) → List (Approval Json)
  sort_approvals [] = []
  sort_approvals (a ∷ found) = insert_approval a (sort_approvals found)

  -- self._by_id.values()
  abbrev pub approvals_of : Dict (Approval Json) → List (Approval Json)
  approvals_of [] = []
  approvals_of ((id, a) ∷ store) = a ∷ approvals_of store

  -- `ApprovalStore.pending`
  unfoldable pub unanswered_for : Dict (Approval Json) → String → String → List (Approval Json)
  unanswered_for store subject_type subject_id = sort_approvals (
      select (λ a. is_asked subject_id a.subject_id)
        (select (λ a. is_asked subject_type a.subject_type)
          (select is_unanswered (approvals_of store))))

  -- `ApprovalStore.for_subject`
  unfoldable pub for_subject : Dict (Approval Json) → String → String → List (Approval Json)
  for_subject store subject_type subject_id = sort_approvals (
      select (λ a. a.subject_type == subject_type && a.subject_id == subject_id)
        (approvals_of store))
