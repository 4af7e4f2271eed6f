-- ===== src/Workflow/Models.antt =====
-- python/lore_eden/workflow/models.py: the vocabulary a workflow is described in.
use lore_eden.Prelude.{
  String, Bool, true, false, Option, none, some, List, [], ◌∷◌, if◌then◌else◌, ◌==◌,
}
use lore_eden.Prelude.Int.{ℤ, leb_ℤ}

pub data StageStatus : Type 0 where
  pending running blocked awaiting done wont_do : StageStatus

pub data StageOutcome : Type 0 where
  pass reject default : StageOutcome

pub data GateOutcome : Type 0 where
  passed failed skipped disabled unavailable : GateOutcome

-- Members of a `(str, Enum)` compare equal to these texts.
abbrev pub outcome_value : StageOutcome → String
outcome_value pass = "pass"
outcome_value reject = "reject"
outcome_value default = "default"

abbrev pub status_value : StageStatus → String
status_value pending = "pending"
status_value running = "running"
status_value blocked = "blocked"
status_value awaiting = "awaiting"
status_value done = "done"
status_value wont_do = "wont_do"

-- `StageStatus(raw)`, with `none` for the ValueError.
unfoldable pub status_of_value : String → Option StageStatus
status_of_value raw =
    if raw == "pending"
    then some pending
    else if raw == "running"
    then some running
    else if raw == "blocked"
    then some blocked
    else if raw == "awaiting"
    then some awaiting
    else if raw == "done"
    then some done
    else if raw == "wont_do"
    then some wont_do
    else none

-- status == StageStatus.PENDING
abbrev pub is_pending : StageStatus → Bool
is_pending pending = true
is_pending _ = false

pub record ClassifyRoute : Type 0 where
  pub languages : List String
  pub specialties : List String
  pub agent_id : String
  pub skill_name : String
  pub default : Bool
  pub to_stage : String

pub record ParallelAgentSpec : Type 0 where
  pub agent_id : String
  pub skill_name : String

pub record WorkflowStageDef : Type 0 where
  pub key : String
  pub name : String
  pub agent_id : String
  pub skill_name : String
  pub optional : Bool
  pub order : ℤ
  pub stage_type : String
  pub classify_routes : List ClassifyRoute
  pub parallel_agents : List ParallelAgentSpec
  pub gate_commands : List String
  pub gate_required : Bool
  pub required_evidence : List String
  pub terminal : Bool
  pub skip_when : String
  pub model : String
  pub checklist : List String
  pub stage_brief : String

-- `sorted(stages, key=lambda s: s.order)`: a stable sort.
unfoldable pub insert_stage : WorkflowStageDef → List WorkflowStageDef → List WorkflowStageDef
insert_stage s [] = s ∷ []
insert_stage s (t ∷ ts) = if leb_ℤ s.order t.order then s ∷ t ∷ ts else t ∷ insert_stage s ts

unfoldable pub sorted : List WorkflowStageDef → List WorkflowStageDef
unfolding insert_stage
sorted [] = []
sorted (s ∷ ss) = insert_stage s (sorted ss)
