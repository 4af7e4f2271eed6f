-- ===== src/Workflow/GateService/Examples.antt =====
-- A gate on a stage, answered by a host that keeps one cursor.
use lore_eden.Prelude.{ℕ, String, ◌≡◌, refl, true, false, none, some, List, [], ◌∷◌}
use lore_eden.Prelude.Int.{pos}
use lore_eden.Prelude.Index.{contains}
use lore_eden.Prelude.Dict.{Dict, get}
use lore_eden.Prelude.Result.{ok, raised}
use lore_eden.Workflow.Models.{WorkflowStageDef, awaiting}
use lore_eden.Workflow.Routing.{unknown_target}
use lore_eden.Workflow.Dispatch.{WorkflowCursor, block}
use lore_eden.Workflow.Approvals.{
  Approval, workflow_gate, unanswered, approved, already_resolved, unroutable, save_approval,
}
use lore_eden.Workflow.GateService.{Host, Answer, stale_issue, resolve}
use lore_eden.Workflow.GateService.Answers.{answered, resolve-once}
use lore_eden.Workflow.GateService.Refusals.{resolve-stale, resolve-unroutable}

abbrev host : Host
host = record {
  Json = List String;
  no_input = [];
  State = WorkflowCursor;
  read_cursor = λ s subject_type subject_id. s;
  write_cursor = λ s c. c;
  on_resume = some (λ s c. record c { blocking_issues = "resumed" });
}

abbrev gate : Approval (List String)
gate = record {
  subject_type = "work_item";
  subject_id = "a";
  title = "May it pass?";
  kind = workflow_gate;
  id = "g";
  stage_key = "review";
  level = "medium";
  impact = "";
  checklist = [];
  tool_name = "";
  tool_input = [];
  status = unanswered;
  response = "";
  resolved_by = "";
  created_at = 1;
  resolved_at = none;
}

abbrev store : Dict (Approval (List String))
store = ("g", gate) ∷ []

abbrev at_stage : String → WorkflowCursor
at_stage key = record {
  item_id = "a";
  stage_key = key;
  stage_statuses = (key, awaiting) ∷ [];
  blocking_issues = "";
}

abbrev answer : String → Answer
answer rework = record {
  is_approved = true;
  resolved_by = "reviewer";
  response = " fine ";
  rework_stage_key = rework;
  resume = true;
  now = 5;
}

abbrev stage : String → ℕ → WorkflowStageDef
stage key order = record {
  key = key;
  name = key;
  agent_id = "";
  skill_name = "";
  optional = false;
  order = pos order;
  stage_type = "agent";
  classify_routes = [];
  parallel_agents = [];
  gate_commands = [];
  gate_required = false;
  required_evidence = [];
  terminal = false;
  skip_when = "";
  model = "";
  checklist = [];
  stage_brief = "";
}

abbrev stages : List WorkflowStageDef
stages = stage "build" 1 ∷ stage "review" 2 ∷ stage "ship" 3 ∷ []

resolve-once_example :
    resolve host
      (resolve host (store, at_stage "review") "g" (answer "") stages []).1
      "g"
      (answer "")
      stages
      []
    ≡ (
      raised (already_resolved "g" approved),
      (resolve host (store, at_stage "review") "g" (answer "") stages []).1,
    )
unfolding get
resolve-once_example =
    resolve-once host store (at_stage "review") "g" gate (answer "") (answer "") stages stages [] []
      refl refl

resolve-stale_example : resolve host (store, at_stage "build") "g" (answer "") stages [] ≡ (
  ok (record {
    approval = answered host gate (answer "");
    dispatch = block (at_stage "build") (stale_issue "review" (at_stage "build"));
    resumed = false;
  }),
  (
    save_approval store (answered host gate (answer "")),
    (block (at_stage "build") (stale_issue "review" (at_stage "build"))).cursor,
  ),
)
unfolding get
resolve-stale_example =
    resolve-stale host store (at_stage "build") "g" gate (answer "") stages [] (at_stage "build")
      refl refl refl refl refl

resolve-unroutable_example :
    resolve host (store, at_stage "review") "g" (answer "bild") stages [] ≡ (
      raised (unroutable (unknown_target "bild" "review")),
      (save_approval store (answered host gate (answer "bild")), at_stage "review"),
    )
unfolding get contains
resolve-unroutable_example =
    resolve-unroutable host store (at_stage "review") "g" gate (answer "bild") stages []
      (at_stage "review") refl refl refl refl refl refl refl
