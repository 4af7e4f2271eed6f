-- ===== src/Agents/Examples.antt =====
-- Runs of the functions of python/lore_eden/agents.
use lore_eden.Prelude.{
  ℕ, ◌+◌, ◌*◌, String, All, ◌≡◌, refl, true, false, Option, none, some, List, [], ◌∷◌, ◌++◌, ◌==◌,
  if◌then◌else◌,
}
use lore_eden.Prelude.Int.{pos}
use lore_eden.Prelude.Text.{concat, join}
use lore_eden.Prelude.Strip.{strip, reverse_onto, drop_spaces}
use lore_eden.Prelude.Index.{contains}
use lore_eden.Prelude.Json.{Json, object, field, text, no_fields, get_field, is_truthy, str}
use lore_eden.Agents.Protocol.{
  ToolPermissionRequest, object_of, build_control_response, parse_stream_line,
  extract_permission_request, is_among, session_id_from, result_payload_status,
}
use lore_eden.Agents.Policy.{decision}
use lore_eden.Agents.Process.{Tick, ProcessSupervisor, waits, supervise, read_loop}
use lore_eden.Agents.Process.Loop.{on_lines, IsOpen, supervise-IsOpen}
use lore_eden.Agents.Bridge.{
  Wiring, RunState, Decided, handle, new_state, noted, answer_request, flush, send_pending, run,
}
use lore_eden.Agents.Bridge.Denials.{Refuses, run-denies}
use lore_eden.Agents.Bridge.Reports.{Reports, run-Reports}
use lore_eden.Agents.Outcome.{BridgeOutcome, not_timed_out}
use lore_eden.Agents.Bridge.Requests.{messages, Answered}
use lore_eden.Agents.Bridge.Answers.{on_lines-Answered}
use lore_eden.Agents.Invocation.{apply_cursor_effort, ends_with}
use lore_eden.Agents.Invocation.Bridged.{apply_cursor_effort_idem}

carries : apply_cursor_effort "sonnet-4.5" "high" ≡ "sonnet-4.5-high"
unfolding apply_cursor_effort ends_with concat
carries = refl

apply_cursor_effort_idem_example :
    apply_cursor_effort (apply_cursor_effort "sonnet-4.5" "high") "high"
    ≡ apply_cursor_effort "sonnet-4.5" "high"
apply_cursor_effort_idem_example = apply_cursor_effort_idem "sonnet-4.5" "high"

-- A request, and the end of the run.
abbrev asks : Json
asks = object (
    field "type" (text "control_request") (
      field "request_id" (text "r1")
        (field "request" (object (field "subtype" (text "can_use_tool") no_fields)) no_fields)))

abbrev ends_well : Json
ends_well = object (field "type" (text "result") no_fields)

abbrev loads : String → Option Json
loads line = if line == "ask" then some asks else if line == "done" then some ends_well else none

abbrev bridge : Wiring
bridge = record {
  loads = loads;
  repr = λ v. "";
  policy = record { State = ℕ; decide = λ n request. (decision true "", n + 1) };
  Pipe = List Json;
  send = λ pipe message. (true, pipe ++ message ∷ []);
  denial_default = "Denied";
}

abbrev tick : String → Tick
tick line = record { got = some line; handled_at = 1; now = 1; is_cancelled = false }

abbrev rounds : List Tick
rounds = tick "ask" ∷ tick "" ∷ tick "done" ∷ record (tick "") { got = none } ∷ []

abbrev supervisor : ProcessSupervisor
supervisor = record { idle_timeout = 300; hard_cap_multiplier = λ budget. budget * 6 }

abbrev first_state : RunState bridge
first_state = new_state bridge (some []) 0

abbrev request : ToolPermissionRequest
request = record {
  request_id = "r1";
  tool_name = "tool";
  tool_input = object no_fields;
  raw = elim (object_of (some asks)) [ none ↦ no_fields | some payload ↦ payload ];
}

abbrev last_state : RunState bridge
last_state = record first_state {
  proc = some (build_control_response "r1" true "" none "Denied" ∷ []);
  saw_result = true;
  decisions = (request, decision true "") ∷ [];
  asked = 1;
}

on_lines-Answered_example :
    Answered bridge first_state [] (messages bridge ("ask" ∷ "done" ∷ [])) last_state
unfolding on_lines handle parse_stream_line strip reverse_onto drop_spaces
    extract_permission_request is_among get_field contains is_truthy noted answer_request
    session_id_from result_payload_status flush send_pending str
on_lines-Answered_example =
    on_lines-Answered bridge ("ask" ∷ "done" ∷ []) first_state last_state [] refl refl refl

abbrev outcome : BridgeOutcome Decided
outcome = record {
  result = record {
    returncode = some (pos 0);
    stdout = "askdone";
    stderr = "";
    timed_out = not_timed_out;
    cancelled = false;
  };
  session_id = "";
  reported_failure = false;
  saw_result = true;
  decisions = last_state.decisions;
}

run-Reports_example : Reports bridge supervisor 0 [] 0 rounds outcome
unfolding run supervise read_loop handle parse_stream_line strip reverse_onto drop_spaces
    extract_permission_request is_among get_field contains is_truthy noted answer_request
    session_id_from result_payload_status flush send_pending str join
run-Reports_example = run-Reports bridge supervisor 0 [] 0 rounds (some (pos 0)) "" outcome refl

supervise-IsOpen_example :
    All (IsOpen {S = RunState bridge} (handle bridge) 300 1800) (tick "" ∷ [])
unfolding supervise read_loop
supervise-IsOpen_example =
    supervise-IsOpen (handle bridge) supervisor 0 (tick "" ∷ []) first_state
      (record { stop = waits; collected = []; state = first_state }) refl refl

abbrev denied : BridgeOutcome Decided
denied = record outcome {
  decisions = (request, decision false "No permission policy configured") ∷ [];
}

run-denies_example : Refuses (λ (n : ℕ). false) bridge supervisor 0 [] 0 rounds denied
unfolding run supervise read_loop handle parse_stream_line strip reverse_onto drop_spaces
    extract_permission_request is_among get_field contains is_truthy noted answer_request
    session_id_from result_payload_status flush send_pending str join
run-denies_example =
    run-denies (λ (n : ℕ). false) bridge supervisor 0 [] 0 rounds (some (pos 0)) "" denied refl
