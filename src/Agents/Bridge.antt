-- ===== src/Agents/Bridge.antt =====
-- `PermissionBridge` of python/lore_eden/agents/bridge.py: driving one agent run and answering its
-- permission requests.
pub mod Answers
pub mod Denials
pub mod Reports
pub mod Requests
use lore_eden.Prelude.{
  ℕ, String, Bool, true, false, ◌&&◌, Option, none, some, List, [], ◌∷◌, ◌++◌, ◌==◌, if◌then◌else◌,
}
use lore_eden.Prelude.Int.{ℤ}
use lore_eden.Prelude.Result.{Result, ok, raised}
use lore_eden.Prelude.Json.{Json, Fields}
use lore_eden.Agents.Outcome.{ProcessResult, BridgeOutcome}
use lore_eden.Agents.Protocol.{
  StreamFault, ToolPermissionRequest, parse_stream_line, extract_permission_request,
  build_control_response, build_user_message, result_payload_status, session_id_from,
}
use lore_eden.Agents.Policy.{PermissionDecision, PermissionPolicy}
use lore_eden.Agents.Process.{Tick, ProcessSupervisor, Reading, supervise, result_of, not_started}

-- What the bridge is given: JSON, the policy, and the agent's stdin. `send` writes one message and
-- flushes, and says whether it could.
pub record Wiring : Type 1 where
  pub loads : String → Option Json
  pub repr : Json → String
  pub policy : PermissionPolicy
  pub Pipe : Type 0
  pub send : Pipe → Json → Bool × Pipe
  pub denial_default : String

-- What starting the process comes to: an OSError with its text, or the rounds of the read loop, the
-- exit code and the error output.
pub data AgentProcess : Type 0 where
  refuses_to_start : String → AgentProcess
  runs : List Tick → Option ℤ → String → AgentProcess

abbrev pub Decided : Type 0
Decided = ToolPermissionRequest × PermissionDecision

module _ (b : Wiring) where
  -- `_RunState`, with the policy's state; `proc` is the process's stdin.
  pub record RunState : Type 0 where
    pub proc : Option b.Pipe
    pub session_id : String
    pub reported_failure : Bool
    pub saw_result : Bool
    pub pending_responses : List Json
    pub decisions : List Decided
    pub asked : b.policy.State

  -- The loop of `_flush`; what cannot be written is given up with all behind it.
  unfoldable pub send_pending : b.Pipe → List Json → b.Pipe
  send_pending pipe [] = pipe
  send_pending pipe (message ∷ pending) =
      let (is_sent, pipe') = b.send pipe message in
      let rest = send_pending pipe' pending in if is_sent then rest else pipe'

  abbrev pub flushed : Option b.Pipe → RunState → RunState
  flushed none s = s
  flushed (some pipe) s = record s {
    proc = some (send_pending pipe s.pending_responses);
    pending_responses = [];
  }

  -- `_flush`
  unfoldable pub flush : RunState → RunState
  flush s = flushed s.proc s

  abbrev pub response_to : ToolPermissionRequest → PermissionDecision → Json
  response_to request decision =
      build_control_response request.request_id decision.approved decision.message
        decision.updated_input b.denial_default

  -- The answer to a request, queued and flushed.
  unfoldable pub answer_request : RunState → ToolPermissionRequest → RunState
  answer_request s request =
      let (decision, asked) = b.policy.decide s.asked request in
      flush (record s {
        decisions = s.decisions ++ (request, decision) ∷ [];
        pending_responses = s.pending_responses ++ response_to request decision ∷ [];
        asked = asked;
      })

  -- What a message says besides its request.
  unfoldable pub noted : RunState → Fields → RunState
  noted s payload =
      let session = session_id_from b.repr payload in
      let (finished, is_failure) = result_payload_status payload in
      record s {
        session_id = if session == "" then s.session_id else session;
        saw_result = if finished then true else s.saw_result;
        reported_failure = if finished && is_failure then true else s.reported_failure;
      }

  abbrev pub with_request :
      RunState → Result StreamFault (Option ToolPermissionRequest) → Result StreamFault RunState
  with_request s (raised e) = raised e
  with_request s (ok none) = ok s
  with_request s (ok (some request)) = ok (answer_request s request)

  abbrev pub with_payload : RunState → Option Fields → Result StreamFault RunState
  with_payload s none = ok s
  with_payload s (some payload) =
      with_request (noted s payload) (extract_permission_request b.repr payload)

  -- `handle`, without the host's telemetry
  unfoldable pub handle : RunState → String → Result StreamFault RunState
  handle s line = with_payload s (parse_stream_line b.loads line)

  abbrev pub new_state : Option b.Pipe → b.policy.State → RunState
  new_state proc asked = record {
    proc = proc;
    session_id = "";
    reported_failure = false;
    saw_result = false;
    pending_responses = [];
    decisions = [];
    asked = asked;
  }

  abbrev pub bridge_outcome : RunState → Option ProcessResult → Option (BridgeOutcome Decided)
  bridge_outcome s none = none
  bridge_outcome s (some result) = some (record {
    result = result;
    session_id = s.session_id;
    reported_failure = s.reported_failure;
    saw_result = s.saw_result;
    decisions = s.decisions;
  })

  abbrev pub outcome_from :
      Option ℤ
      → String
      → Result StreamFault (Reading RunState)
      → Result StreamFault (Option (BridgeOutcome Decided))
  outcome_from returncode stderr (raised e) = raised e
  outcome_from returncode stderr (ok r) =
      ok (bridge_outcome r.state (result_of handle returncode stderr r))

  abbrev pub run_process :
      ProcessSupervisor
      → ℕ
      → b.Pipe
      → b.policy.State
      → AgentProcess
      → Result StreamFault (Option (BridgeOutcome Decided))
  run_process supervisor started pipe asked (refuses_to_start error) =
      ok (bridge_outcome (new_state none asked) (some (not_started error)))
  run_process supervisor started pipe asked (runs ticks returncode stderr) =
      outcome_from returncode stderr
        (supervise handle supervisor started ticks (new_state (some pipe) asked))

  -- `run`, from the moment when the process is started. What goes to stdin first is in the pipe.
  unfoldable pub run :
      ProcessSupervisor
      → ℕ
      → b.Pipe
      → b.policy.State
      → AgentProcess
      → Result StreamFault (Option (BridgeOutcome Decided))
  run supervisor started pipe asked process = run_process supervisor started pipe asked process

  abbrev pub steered : RunState → String → Option b.Pipe → RunState × Bool
  steered s prompt none = (s, false)
  steered s prompt (some pipe) =
      let (is_sent, pipe') = b.send pipe (build_user_message prompt s.session_id) in
      (record s { proc = some pipe' }, is_sent)

  -- `steer`
  unfoldable pub steer : RunState → String → RunState × Bool
  steer s prompt = steered s prompt s.proc
