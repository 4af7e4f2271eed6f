-- ===== src/Agents/Bridge/Answers.antt =====
-- What a run of `PermissionBridge` answers and reports (python/lore_eden/agents/bridge.py).
use mathlib.Core.List.{append-nil, append_assoc}
use lore_eden.Prelude.{
  String, ◌≡◌, refl, sym, ap, ◌∙◌, ◌&&◌, ◌||◌, Option, none, some, List, [], ◌∷◌, ◌++◌, arith,
}
use lore_eden.Prelude.Result.{Result, ok, raised}
use lore_eden.Prelude.Json.{Json, Fields}
use lore_eden.Agents.Protocol.{
  StreamFault, ToolPermissionRequest, parse_stream_line, extract_permission_request,
  result_payload_status,
}
use lore_eden.Agents.Process.Loop.{on_lines}
use lore_eden.Agents.Bridge.{
  Wiring, RunState, send_pending, flush, flushed, response_to, answer_request, noted, with_request,
  with_payload, handle,
}
use lore_eden.Agents.Bridge.Requests.{
  messages, requests, rulings, sent, responses, any_result, any_failure, Answered,
}

module _ (b : Wiring) where
  one_sent :
      (pipe : b.Pipe) (message : Json)
      → send_pending b pipe (message ∷ []) ≡ (b.send pipe message).1
  unfolding send_pending
  one_sent pipe message = ground arith

  -- The state after an answer.
  abbrev answered : RunState b → b.Pipe → ToolPermissionRequest → RunState b
  answered s pipe request =
      let (decision, asked) = b.policy.decide s.asked request in
      record s {
        decisions = s.decisions ++ (request, decision) ∷ [];
        proc = some (b.send pipe (response_to b request decision)).1;
        pending_responses = [];
        asked = asked;
      }

  flushed-one :
      (o : Option b.Pipe) (pipe : b.Pipe) (t : RunState b) (message : Json)
      → o ≡ some pipe
      → t.pending_responses ≡ message ∷ []
      → flushed b o t ≡ record t { proc = some (b.send pipe message).1; pending_responses = [] }
  flushed-one o pipe t message has_pipe is_one = ground (arith, one_sent pipe message)

  answer_request-answered :
      (s : RunState b) (pipe : b.Pipe) (request : ToolPermissionRequest)
      → s.proc ≡ some pipe
      → s.pending_responses ≡ []
      → answer_request b s request ≡ answered s pipe request
  unfolding answer_request flush
  answer_request-answered s pipe request has_pipe is_empty =
      flushed-one s.proc pipe _ (response_to b request (b.policy.decide s.asked request).0) has_pipe
        (ap (λ (l : List Json). l ++ response_to b request (b.policy.decide s.asked request).0 ∷ [])
          is_empty)

  saw-noted :
      (s : RunState b) (payload : Fields)
      → (noted b s payload).saw_result ≡ s.saw_result || (result_payload_status payload).0
  unfolding noted
  saw-noted s payload = ground arith

  failure-noted :
      (s : RunState b) (payload : Fields)
      → (noted b s payload).reported_failure
        ≡ s.reported_failure
          || ((result_payload_status payload).0 && (result_payload_status payload).1)
  unfolding noted
  failure-noted s payload = ground arith

  after_quiet :
      (s s' : RunState b) (pipe : b.Pipe) (payload : Fields) (payloads : List Fields)
      → requests b (payload ∷ payloads) ≡ requests b payloads
      → Answered b (noted b s payload) pipe payloads s'
      → Answered b s pipe (payload ∷ payloads) s'
  unfolding noted any_result any_failure
  after_quiet s s' pipe payload payloads same k = record {
    decisions = k.decisions ∙ rw same;
    proc = k.proc ∙ rw same;
    nothing_queued = k.nothing_queued;
    saw_result = ground (arith, k.saw_result, saw-noted s payload);
    reported_failure = ground (arith, k.reported_failure, failure-noted s payload);
  }

  after_request :
      (s s' : RunState b) (pipe : b.Pipe) (request : ToolPermissionRequest) (payload : Fields)
      (payloads : List Fields)
      → requests b (payload ∷ payloads) ≡ request ∷ requests b payloads
      → Answered b
          (answered (noted b s payload) pipe request)
          (b.send pipe (response_to b request (b.policy.decide s.asked request).0)).1
          payloads
          s'
      → Answered b s pipe (payload ∷ payloads) s'
  unfolding noted any_result any_failure rulings sent responses
  after_request s s' pipe request payload payloads more k = record {
    decisions =
        k.decisions
        ∙ append_assoc s.decisions ((request, (b.policy.decide s.asked request).0) ∷ [])
            (rulings b (b.policy.decide s.asked request).1 (requests b payloads))
        ∙ rw more;
    proc = k.proc ∙ rw more;
    nothing_queued = k.nothing_queued;
    saw_result = ground (arith, k.saw_result, saw-noted s payload);
    reported_failure = ground (arith, k.reported_failure, failure-noted s payload);
  }

  abbrev Folds : List String → Type 0
  Folds lines =
      (s s' : RunState b) (pipe : b.Pipe)
      → s.proc ≡ some pipe
      → s.pending_responses ≡ []
      → on_lines (handle b) s lines ≡ ok s'
      → Answered b s pipe (messages b lines) s'

  -- The lines behind a message.
  abbrev then_lines :
      List String → Result StreamFault (RunState b) → Result StreamFault (RunState b)
  then_lines lines (raised e) = raised e
  then_lines lines (ok s) = on_lines (handle b) s lines

  no_request :
      (payload : Fields) (payloads : List Fields)
      → extract_permission_request b.repr payload ≡ ok none
      → requests b (payload ∷ payloads) ≡ requests b payloads
  unfolding requests
  no_request payload payloads h = ground arith

  one_request :
      (payload : Fields) (payloads : List Fields) (request : ToolPermissionRequest)
      → extract_permission_request b.repr payload ≡ ok (some request)
      → requests b (payload ∷ payloads) ≡ request ∷ requests b payloads
  unfolding requests
  one_request payload payloads request h = ground arith

  line_first :
      (lines : List String) (s : RunState b) (line : String)
      → on_lines (handle b) s (line ∷ lines)
        ≡ then_lines lines (with_payload b s (parse_stream_line b.loads line))
  unfolding on_lines handle
  line_first lines s line = ground arith

  by_request :
      (lines : List String)
      → Folds lines
      → (s s' : RunState b) (pipe : b.Pipe) (payload : Fields) → s.proc ≡ some pipe
      → s.pending_responses ≡ []
      → (x : Result StreamFault (Option ToolPermissionRequest))
      → extract_permission_request b.repr payload ≡ x
      → then_lines lines (with_request b (noted b s payload) x) ≡ ok s'
      → Answered b s pipe (payload ∷ messages b lines) s'
  unfolding noted
  by_request lines ih s s' pipe payload has_pipe is_empty (raised e) is_x h = absurd (ground arith)
  by_request lines ih s s' pipe payload has_pipe is_empty (ok none) is_x h =
      after_quiet s s' pipe payload (messages b lines) (no_request payload (messages b lines) is_x)
        (ih _ s' pipe has_pipe is_empty h)
  by_request lines ih s s' pipe payload has_pipe is_empty (ok (some request)) is_x h =
      after_request s s' pipe request payload (messages b lines)
        (one_request payload (messages b lines) request is_x)
        (ih _ s' _ refl refl (
          ap (λ (t : RunState b). on_lines (handle b) t lines)
            (sym (answer_request-answered (noted b s payload) pipe request has_pipe is_empty))
          ∙ h))

  by_payload :
      (lines : List String)
      → Folds lines
      → (s s' : RunState b) (pipe : b.Pipe) → s.proc ≡ some pipe
      → s.pending_responses ≡ []
      → (o : Option Fields) → then_lines lines (with_payload b s o) ≡ ok s'
      → Answered b s pipe
          (elim o [ none ↦ messages b lines | some payload ↦ payload ∷ messages b lines ])
          s'
  by_payload lines ih s s' pipe has_pipe is_empty none h = ih s s' pipe has_pipe is_empty h
  by_payload lines ih s s' pipe has_pipe is_empty (some payload) h =
      by_request lines ih s s' pipe payload has_pipe is_empty
        (extract_permission_request b.repr payload) refl h

  -- Nothing.
  nothing-Answered :
      (s s' : RunState b) (pipe : b.Pipe)
      → s.proc ≡ some pipe
      → s.pending_responses ≡ []
      → s ≡ s'
      → Answered b s pipe [] s'
  unfolding requests rulings responses sent any_result any_failure
  nothing-Answered s s' pipe has_pipe is_empty same = record {
    decisions = ap (λ (t : RunState b). t.decisions) (sym same) ∙ sym (append-nil s.decisions);
    proc = ap (λ (t : RunState b). t.proc) (sym same) ∙ has_pipe;
    nothing_queued = ap (λ (t : RunState b). t.pending_responses) (sym same) ∙ is_empty;
    saw_result = ap (λ (t : RunState b). t.saw_result) (sym same) ∙ ground arith;
    reported_failure = ap (λ (t : RunState b). t.reported_failure) (sym same) ∙ ground arith;
  }

  folds : (lines : List String) → Folds lines
  unfolding on_lines handle messages
  folds [] = λ s s' pipe has_pipe is_empty h.
      nothing-Answered s s' pipe has_pipe is_empty (ground (arith, h))
  folds (line ∷ lines) = λ s s' pipe has_pipe is_empty h.
      by_payload lines (folds lines) s s' pipe has_pipe is_empty (parse_stream_line b.loads line)
        (sym (line_first lines s line) ∙ h)

  -- From a state with an open pipe and nothing queued, lines that the handler takes leave every
  -- permission request in them decided by the policy, in order, and its one answer sent, in order.
  pub on_lines-Answered :
      (lines : List String) (s s' : RunState b) (pipe : b.Pipe)
      → s.proc ≡ some pipe
      → s.pending_responses ≡ []
      → on_lines (handle b) s lines ≡ ok s'
      → Answered b s pipe (messages b lines) s'
  on_lines-Answered lines s s' pipe has_pipe is_empty h = folds lines s s' pipe has_pipe is_empty h
