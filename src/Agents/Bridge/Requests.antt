-- ===== src/Agents/Bridge/Requests.antt =====
-- What the lines of an agent ask and what is to be answered, apart from any run
-- (python/lore_eden/agents/bridge.py).
use lore_eden.Prelude.{String, ◌≡◌, Bool, false, ◌&&◌, ◌||◌, none, some, List, [], ◌∷◌, ◌++◌}
use lore_eden.Prelude.Result.{ok, raised}
use lore_eden.Prelude.Json.{Json, Fields}
use lore_eden.Agents.Protocol.{
  ToolPermissionRequest, parse_stream_line, extract_permission_request, result_payload_status,
}
use lore_eden.Agents.Bridge.{Wiring, Decided, RunState, response_to}

module _ (b : Wiring) where
  -- The messages that the lines are.
  unfoldable pub messages : List String → List Fields
  messages [] = []
  messages (line ∷ lines) = elim (parse_stream_line b.loads line) [
    | none ↦ messages lines
    | some payload ↦ payload ∷ messages lines
  ]

  -- The permission requests in the messages.
  unfoldable pub requests : List Fields → List ToolPermissionRequest
  requests [] = []
  requests (payload ∷ payloads) = elim (extract_permission_request b.repr payload) [
    | raised e ↦ requests payloads
    | ok none ↦ requests payloads
    | ok (some request) ↦ request ∷ requests payloads
  ]

  -- What the policy says to each request in turn.
  unfoldable pub rulings : b.policy.State → List ToolPermissionRequest → List Decided
  rulings asked [] = []
  rulings asked (request ∷ more) =
      let (decision, asked') = b.policy.decide asked request in
      (request, decision) ∷ rulings asked' more

  -- One message after another into the pipe, whatever becomes of it.
  unfoldable pub sent : b.Pipe → List Json → b.Pipe
  sent pipe [] = pipe
  sent pipe (message ∷ more) = sent (b.send pipe message).1 more

  unfoldable pub responses : List Decided → List Json
  responses [] = []
  responses ((request, decision) ∷ more) = response_to b request decision ∷ responses more

  unfoldable pub any_result : List Fields → Bool
  any_result [] = false
  any_result (payload ∷ payloads) = (result_payload_status payload).0 || any_result payloads

  unfoldable pub any_failure : List Fields → Bool
  any_failure [] = false
  any_failure (payload ∷ payloads) =
      let (finished, is_failure) = result_payload_status payload in
      (finished && is_failure) || any_failure payloads

  -- From a state with a pipe and nothing queued: every request is decided in order, and answered in
  -- order.
  pub record Answered (s : RunState b) (pipe : b.Pipe) (payloads : List Fields) (s' : RunState b)
      : Type 0 where
    pub decisions : s'.decisions ≡ s.decisions ++ rulings s.asked (requests payloads)
    pub proc : s'.proc ≡ some (sent pipe (responses (rulings s.asked (requests payloads))))
    pub nothing_queued : s'.pending_responses ≡ []
    pub saw_result : s'.saw_result ≡ s.saw_result || any_result payloads
    pub reported_failure : s'.reported_failure ≡ s.reported_failure || any_failure payloads
