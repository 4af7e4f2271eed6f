-- ===== src/Agents/Bridge/Denials.antt =====
-- Runs of `PermissionBridge` without a policy of the host's (python/lore_eden/agents/bridge.py and
-- policy.py).
use lore_eden.Prelude.{
  ℕ, String, ◌≡◌, sym, subst, Bool, false, Option, none, some, List, [], ◌∷◌, arith, All,
}
use lore_eden.Prelude.Int.{ℤ}
use lore_eden.Prelude.Result.{ok}
use lore_eden.Prelude.Json.{Json, object, text, get_field}
use lore_eden.Agents.Outcome.{BridgeOutcome}
use lore_eden.Agents.Protocol.{ToolPermissionRequest, build_control_response}
use lore_eden.Agents.Policy.{deny_all}
use lore_eden.Agents.Process.{Tick, ProcessSupervisor}
use lore_eden.Agents.Process.Loop.{heard}
use lore_eden.Agents.Bridge.{Wiring, Decided, runs, response_to, run}
use lore_eden.Agents.Bridge.Requests.{messages, requests, rulings, sent, responses}
use lore_eden.Agents.Bridge.Reports.{Reports, run-Reports}

-- The bridge's default policy.
abbrev pub without_policy : {S : Type 0} → (S → Bool) → Wiring → Wiring
without_policy cancelled b = record b { policy = deny_all cancelled }

abbrev pub IsDenied : Decided → Type 0
IsDenied d = d.1.approved ≡ false

-- The member of a message along a path of keys.
unfoldable pub member : List String → Json → Option Json
member [] v = some v
member (key ∷ path) (object fields) = elim (get_field fields key) [
  | none ↦ none
  | some v ↦ member path v
]
member (key ∷ path) v = none

-- The message on the wire denies that request: it is a control response to its id, and the behavior
-- it tells the agent is "deny".
pub record IsDenialOf (request : ToolPermissionRequest) (message : Json) : Type 0 where
  pub is_response : member ("type" ∷ []) message ≡ some (text "control_response")
  pub to_request : member ("response" ∷ "request_id" ∷ []) message ≡ some (text request.request_id)
  pub says_deny : member ("response" ∷ "response" ∷ "behavior" ∷ []) message ≡ some (text "deny")

-- One denial for each request, in order.
pub data Denies : List ToolPermissionRequest → List Json → Type 0 where
  nothing_asked : Denies [] []
  one_more :
      {request : ToolPermissionRequest} {message : Json} {more : List ToolPermissionRequest}
      {messages_behind : List Json}
      → IsDenialOf request message
      → Denies more messages_behind
      → Denies (request ∷ more) (message ∷ messages_behind)

module _ {S : Type 0} (cancelled : S → Bool) (b : Wiring) where
  -- The run reports what the lines say, and what it wrote to the agent is one denial for each
  -- permission request in the lines that it read.
  pub record Refuses (supervisor : ProcessSupervisor) (started : ℕ) (pipe : b.Pipe) (asked : S)
      (ticks : List Tick) (outcome : BridgeOutcome Decided) : Type 0 where
    pub report : Reports (without_policy cancelled b) supervisor started pipe asked ticks outcome
    pub denials : List Json
    pub denies :
        Denies
          (requests
            (without_policy cancelled b)
            (messages (without_policy cancelled b) (heard report.rounds)))
          denials
    pub written :
        report.end_reading.state.proc ≡ some (sent (without_policy cancelled b) pipe denials)
    pub none_approved : All IsDenied outcome.decisions

  denied :
      (asked : S) (request : ToolPermissionRequest)
      → ((without_policy cancelled b).policy.decide asked request).0.approved ≡ false
  denied asked request = ground arith

  rulings-IsDenied :
      (asked : S) (asks : List ToolPermissionRequest)
      → All IsDenied (rulings (without_policy cancelled b) asked asks)
  unfolding rulings
  rulings-IsDenied asked [] = tt
  rulings-IsDenied asked (request ∷ asks) = (denied asked request, rulings-IsDenied asked asks)

  response-IsDenialOf :
      (asked : S) (request : ToolPermissionRequest)
      → IsDenialOf request (
          response_to
            (without_policy cancelled b)
            request
            ((without_policy cancelled b).policy.decide asked request).0)
  unfolding member build_control_response get_field
  response-IsDenialOf asked request = record {
    is_response = ground arith;
    to_request = ground arith;
    says_deny = ground arith;
  }

  responses-Denies :
      (asked : S) (asks : List ToolPermissionRequest)
      → Denies asks
          (responses (without_policy cancelled b) (rulings (without_policy cancelled b) asked asks))
  unfolding rulings responses
  responses-Denies asked [] = nothing_asked
  responses-Denies asked (request ∷ asks) =
      one_more (response-IsDenialOf asked request) (responses-Denies asked asks)

  -- A run of a bridge that was given no policy, and that returns an outcome, approves nothing
  -- whatever the agent asks: with the lines of the first rounds, which it read, what it writes to
  -- the agent is exactly one control response for each permission request in them, in order, with
  -- the request's id and the behavior "deny"; and no decision in the outcome approves.
  pub run-denies :
      (supervisor : ProcessSupervisor) (started : ℕ) (pipe : b.Pipe) (asked : S)
      → (ticks : List Tick) (returncode : Option ℤ) (stderr : String)
      → (outcome : BridgeOutcome Decided)
      → run
          (without_policy cancelled b)
          supervisor
          started
          pipe
          asked
          (runs ticks returncode stderr)
        ≡ ok (some outcome)
      → Refuses supervisor started pipe asked ticks outcome
  run-denies supervisor started pipe asked ticks returncode stderr outcome h =
      let k =
        run-Reports (without_policy cancelled b) supervisor started pipe asked ticks returncode
          stderr outcome h in
      let asks =
        requests (without_policy cancelled b)
          (messages (without_policy cancelled b) (heard k.rounds)) in
      record {
        report = k;
        denials =
            responses (without_policy cancelled b)
              (rulings (without_policy cancelled b) asked asks);
        denies = responses-Denies asked asks;
        written = k.written;
        none_approved = subst (All IsDenied) (sym k.decisions) (rulings-IsDenied asked asks);
      }
