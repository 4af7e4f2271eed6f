-- ===== src/Mcp/Batch.antt =====
-- What a server answers to a batch of messages (python/lore_eden/mcp/protocol.py).
use lore_eden.Prelude.{
  ◌≡◌, refl, sym, subst, true, false, Option, none, some, List, [], ◌∷◌, arith, if◌then◌else◌,
}
use lore_eden.Prelude.Result.{Result, ok, raised}
use lore_eden.Prelude.Json.{
  Json, null, bool, int, float, text, array, object, Items, no_items, item, Fields,
}
use lore_eden.Mcp.Tools.{ToolHost}
use lore_eden.Mcp.Protocol.{McpFault, McpServer, handle_batch, handle_message, before_rest, batched}
use lore_eden.Mcp.Responses.{
  IsResponse, is_notification, Treats, responds, keeps_silent, handle_request-Treats,
}

-- The requests of a batch that are to be answered.
unfoldable pub asked : Items → List Fields
asked no_items = []
asked (item (object request) more) =
    let rest = asked more in if is_notification request then rest else request ∷ rest
asked (item v more) = asked more

-- One response for each request, in order.
pub data Answers : List Fields → Items → Type 0 where
  all_answered : Answers [] no_items
  one_answered :
      {request : Fields} {requests : List Fields} {more : Items}
      → (answer : Fields) → IsResponse request answer
      → Answers requests more
      → Answers (request ∷ requests) (item (object answer) more)

module _ (h : ToolHost) (server : McpServer h) (context : h.Context) where
  abbrev BatchAnswers : Items → Type 0
  BatchAnswers items =
      (w w' : h.World) (responses : Items)
      → handle_batch h server items w context ≡ (ok responses, w')
      → Answers (asked items) responses

  asked_request :
      (request : Fields) (more : Items)
      → is_notification request ≡ false
      → asked (item (object request) more) ≡ request ∷ asked more
  unfolding asked
  asked_request request more h = ground arith

  asked_notification :
      (request : Fields) (more : Items)
      → is_notification request ≡ true
      → asked (item (object request) more) ≡ asked more
  unfolding asked
  asked_notification request more h = ground arith

  -- The rest of a batch behind a response.
  by_rest :
      (request answer : Fields) (more responses : Items) (w w' : h.World)
      → BatchAnswers more
      → is_notification request ≡ false
      → IsResponse request answer
      → (y : Result McpFault Items × h.World) → handle_batch h server more w context ≡ y
      → before_rest h (some answer) y ≡ (ok responses, w')
      → Answers (asked (item (object request) more)) responses
  by_rest request answer more responses w w' ih is_asked is_response (raised e, w2) is_y h =
      absurd (ground arith)
  by_rest request answer more responses w w' ih is_asked is_response (ok rest, w2) is_y h =
      subst (λ (l : List Fields). Answers l responses) (sym (asked_request request more is_asked))
        (subst (λ (r : Items). Answers (request ∷ asked more) r) (ground (arith, h))
          (one_answered answer is_response (ih w w2 rest is_y)))

  by_treatment :
      (request : Fields) (more responses : Items) (w w' : h.World)
      → BatchAnswers more
      → (x : Result McpFault (Option Fields)) → Treats request x
      → elim x [
        | raised e ↦ (raised e, w)
        | ok first ↦ before_rest h first (handle_batch h server more w context)
      ]
        ≡ (ok responses, w')
      → Answers (asked (item (object request) more)) responses
  by_treatment request more responses w w' ih (raised e) t q = absurd (ground arith)
  by_treatment request more responses w w' ih (ok none) (keeps_silent is_silent) q =
      subst (λ (l : List Fields). Answers l responses)
        (sym (asked_notification request more is_silent)) (ih w w' responses q)
  by_treatment request more responses w w' ih (ok (some _)) (responds answer is_asked is_response)
        q =
      by_rest request answer more responses w w' ih is_asked is_response
        (handle_batch h server more w context) refl q

  batch-Answers : (items : Items) → BatchAnswers items
  unfolding handle_batch asked
  batch-Answers no_items = λ w w' responses h. subst (Answers []) (ground (arith, h)) all_answered
  batch-Answers (item (object request) more) = λ w w' responses h.
      by_treatment request more responses _ w' (batch-Answers more) _
        (handle_request-Treats _ server request w context) h
  batch-Answers (item null more) = batch-Answers more
  batch-Answers (item (bool _) more) = batch-Answers more
  batch-Answers (item (int _) more) = batch-Answers more
  batch-Answers (item (float _) more) = batch-Answers more
  batch-Answers (item (text _) more) = batch-Answers more
  batch-Answers (item (array _) more) = batch-Answers more

  with_body :
      (items : Items) (body : Json) (w w' : h.World)
      → (y : Result McpFault Items × h.World) → handle_batch h server items w context ≡ y
      → batched h y ≡ (ok body, w')
      → (responses : Items) × (body ≡ array responses) × Answers (asked items) responses
  with_body items body w w' (raised e, w2) is_y q = absurd (ground arith)
  with_body items body w w' (ok responses, w2) is_y q =
      (responses, ground (arith, q), batch-Answers items w w2 responses is_y)

  -- A batch that is answered has one response for each request in it that is not the notification,
  -- in order, each under the id of its request; what is no object has none.
  pub handle_message-Answers :
      (items : Items) (body : Json) (w w' : h.World)
      → handle_message h server (array items) w context ≡ (ok body, w')
      → (responses : Items) × (body ≡ array responses) × Answers (asked items) responses
  unfolding handle_message
  handle_message-Answers items body w w' q =
      with_body items body w w' (handle_batch h server items w context) refl q
