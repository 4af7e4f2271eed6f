-- ===== src/Mcp/Responses.antt =====
-- What a server answers to a message (python/lore_eden/mcp/protocol.py).
use lore_eden.Prelude.{
  String, ◌≡◌, ◌≢◌, refl, Bool, true, false, Option, none, some, arith, ◌⊎◌, inl, inr, ◌==◌, eq_iff,
  if◌then◌else◌,
}
use lore_eden.Prelude.Result.{Result, ok, raised}
use lore_eden.Prelude.Json.{
  Json, null, bool, int, float, text, array, object, Fields, no_fields, get_field, truthy_or,
  is_text,
}
use lore_eden.Mcp.Tools.{ToolHost, CallResult}
use lore_eden.Mcp.Protocol.{
  McpFault, no_get, or_null, json_response, McpServer, answer_call, with_params, call_tool,
  handle_request, Reply,
}

-- A result or an error under the request's id.
unfoldable pub IsResponse : Fields → Fields → Type 0
IsResponse request answer =
    (value : Json) × ((answer ≡ json_response (or_null (get_field request "id")) "result" value)
      ⊎ (answer ≡ json_response (or_null (get_field request "id")) "error" value))

abbrev pub is_notification : Fields → Bool
is_notification request = is_text "notifications/initialized" (get_field request "method")

-- What may become of a request: a response, nothing for the notification, an error for a call whose
-- parameters are no object.
pub data Treats (request : Fields) : Result McpFault (Option Fields) → Type 0 where
  responds :
      (answer : Fields)
      → is_notification request ≡ false
      → IsResponse request answer
      → Treats request (ok (some answer))
  keeps_silent : is_notification request ≡ true → Treats request (ok none)
  fails :
      (params : Json)
      → is_text "tools/call" (get_field request "method") ≡ true
      → truthy_or (get_field request "params") (object no_fields) ≡ params
      → ((fields : Fields) → params ≢ object fields)
      → Treats request (raised (no_get params))

distinct_texts :
    (a c : String) (method : Option Json)
    → (a == c) ≡ false
    → is_text a method ≡ true
    → is_text c method ≡ false
distinct_texts a c none ne h = refl
distinct_texts a c (some (text s)) ne h = ground (arith, eq_iff s a, eq_iff s c, eq_iff a c)
distinct_texts a c (some null) ne h = refl
distinct_texts a c (some (bool _)) ne h = refl
distinct_texts a c (some (int _)) ne h = refl
distinct_texts a c (some (float _)) ne h = refl
distinct_texts a c (some (array _)) ne h = refl
distinct_texts a c (some (object _)) ne h = refl

no_notification :
    (a : String) (request : Fields)
    → (a == "notifications/initialized") ≡ false
    → is_text a (get_field request "method") ≡ true
    → is_notification request ≡ false
no_notification a request ne h =
    distinct_texts a "notifications/initialized" (get_field request "method") ne h

module _ (h : ToolHost) (server : McpServer h) where
  gives_result :
      (a : String) (request : Fields) (value : Json)
      → (a == "notifications/initialized") ≡ false
      → is_text a (get_field request "method") ≡ true
      → Treats request (ok (some (json_response (or_null (get_field request "id")) "result" value)))
  unfolding IsResponse
  gives_result a request value ne is_a =
      responds _ (no_notification a request ne is_a) (value, inl refl)

  call-Treats :
      (request : Fields) (r : CallResult h)
      → is_text "tools/call" (get_field request "method") ≡ true
      → Treats request (answer_call h (or_null (get_field request "id")) r).0
  call-Treats request (ok result, w) is_call = gives_result "tools/call" request _ refl is_call
  call-Treats request (raised e, w) is_call = gives_result "tools/call" request _ refl is_call

  params-Treats :
      (request : Fields) (w : h.World) (context : h.Context) (params : Json)
      → is_text "tools/call" (get_field request "method") ≡ true
      → truthy_or (get_field request "params") (object no_fields) ≡ params
      → Treats request (with_params h server (or_null (get_field request "id")) w context params).0
  params-Treats request w context (object params) is_call e = call-Treats request _ is_call
  params-Treats request w context null is_call e = fails null is_call e (λ fields q. ground arith)
  params-Treats request w context (text _) is_call e = fails _ is_call e (λ fields q. ground arith)
  params-Treats request w context (bool _) is_call e = fails _ is_call e (λ fields q. ground arith)
  params-Treats request w context (int _) is_call e = fails _ is_call e (λ fields q. ground arith)
  params-Treats request w context (float _) is_call e = fails _ is_call e (λ fields q. ground arith)
  params-Treats request w context (array _) is_call e = fails _ is_call e (λ fields q. ground arith)

  call_tool-Treats :
      (request : Fields) (w : h.World) (context : h.Context)
      → is_text "tools/call" (get_field request "method") ≡ true
      → Treats request (call_tool h server request (or_null (get_field request "id")) w context).0
  unfolding call_tool
  call_tool-Treats request w context is_call =
      params-Treats request w context (truthy_or (get_field request "params") (object no_fields))
        is_call refl

  either :
      {request : Fields}
      → (b : Bool) (x y : Reply h) → (b ≡ true → Treats request x.0)
      → (b ≡ false → Treats request y.0)
      → Treats request (if b then x else y).0
  either true x y then_so else_so = then_so refl
  either false x y then_so else_so = else_so refl

  -- Every request is answered under its own id, but for the notification, which is not answered,
  -- and a call whose parameters are no object, which raises.
  pub handle_request-Treats :
      (request : Fields) (w : h.World) (context : h.Context)
      → Treats request (handle_request h server request w context).0
  unfolding handle_request IsResponse
  handle_request-Treats request w context =
      either _ _ _ (λ e. gives_result "initialize" request _ refl e)
        (λ _.
          either _ _ _ (λ e. gives_result "tools/list" request _ refl e)
            (λ _.
              either _ _ _ (λ e. call_tool-Treats request w context e)
                (λ _.
                  either _ _ _ (λ e. keeps_silent e)
                    (λ not_silent.
                      either _ _ _ (λ e. gives_result "ping" request _ refl e)
                        (λ _. responds _ not_silent (_, inr refl))))))
