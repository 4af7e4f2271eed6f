-- ===== src/Mcp/Protocol.antt =====
-- python/lore_eden/mcp/protocol.py: JSON-RPC over a tool registry.
use lore_eden.Prelude.{String, true, Option, none, some, [], ◌∷◌, if◌then◌else◌}
use lore_eden.Prelude.Int.{negsuc}
use lore_eden.Prelude.Text.{concat}
use lore_eden.Prelude.Result.{Result, ok, raised}
use lore_eden.Prelude.Json.{
  Json, null, bool, int, text, array, object, Items, no_items, item, Fields, no_fields, field,
  get_field, truthy_or, is_text, str,
}
use lore_eden.Mcp.Tools.{ToolHost, ToolRegistry, definitions_of, call, call_error_text, CallResult}

pub record ServerInfo : Type 0 where
  pub name : String
  pub version : String

-- `as_payload`
abbrev pub info_payload : ServerInfo → Json
info_payload info =
    object (field "name" (text info.name) (field "version" (text info.version) no_fields))

abbrev pub protocol_version : String
protocol_version = "2024-11-05"

-- -32601
abbrev pub method_not_found : Json
method_not_found = int (negsuc 32600)

-- What leaves the handler: an AttributeError for parameters that are no object, a ValueError for a
-- body of another shape.
pub data McpFault : Type 0 where
  no_get : Json → McpFault
  invalid_body : McpFault

-- request.get(key)
abbrev pub or_null : Option Json → Json
or_null none = null
or_null (some v) = v

-- One response, under "result" or "error".
abbrev pub json_response : Json → String → Json → Fields
json_response request_id key value =
    field "jsonrpc" (text "2.0") (field "id" request_id (field key value no_fields))

abbrev pub content : String → Fields → Json
content result more = object (
    field "content"
      (array (
        item (object (field "type" (text "text") (field "text" (text result) no_fields))) no_items))
      more)

module _ (h : ToolHost) where
  pub record McpServer : Type 0 where
    pub server_info : ServerInfo
    pub tools : ToolRegistry h

  abbrev pub Reply : Type 0
  Reply = Result McpFault (Option Fields) × h.World

  abbrev pub answer_call : Json → CallResult h → Reply
  answer_call request_id (ok result, w) =
      (ok (some (json_response request_id "result" (content result no_fields))), w)
  answer_call request_id (raised e, w) = (
    ok (
        some (
          json_response request_id "result"
            (content (call_error_text h e) (field "isError" (bool true) no_fields)))),
    w,
  )

  abbrev pub with_params : McpServer → Json → h.World → h.Context → Json → Reply
  with_params server request_id w context (object params) = answer_call request_id (
      call h server.tools (or_null (get_field params "name")) w context
        (truthy_or (get_field params "arguments") (object no_fields)))
  with_params server request_id w context params = (raised (no_get params), w)

  -- `_call_tool`
  unfoldable pub call_tool : McpServer → Fields → Json → h.World → h.Context → Reply
  call_tool server request request_id w context =
      with_params server request_id w context
        (truthy_or (get_field request "params") (object no_fields))

  abbrev pub initialized : McpServer → Json
  initialized server = object (
      field "protocolVersion" (text protocol_version) (
        field "capabilities" (object (field "tools" (object no_fields) no_fields))
          (field "serverInfo" (info_payload server.server_info) no_fields)))

  abbrev pub no_method : Json → Json
  no_method method = object (
      field "code" method_not_found
        (field "message" (text (concat ("Method not found: " ∷ str h.repr method ∷ []))) no_fields))

  unfoldable pub handle_request : McpServer → Fields → h.World → h.Context → Reply
  handle_request server request w context =
      let method = get_field request "method" in
      let request_id = or_null (get_field request "id") in
      if is_text "initialize" method
      then (ok (some (json_response request_id "result" (initialized server))), w)
      else if is_text "tools/list" method
      then (
        ok (
            some (
              json_response request_id "result"
                (object (field "tools" (definitions_of h server.tools) no_fields)))),
        w,
      )
      else if is_text "tools/call" method
      then call_tool server request request_id w context
      else if is_text "notifications/initialized" method
      then (ok none, w)
      else if is_text "ping" method
      then (ok (some (json_response request_id "result" (object no_fields))), w)
      else (ok (some (json_response request_id "error" (no_method (or_null method)))), w)

  -- Puts a response before those of the rest of a batch.
  abbrev pub before_rest :
      Option Fields → Result McpFault Items × h.World → Result McpFault Items × h.World
  before_rest none rest = rest
  before_rest (some first) (ok responses, w) = (ok (item (object first) responses), w)
  before_rest (some first) (raised e, w) = (raised e, w)

  -- The loop over a batch.
  unfoldable pub handle_batch :
      McpServer → Items → h.World → h.Context → Result McpFault Items × h.World
  handle_batch server no_items w context = (ok no_items, w)
  handle_batch server (item (object request) more) w context =
      let (handled, w') = handle_request server request w context in
      elim handled [
        | raised e ↦ (raised e, w')
        | ok first ↦ before_rest first (handle_batch server more w' context)
      ]
  handle_batch server (item v more) w context = handle_batch server more w context

  abbrev pub batched : Result McpFault Items × h.World → Result McpFault Json × h.World
  batched (ok responses, w) = (ok (array responses), w)
  batched (raised e, w) = (raised e, w)

  -- A notification has an empty body for its answer.
  abbrev pub answer_body : Reply → Result McpFault Json × h.World
  answer_body (ok (some first), w) = (ok (object first), w)
  answer_body (ok none, w) = (ok (object no_fields), w)
  answer_body (raised e, w) = (raised e, w)

  unfoldable pub handle_message :
      McpServer → Json → h.World → h.Context → Result McpFault Json × h.World
  handle_message server (array items) w context = batched (handle_batch server items w context)
  handle_message server (object request) w context =
      answer_body (handle_request server request w context)
  handle_message server body w context = (raised invalid_body, w)
