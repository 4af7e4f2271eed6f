-- ===== src/Agents/Protocol.antt =====
-- python/lore_eden/agents/protocol.py: the stream-json wire format that a CLI agent speaks.
use lore_eden.Prelude.{
  String, Bool, true, false, ◌||◌, Option, none, some, List, [], ◌∷◌, ◌==◌, if◌then◌else◌,
}
use lore_eden.Prelude.Result.{Result, ok, raised}
use lore_eden.Prelude.Strip.{strip}
use lore_eden.Prelude.Index.{contains}
use lore_eden.Prelude.Json.{
  Json, null, text, array, object, Fields, no_fields, field, get_field, is_truthy, truthy_or,
  is_text, str,
}

-- What a message of another shape raises: TypeError for a type that has no hash, AttributeError for
-- a request that is no object.
pub data StreamFault : Type 0 where
  unhashable : Json → StreamFault
  no_get : Json → StreamFault

pub record ToolPermissionRequest : Type 0 where
  pub request_id : String
  pub tool_name : String
  pub tool_input : Json
  pub raw : Fields

abbrev pub object_of : Option Json → Option Fields
object_of (some (object fields)) = some fields
object_of _ = none

-- `loads` is `json.loads`, with `none` for the JSONDecodeError.
unfoldable pub parse_stream_line : (String → Option Json) → String → Option Fields
parse_stream_line loads line = if strip line == "" then none else object_of (loads (strip line))

-- `fields.get(key, "") in names`
unfoldable pub is_among : List String → Option Json → Result StreamFault Bool
is_among names none = ok (contains names "")
is_among names (some (text s)) = ok (contains names s)
is_among names (some (array items)) = raised (unhashable (array items))
is_among names (some (object fields)) = raised (unhashable (object fields))
is_among names (some v) = ok false

abbrev pub control_request_types : List String
control_request_types = "control_request" ∷ "sdk_control_request" ∷ []

abbrev pub permission_subtypes : List String
permission_subtypes = "permission" ∷ "can_use_tool" ∷ []

module _ (repr : Json → String) where
  abbrev pub permission_request : Fields → Fields → ToolPermissionRequest
  permission_request payload request = record {
    request_id = str repr (
        truthy_or (get_field payload "request_id") (
          truthy_or (get_field request "request_id")
            (truthy_or (get_field request "id") (text ""))));
    tool_name = str repr (
        truthy_or (get_field request "tool_name")
          (truthy_or (get_field request "tool") (text "tool")));
    tool_input =
        truthy_or (get_field request "tool_input")
          (truthy_or (get_field request "input") (object no_fields));
    raw = payload;
  }

  abbrev pub if_permission :
      Fields → Fields → Result StreamFault Bool → Result StreamFault (Option ToolPermissionRequest)
  if_permission payload request (raised e) = raised e
  if_permission payload request (ok false) = ok none
  if_permission payload request (ok true) = ok (some (permission_request payload request))

  -- `request.get` of what the message holds under "request"
  abbrev pub from_request : Fields → Json → Result StreamFault (Option ToolPermissionRequest)
  from_request payload (object request) =
      if_permission payload request (is_among permission_subtypes (get_field request "subtype"))
  from_request payload v = raised (no_get v)

  abbrev pub if_control :
      Fields → Result StreamFault Bool → Result StreamFault (Option ToolPermissionRequest)
  if_control payload (raised e) = raised e
  if_control payload (ok false) = ok none
  if_control payload (ok true) =
      from_request payload (truthy_or (get_field payload "request") (object no_fields))

  unfoldable pub extract_permission_request :
      Fields → Result StreamFault (Option ToolPermissionRequest)
  extract_permission_request payload =
      if_control payload (is_among control_request_types (get_field payload "type"))

  unfoldable pub session_id_from : Fields → String
  session_id_from payload =
      if is_text "system" (get_field payload "type")
      then (if is_text "init" (get_field payload "subtype")
          then str repr (truthy_or (get_field payload "session_id") (text ""))
          else "")
      else ""

-- The fields of `updatedInput`, if there is a change.
abbrev pub update_fields : Option Fields → Fields
update_fields none = no_fields
update_fields (some no_fields) = no_fields
update_fields (some (field k v fields)) = field "updatedInput" (object (field k v fields)) no_fields

abbrev pub inner_response : Bool → String → Option Fields → String → Fields
inner_response true message updated_input denial_default =
    field "behavior" (text "allow") (update_fields updated_input)
inner_response false message updated_input denial_default =
    field "behavior" (text "deny")
      (field "message" (text (if message == "" then denial_default else message)) no_fields)

unfoldable pub build_control_response : String → Bool → String → Option Fields → String → Json
build_control_response request_id approved message updated_input denial_default = object (
    field "type" (text "control_response") (
      field "response"
        (object (
          field "subtype" (text "success") (
            field "request_id" (text request_id) (
              field "response"
                (object (inner_response approved message updated_input denial_default))
                no_fields))))
        no_fields))

-- The session is none or "" where it is not known.
unfoldable pub build_user_message : String → String → Json
build_user_message prompt session_id = object (
    field "type" (text "user") (
      field "message"
        (object (field "role" (text "user") (field "content" (text prompt) no_fields)))
        (field "parent_tool_use_id" null (
          if session_id == "" then no_fields else field "session_id" (text session_id) no_fields))))

abbrev pub is_true : Option Json → Bool
is_true none = false
is_true (some v) = is_truthy v

unfoldable pub result_payload_status : Fields → Bool × Bool
result_payload_status payload =
    if is_text "result" (get_field payload "type")
    then (
      true,
      is_true (get_field payload "is_error") || is_text "error" (get_field payload "subtype"),
    )
    else (false, false)
