-- ===== src/Mcp/Examples.antt =====
-- Runs of the functions of python/lore_eden/mcp.
use lore_eden.Prelude.{ℕ, ◌+◌, String, ◌≡◌, ◌⊎◌, refl, true, false, [], ◌∷◌}
use lore_eden.Prelude.Int.{pos}
use lore_eden.Prelude.Result.{ok, raised}
use lore_eden.Prelude.Index.{contains}
use lore_eden.Prelude.Dict.{get}
use lore_eden.Prelude.Json.{
  Json, null, int, text, array, object, Items, no_items, item, Fields, no_fields, field, get_field,
  is_truthy,
}
use lore_eden.Mcp.Tools.{
  ToolHost, ToolDefinition, ToolHandler, ToolRegistry, name_taken, register, names, call,
}
use lore_eden.Mcp.Protocol.{
  McpServer, handle_request, handle_batch, handle_message, content, json_response, call_tool,
}
use lore_eden.Mcp.Catalogue.{IsAligned, Adds, register-Adds}
use lore_eden.Mcp.Responses.{Treats, handle_request-Treats}
use lore_eden.Mcp.Batch.{Answers, asked, handle_message-Answers}

-- A host that counts its calls.
abbrev host : ToolHost
host = record {
  World = ℕ;
  Context = String;
  Fault = String;
  fault_text = λ e. e;
  unhashable_text = λ v. "unhashable";
  repr = λ v. "";
}

abbrev echo : ToolDefinition
echo = record { name = "echo"; description = "Says it again."; input_schema = object no_fields }

abbrev echo_handler : ToolHandler host
echo_handler n context arguments = (ok context, n + 1)

abbrev tools : ToolRegistry host
tools = record { definitions = ("echo", echo) ∷ []; handlers = ("echo", echo_handler) ∷ [] }

abbrev server : McpServer host
server = record { server_info = record { name = "eden"; version = "0.1.0" }; tools = tools }

abbrev message : Json → String → Fields → Json
message request_id method more =
    object
      (field "jsonrpc" (text "2.0") (field "id" request_id (field "method" (text method) more)))

abbrev calls_echo : Json
calls_echo =
    message (int (pos 7)) "tools/call"
      (field "params" (object (field "name" (text "echo") no_fields)) no_fields)

abbrev batch : Items
batch =
    item calls_echo
      (item (message null "notifications/initialized" no_fields) (item (text "noise") no_items))

abbrev echoed : Items
echoed = item (object (json_response (int (pos 7)) "result" (content "hello" no_fields))) no_items

handle_message-Answers_example :
    (responses : Items) × (array echoed ≡ array responses) × Answers (asked batch) responses
unfolding handle_message handle_batch handle_request get_field call_tool is_truthy call get
handle_message-Answers_example =
    handle_message-Answers host server "hello" batch (array echoed) 0 1 refl

handle_request-Treats_example :
    Treats
      (field "method" (text "ping") no_fields)
      (handle_request host server (field "method" (text "ping") no_fields) 0 "hello").0
handle_request-Treats_example =
    handle_request-Treats host server (field "method" (text "ping") no_fields) 0 "hello"

tools-IsAligned : IsAligned host tools
unfolding contains
tools-IsAligned = record { same_names = refl; once_each = (refl, tt) }

register-Adds_example :
    ((contains (names host tools) "echo" ≡ true)
      × (register host tools echo echo_handler ≡ raised (name_taken "echo")))
    ⊎ ((contains (names host tools) "echo" ≡ false)
        × ((tools' : ToolRegistry host) × (register host tools echo echo_handler ≡ ok tools')
            × Adds host tools echo echo_handler tools'))
register-Adds_example = register-Adds host tools echo echo_handler tools-IsAligned
