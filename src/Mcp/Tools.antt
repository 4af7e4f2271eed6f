-- ===== src/Mcp/Tools.antt =====
-- python/lore_eden/mcp/tools.py: the tools that a server offers.
use lore_eden.Prelude.{String, Bool, Option, none, some, List, [], ◌∷◌, ◌==◌, if◌then◌else◌}
use lore_eden.Prelude.Text.{concat, join}
use lore_eden.Prelude.Sets.{sort_texts}
use lore_eden.Prelude.Index.{contains}
use lore_eden.Prelude.Dict.{Dict, keys, get, put}
use lore_eden.Prelude.Result.{Result, ok, raised}
use lore_eden.Prelude.Json.{Json, text, array, object, Items, no_items, item, no_fields, field, str}

-- A tool runs in the host's world and answers with a text or raises.
pub record ToolHost : Type 1 where
  pub World : Type 0
  pub Context : Type 0
  pub Fault : Type 0
  -- str(exc) of what a tool raises, and of the TypeError for a name that has no hash.
  pub fault_text : Fault → String
  pub unhashable_text : Json → String
  pub repr : Json → String

pub record ToolDefinition : Type 0 where
  pub name : String
  pub description : String
  pub input_schema : Json

abbrev pub as_payload : ToolDefinition → Json
as_payload definition = object (
    field "name" (text definition.name) (
      field "description" (text definition.description)
        (field "inputSchema" definition.input_schema no_fields)))

-- `ToolError`s, the TypeError, and what a tool raises.
pub data CallError (Fault : Type 0) : Type 0 where
  unknown_tool : String → CallError Fault
  unhashable : Json → CallError Fault
  tool_raised : Fault → CallError Fault

pub data DuplicateToolError : Type 0 where
  name_taken : String → DuplicateToolError

module _ (h : ToolHost) where
  abbrev pub ToolHandler : Type 0
  ToolHandler = h.World → h.Context → Json → Result h.Fault String × h.World

  pub record ToolRegistry : Type 0 where
    pub definitions : Dict ToolDefinition
    pub handlers : Dict ToolHandler

  abbrev pub no_tools : ToolRegistry
  no_tools = record { definitions = []; handlers = [] }

  -- `name in registry`
  abbrev pub is_registered : ToolRegistry → String → Bool
  is_registered tools name = contains (keys tools.handlers) name

  unfoldable pub register :
      ToolRegistry → ToolDefinition → ToolHandler → Result DuplicateToolError ToolRegistry
  register tools definition handler =
      if is_registered tools definition.name
      then raised (name_taken definition.name)
      else ok (record {
        definitions = put tools.definitions definition.name definition;
        handlers = put tools.handlers definition.name handler;
      })

  unfoldable pub payloads : Dict ToolDefinition → Items
  payloads [] = no_items
  payloads ((name, definition) ∷ more) = item (as_payload definition) (payloads more)

  -- `definitions`
  abbrev pub definitions_of : ToolRegistry → Json
  definitions_of tools = array (payloads tools.definitions)

  -- `names`
  abbrev pub names : ToolRegistry → List String
  names tools = keys tools.definitions

  abbrev pub known_tools : ToolRegistry → String
  known_tools tools =
      let known = join ", " (sort_texts (keys tools.handlers)) in
      if known == "" then "none" else known

  abbrev pub unknown : ToolRegistry → Json → String
  unknown tools name =
      concat ("Unknown tool: " ∷ str h.repr name ∷ ". Registered tools: " ∷ known_tools tools ∷ [])

  abbrev pub CallResult : Type 0
  CallResult = Result (CallError h.Fault) String × h.World

  abbrev pub outcome_of_tool : Result h.Fault String × h.World → CallResult
  outcome_of_tool (raised e, w) = (raised (tool_raised e), w)
  outcome_of_tool (ok result, w) = (ok result, w)

  abbrev pub run_handler :
      ToolRegistry → Json → Option ToolHandler → h.World → h.Context → Json → CallResult
  run_handler tools name none w context arguments = (raised (unknown_tool (unknown tools name)), w)
  run_handler tools name (some handler) w context arguments =
      outcome_of_tool (handler w context arguments)

  -- `call`, with whatever JSON stands for the name.
  unfoldable pub call : ToolRegistry → Json → h.World → h.Context → Json → CallResult
  call tools (text s) w context arguments =
      run_handler tools (text s) (get tools.handlers s) w context arguments
  call tools (array items) w context arguments = (raised (unhashable (array items)), w)
  call tools (object fields) w context arguments = (raised (unhashable (object fields)), w)
  call tools name w context arguments = run_handler tools name none w context arguments

  -- str(exc)
  abbrev pub call_error_text : CallError h.Fault → String
  call_error_text (unknown_tool message) = message
  call_error_text (unhashable name) = h.unhashable_text name
  call_error_text (tool_raised e) = h.fault_text e
