-- ===== src/Mcp/Servers.antt =====
-- python/lore_eden/mcp/servers/registry.py and models.py: the record of other MCP servers.
pub mod Models
pub mod Clients
pub mod Rows
pub mod Valid
pub mod Kept
mod Examples
use lore_eden.Prelude.{
  ℕ, String, Bool, true, false, not, ◌&&◌, ◌||◌, Option, none, some, List, [], ◌∷◌, ◌++◌, ◌==◌,
  if◌then◌else◌,
}
use lore_eden.Prelude.Int.{ℤ, pos, negsuc}
use lore_eden.Prelude.Strip.{strip}
use lore_eden.Prelude.Text.{concat}
use lore_eden.Prelude.Dict.{Dict, get_with, put}
use lore_eden.Prelude.Result.{Result, ok, raised}
use lore_eden.Prelude.Json.{
  Json, text, array, object, Items, no_items, item, Fields, no_fields, field, str,
}
use lore_eden.Mcp.Servers.Models.{
  McpServerRecord, McpServerCreate, McpServerUpdate, McpRegistryError, name_required,
  unknown_transport, unknown_policy, needs_url, needs_command, name_registered, server_not_found,
}

abbrev pub is_blank_text : String → Bool
is_blank_text s = strip s == ""

-- `_validate`, with what it raises
unfoldable pub validate : String → String → String → String → String → Option McpRegistryError
validate name transport url command tool_policy =
    if is_blank_text name
    then some name_required
    else if not (transport == "http" || transport == "stdio")
    then some (unknown_transport transport)
    else if not (tool_policy == "prompt" || tool_policy == "auto")
    then some (unknown_policy tool_policy)
    else if transport == "http" && is_blank_text url
    then some needs_url
    else if transport == "stdio" && is_blank_text command
    then some needs_command
    else none

-- The rows of the session, edited ones included. An operation leaves its rows when it raises, too.
abbrev pub Session : Type 0
Session = List McpServerRecord

unfoldable pub find_named : Session → String → Option McpServerRecord
find_named [] name = none
find_named (row ∷ rows) name = if row.name == name then some row else find_named rows name

unfoldable pub find_server : Session → String → Option McpServerRecord
find_server [] server_id = none
find_server (row ∷ rows) server_id =
    if row.id == server_id then some row else find_server rows server_id

-- The object of a row, changed.
unfoldable pub change : Session → McpServerRecord → Session
change [] server = []
change (row ∷ rows) server = if row.id == server.id then server ∷ rows else row ∷ change rows server

unfoldable pub without_server : Session → String → Session
without_server [] server_id = []
without_server (row ∷ rows) server_id =
    if row.id == server_id then rows else row ∷ without_server rows server_id

abbrev pub or_stored : {A : Type 0} → Option A → A → A
or_stored none stored = stored
or_stored (some v) stored = v

abbrev pub stripped_or : Option String → String → String
stripped_or none stored = stored
stripped_or (some v) stored = strip v

-- max(0, n)
abbrev pub at_least_zero : Option ℤ → ℤ → ℤ
at_least_zero none stored = stored
at_least_zero (some (pos n)) stored = pos n
at_least_zero (some (negsuc n)) stored = pos 0

abbrev pub Outcome : Type 0 → Type 0
Outcome A = Result McpRegistryError A × Session

abbrev pub is_other : McpServerRecord → Option McpServerRecord → Bool
is_other server none = false
is_other server (some found) = not (found.id == server.id)

-- Whether the new name is that of another server.
abbrev pub clashes : Session → McpServerRecord → Option String → Bool
clashes rows server none = false
clashes rows server (some name) = is_other server (find_named rows (strip name))

abbrev pub checked :
    Session → McpServerRecord → ℕ → Option McpRegistryError → Outcome McpServerRecord
checked rows server now (some e) = (raised e, change rows server)
checked rows server now none =
    let saved = record server { updated_at = now } in (ok saved, change rows saved)

abbrev pub saved_edit : Session → McpServerRecord → ℕ → Outcome McpServerRecord
saved_edit rows server now =
    checked rows server now
      (validate server.name server.transport server.url server.command server.tool_policy)

abbrev pub stored_unless :
    Session → McpServerRecord → Option McpServerRecord → Outcome McpServerRecord
stored_unless rows server none = (ok server, rows ++ server ∷ [])
stored_unless rows server (some taken) = (raised (name_registered server.name), rows)

abbrev pub created : Session → McpServerRecord → Option McpRegistryError → Outcome McpServerRecord
created rows server (some e) = (raised e, rows)
created rows server none = stored_unless rows server (find_named rows server.name)

-- `dumps` is json.dumps of a list of texts.
module _ (dumps : List String → String) where
  abbrev pub args_or : Option (List String) → String → String
  args_or none stored = stored
  args_or (some args) stored = dumps args

  abbrev pub new_record : McpServerCreate → String → ℕ → McpServerRecord
  new_record body server_id now = record {
    id = server_id;
    name = strip body.name;
    description = body.description;
    transport = body.transport;
    url = strip body.url;
    command = strip body.command;
    args_json = dumps body.args;
    auth_env_var = strip body.auth_env_var;
    enabled = body.enabled;
    tool_policy = body.tool_policy;
    rate_limit_per_min = body.rate_limit_per_min;
    last_checked_at = "";
    last_health_ok = false;
    last_health_latency_ms = pos 0;
    last_health_error = "";
    tools_json = "[]";
    tools_listed_at = "";
    created_at = now;
    updated_at = now;
  }

  -- `server_id` and `now` are those of the new record.
  unfoldable pub create_server : Session → McpServerCreate → String → ℕ → Outcome McpServerRecord
  create_server rows body server_id now =
      created rows (new_record body server_id now)
        (validate body.name body.transport body.url body.command body.tool_policy)

  unfoldable pub edited : McpServerRecord → McpServerUpdate → McpServerRecord
  edited server body = record server {
    name = stripped_or body.name server.name;
    description = or_stored body.description server.description;
    transport = stripped_or body.transport server.transport;
    url = stripped_or body.url server.url;
    command = stripped_or body.command server.command;
    auth_env_var = stripped_or body.auth_env_var server.auth_env_var;
    args_json = args_or body.args server.args_json;
    enabled = or_stored body.enabled server.enabled;
    tool_policy = stripped_or body.tool_policy server.tool_policy;
    rate_limit_per_min = at_least_zero body.rate_limit_per_min server.rate_limit_per_min;
  }

  abbrev pub updated :
      Session → McpServerUpdate → ℕ → Option McpServerRecord → Outcome McpServerRecord
  updated rows body now none = (raised server_not_found, rows)
  updated rows body now (some server) =
      if clashes rows server body.name
      then (raised (name_registered (stripped_or body.name "")), rows)
      else saved_edit rows (edited server body) now

  unfoldable pub update_server : Session → String → McpServerUpdate → ℕ → Outcome McpServerRecord
  update_server rows server_id body now = updated rows body now (find_server rows server_id)

abbrev pub deleted : Session → String → Option McpServerRecord → Outcome Bool
deleted rows server_id none = (raised server_not_found, rows)
deleted rows server_id (some server) = (ok true, without_server rows server_id)

unfoldable pub delete_server : Session → String → Outcome Bool
delete_server rows server_id = deleted rows server_id (find_server rows server_id)
