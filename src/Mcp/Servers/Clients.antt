-- ===== src/Mcp/Servers/Clients.antt =====
-- What clients are given of the registry of python/lore_eden/mcp/servers/registry.py.
use lore_eden.Prelude.{
  ℕ, String, ◌≡◌, Bool, not, ◌&&◌, ◌||◌, Option, some, List, [], ◌∷◌, arith, ◌==◌, if◌then◌else◌,
}
use lore_eden.Prelude.Int.{ℤ}
use lore_eden.Prelude.Text.{concat}
use lore_eden.Prelude.Index.{contains}
use lore_eden.Prelude.Dict.{Dict, keys, put, contains-keys-put}
use lore_eden.Prelude.Json.{
  Json, text, array, object, Items, no_items, item, Fields, no_fields, field, str,
}
use lore_eden.Mcp.Servers.Models.{McpServerRecord}
use lore_eden.Mcp.Servers.{Session}

pub record McpServerView : Type 0 where
  pub id : String
  pub name : String
  pub description : String
  pub transport : String
  pub url : String
  pub command : String
  pub args : List String
  pub auth_env_var : String
  pub enabled : Bool
  pub auth_present : Bool
  pub tool_policy : String
  pub rate_limit_per_min : ℤ
  pub last_checked_at : String
  pub last_health_ok : Bool
  pub last_health_latency_ms : ℤ
  pub last_health_error : String
  pub tools : List String
  pub tools_listed_at : String
  pub created_at : ℕ
  pub updated_at : ℕ

-- JSON with `none` for what json.loads refuses, the variables of the process ("" if not set), and
-- the database's ORDER BY.
pub record Process : Type 0 where
  pub loads : String → Option Json
  pub repr : Json → String
  pub environ : String → String
  pub by_name : Session → Session

unfoldable pub text_items : List String → Items
text_items [] = no_items
text_items (s ∷ more) = item (text s) (text_items more)

module _ (p : Process) where
  unfoldable pub strings : Items → List String
  strings no_items = []
  strings (item v more) = str p.repr v ∷ strings more

  abbrev pub strings_of : Option Json → List String
  strings_of (some (array items)) = strings items
  strings_of _ = []

  unfoldable pub parse_string_list : String → List String
  parse_string_list raw = strings_of (p.loads (if raw == "" then "[]" else raw))

  abbrev pub parse_args : String → List String
  parse_args raw = parse_string_list raw

  abbrev pub is_set : String → Bool
  is_set variable = not (variable == "") && not (p.environ variable == "")

  unfoldable pub to_view : McpServerRecord → McpServerView
  to_view server = record {
    id = server.id;
    name = server.name;
    description = server.description;
    transport = server.transport;
    url = server.url;
    command = server.command;
    args = parse_args server.args_json;
    auth_env_var = server.auth_env_var;
    enabled = server.enabled;
    auth_present = is_set server.auth_env_var;
    tool_policy = server.tool_policy;
    rate_limit_per_min = server.rate_limit_per_min;
    last_checked_at = server.last_checked_at;
    last_health_ok = server.last_health_ok;
    last_health_latency_ms = server.last_health_latency_ms;
    last_health_error = server.last_health_error;
    tools = parse_string_list server.tools_json;
    tools_listed_at = server.tools_listed_at;
    created_at = server.created_at;
    updated_at = server.updated_at;
  }

  abbrev pub list_servers : Session → Session
  list_servers rows = p.by_name rows

  unfoldable pub enabled_of : Session → List String
  enabled_of [] = []
  enabled_of (server ∷ more) =
      let rest = enabled_of more in if server.enabled then server.name ∷ rest else rest

  unfoldable pub enabled_server_names : Session → List String
  enabled_server_names rows = enabled_of (list_servers rows)

  abbrev pub bearer : String → Fields
  bearer token =
      if token == ""
      then no_fields
      else field "headers"
          (object (field "Authorization" (text (concat ("Bearer " ∷ token ∷ []))) no_fields))
          no_fields

  abbrev pub passed_on : String → Fields
  passed_on variable =
      if variable == ""
      then no_fields
      else field "env" (object (field variable (text (p.environ variable)) no_fields)) no_fields

  -- A server's entry in a client's config.
  unfoldable pub server_entry : McpServerRecord → Json
  server_entry server =
      if server.transport == "http"
      then object (
          field "type" (text "http") (
            field "url" (text server.url)
              (bearer (if server.auth_env_var == "" then "" else p.environ server.auth_env_var))))
      else object (
          field "type" (text "stdio") (
            field "command" (text server.command) (
              field "args" (array (text_items (parse_args server.args_json)))
                (passed_on server.auth_env_var))))

  -- The loop of `client_server_entries`.
  unfoldable pub entries_onto : Dict Json → Session → Dict Json
  entries_onto entries [] = entries
  entries_onto entries (server ∷ more) =
      entries_onto
        (if server.enabled then put entries server.name (server_entry server) else entries) more

  unfoldable pub client_server_entries : Session → Dict Json
  client_server_entries rows = entries_onto [] (list_servers rows)

  contains-entries :
      (entries : Dict Json) (rows : Session) (name : String)
      → contains (keys (entries_onto entries rows)) name
        ≡ (contains (keys entries) name || contains (enabled_of rows) name)
  unfolding entries_onto enabled_of contains
  contains-entries entries [] name = ground arith
  contains-entries entries (server ∷ more) name = ground (
    arith,
    contains-entries
        (if server.enabled then put entries server.name (server_entry server) else entries) more
        name,
    contains-keys-put entries server.name name (server_entry server),
  )

  -- A client's config has an entry for exactly the names that a grant could match.
  pub client_server_entries-enabled :
      (rows : Session) (name : String)
      → contains (keys (client_server_entries rows)) name
        ≡ contains (enabled_server_names rows) name
  unfolding client_server_entries enabled_server_names contains
  client_server_entries-enabled rows name = contains-entries [] (list_servers rows) name
