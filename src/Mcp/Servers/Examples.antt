-- ===== src/Mcp/Servers/Examples.antt =====
-- Runs of the registry of python/lore_eden/mcp/servers.
use lore_eden.Prelude.{String, ◌≡◌, refl, true, false, none, some, List, [], ◌∷◌}
use lore_eden.Prelude.Int.{pos}
use lore_eden.Prelude.Strip.{strip, drop_spaces, reverse_onto}
use lore_eden.Prelude.Index.{contains}
use lore_eden.Mcp.Servers.Models.{McpServerRecord, McpServerCreate, McpServerUpdate}
use lore_eden.Mcp.Servers.{validate, Session, find_named, create_server, update_server}
use lore_eden.Prelude.Dict.{keys}
use lore_eden.Mcp.Servers.Clients.{
  Process, client_server_entries, enabled_server_names, client_server_entries-enabled,
}
use lore_eden.Mcp.Servers.Rows.{ids_of, names_of}
use lore_eden.Mcp.Servers.Kept.{IsSound, create_server-IsSound, update_server-Keeps, Keeps}

abbrev dumps : List String → String
dumps args = "[]"

abbrev body : McpServerCreate
body = record {
  name = " docs ";
  description = "";
  transport = "http";
  url = "http://docs";
  command = "";
  args = [];
  auth_env_var = "";
  enabled = true;
  tool_policy = "prompt";
  rate_limit_per_min = pos 0;
}

abbrev rows : Session
rows = (create_server dumps [] body "s1" 4).1

abbrev without_url : McpServerUpdate
without_url = record {
  name = none;
  description = none;
  transport = none;
  url = some " ";
  command = none;
  args = none;
  auth_env_var = none;
  enabled = none;
  tool_policy = none;
  rate_limit_per_min = none;
}

abbrev docs : McpServerRecord
docs = record {
  id = "s1";
  name = "docs";
  description = "";
  transport = "http";
  url = "http://docs";
  command = "";
  args_json = "[]";
  auth_env_var = "";
  enabled = true;
  tool_policy = "prompt";
  rate_limit_per_min = pos 0;
  last_checked_at = "";
  last_health_ok = false;
  last_health_latency_ms = pos 0;
  last_health_error = "";
  tools_json = "[]";
  tools_listed_at = "";
  created_at = 4;
  updated_at = 4;
}

none-IsSound : IsSound []
unfolding names_of ids_of
none-IsSound = record { orderly = record { names_once = tt; ids_once = tt }; valid = tt }

rows-IsSound : IsSound rows
unfolding ids_of contains
rows-IsSound = create_server-IsSound dumps [] body "s1" 4 none-IsSound refl

create_server-IsSound_example : IsSound (create_server dumps rows body "s2" 6).1
unfolding ids_of contains create_server validate strip drop_spaces reverse_onto find_named
create_server-IsSound_example = create_server-IsSound dumps rows body "s2" 6 rows-IsSound refl

update_server-Keeps_example : Keeps rows (update_server dumps rows "s1" without_url 5)
update_server-Keeps_example = update_server-Keeps dumps rows "s1" without_url 5 rows-IsSound

abbrev process : Process
process = record {
  loads = λ raw. none;
  repr = λ v. "";
  environ = λ variable. "";
  by_name = λ servers. servers;
}

client_server_entries-enabled_example :
    contains (keys (client_server_entries process (docs ∷ []))) "docs"
    ≡ contains (enabled_server_names process (docs ∷ [])) "docs"
client_server_entries-enabled_example = client_server_entries-enabled process (docs ∷ []) "docs"
