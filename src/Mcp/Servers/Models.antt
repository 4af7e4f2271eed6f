-- ===== src/Mcp/Servers/Models.antt =====
-- The records of python/lore_eden/mcp/servers/models.py, and what the registry raises.
use lore_eden.Prelude.{ℕ, String, Bool, Option, List}
use lore_eden.Prelude.Int.{ℤ}

pub record McpServerRecord : Type 0 where
  pub id : String
  pub name : String
  pub description : String
  pub transport : String
  pub url : String
  pub command : String
  pub args_json : String
  pub auth_env_var : String
  pub enabled : Bool
  pub tool_policy : String
  pub rate_limit_per_min : ℤ
  pub last_checked_at : String
  pub last_health_ok : Bool
  pub last_health_latency_ms : ℤ
  pub last_health_error : String
  pub tools_json : String
  pub tools_listed_at : String
  pub created_at : ℕ
  pub updated_at : ℕ

pub record McpServerCreate : Type 0 where
  pub name : String
  pub description : String
  pub transport : String
  pub url : String
  pub command : String
  pub args : List String
  pub auth_env_var : String
  pub enabled : Bool
  pub tool_policy : String
  pub rate_limit_per_min : ℤ

pub record McpServerUpdate : Type 0 where
  pub name : Option String
  pub description : Option String
  pub transport : Option String
  pub url : Option String
  pub command : Option String
  pub args : Option (List String)
  pub auth_env_var : Option String
  pub enabled : Option Bool
  pub tool_policy : Option String
  pub rate_limit_per_min : Option ℤ

pub data McpRegistryError : Type 0 where
  name_required : McpRegistryError
  unknown_transport : String → McpRegistryError
  unknown_policy : String → McpRegistryError
  needs_url : McpRegistryError
  needs_command : McpRegistryError
  name_registered : String → McpRegistryError
  server_not_found : McpRegistryError
