-- ===== src/Mcp/Servers/Valid.antt =====
-- Which servers of the registry are valid (python/lore_eden/mcp/servers/registry.py).
use lore_eden.Prelude.{
  String, ◌≡◌, ◌≢◌, refl, sym, subst, true, ◌||◌, none, [], ◌∷◌, ◌++◌, arith, ◌==◌, eq_iff, All,
  if-holds,
}
use lore_eden.Prelude.Strip.{strip, drop_spaces, reverse_onto}
use lore_eden.Mcp.Servers.Models.{McpServerRecord}
use lore_eden.Mcp.Servers.{validate, Session, change, without_server}

-- A server that a client can be given: it has a name, a transport and a policy that exist, and the
-- address that its transport needs.
pub record IsValid (server : McpServerRecord) : Type 0 where
  pub has_name : server.name ≢ ""
  pub has_transport : (server.transport == "http" || server.transport == "stdio") ≡ true
  pub has_policy : (server.tool_policy == "prompt" || server.tool_policy == "auto") ≡ true
  pub has_url : server.transport ≡ "http" → server.url ≢ ""
  pub has_command : server.transport ≡ "stdio" → server.command ≢ ""

pub blank_empty : (s : String) → strip s ≢ "" → s ≢ ""
unfolding strip drop_spaces reverse_onto
blank_empty s h e = h (subst (λ (x : String). strip x ≡ "") (sym e) refl)

-- What a check that passes says of the texts.
pub validate-none :
    (name transport url command tool_policy : String)
    → validate name transport url command tool_policy ≡ none
    → (strip name ≢ "")
      × ((transport == "http" || transport == "stdio") ≡ true)
      × ((tool_policy == "prompt" || tool_policy == "auto") ≡ true)
      × (transport ≡ "http" → strip url ≢ "")
      × (transport ≡ "stdio" → strip command ≢ "")
unfolding validate
validate-none name transport url command tool_policy h = (
  λ e. ground (arith, eq_iff (strip name) ""),
  ground arith,
  ground arith,
  λ is_http e. ground (arith, eq_iff (strip url) "", eq_iff transport "http"),
  λ is_stdio e. ground (arith, eq_iff (strip command) "", eq_iff transport "stdio"),
)

-- A server that passed the check as it is stored.
pub checked-IsValid :
    (server : McpServerRecord)
    → validate server.name server.transport server.url server.command server.tool_policy ≡ none
    → IsValid server
checked-IsValid server h =
    let (name, transport, policy, url, command) =
      validate-none server.name server.transport server.url server.command server.tool_policy h in
    record {
      has_name = blank_empty server.name name;
      has_transport = transport;
      has_policy = policy;
      has_url = λ e. blank_empty server.url (url e);
      has_command = λ e. blank_empty server.command (command e);
    }

pub All-added :
    (rows : Session) (server : McpServerRecord)
    → All IsValid rows
    → IsValid server
    → All IsValid (rows ++ server ∷ [])
All-added [] server k v = (v, tt)
All-added (row ∷ rows) server k v = (k.0, All-added rows server k.1 v)

pub All-change :
    (rows : Session) (server : McpServerRecord)
    → All IsValid rows
    → IsValid server
    → All IsValid (change rows server)
unfolding change
All-change [] server k v = tt
All-change (row ∷ rows) server k v =
    let rest = All-change rows server k.1 v in
    if-holds (All IsValid) (row.id == server.id) (λ e. (v, k.1)) (λ e. (k.0, rest))

pub All-without_server :
    (rows : Session) (server_id : String)
    → All IsValid rows
    → All IsValid (without_server rows server_id)
unfolding without_server
All-without_server [] server_id k = tt
All-without_server (row ∷ rows) server_id k =
    let rest = All-without_server rows server_id k.1 in
    if-holds (All IsValid) (row.id == server_id) (λ e. k.1) (λ e. (k.0, rest))
