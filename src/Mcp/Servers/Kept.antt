-- ===== src/Mcp/Servers/Kept.antt =====
-- What the registry of MCP servers keeps true of its rows
-- (python/lore_eden/mcp/servers/registry.py).
use lore_eden.Prelude.{
  ℕ, String, ◌≡◌, refl, false, Option, none, some, List, arith, All, if-holds, eq_refl,
}
use lore_eden.Prelude.Index.{contains, Distinct}
use lore_eden.Prelude.Result.{ok, raised}
use lore_eden.Mcp.Servers.Models.{
  McpServerRecord, McpServerCreate, McpServerUpdate, McpRegistryError, server_not_found,
}
use lore_eden.Mcp.Servers.{
  validate, Session, find_named, find_server, stripped_or, new_record, stored_unless, created,
  create_server, edited, clashes, checked, updated, update_server, deleted, delete_server, Outcome,
}
use lore_eden.Mcp.Servers.Rows.{
  ids_of, names_of, IsOrderly, HasSameOwner, added-names_once, added-ids_once, find_named-none,
  no_other, find_named-found, change-IsOrderly, without_server-IsOrderly,
}
use lore_eden.Mcp.Servers.Valid.{
  IsValid, validate-none, checked-IsValid, All-added, All-change, All-without_server,
}

pub record IsSound (rows : Session) : Type 0 where
  pub orderly : IsOrderly rows
  pub valid : All IsValid rows

stored-IsSound :
    (rows : Session) (server : McpServerRecord)
    → IsSound rows
    → contains (ids_of rows) server.id ≡ false
    → IsValid server
    → (found : Option McpServerRecord) → find_named rows server.name ≡ found
    → IsSound (stored_unless rows server found).1
stored-IsSound rows server k is_fresh v none is_found = record {
  orderly = record {
    names_once =
        added-names_once rows server (find_named-none rows server.name is_found)
          k.orderly.names_once;
    ids_once = added-ids_once rows server is_fresh k.orderly.ids_once;
  };
  valid = All-added rows server k.valid v;
}
stored-IsSound rows server k is_fresh v (some taken) is_found = k

-- A server about to be changed is the only one of its name.
edit-owned :
    (rows : Session) (server_id : String) (stored server : McpServerRecord) (name : Option String)
    → Distinct (names_of rows)
    → find_server rows server_id ≡ some stored
    → server.id ≡ stored.id
    → server.name ≡ stripped_or name stored.name
    → clashes rows stored name ≡ false
    → All (HasSameOwner server) rows
edit-owned rows server_id stored server none d h same named free =
    no_other rows server d
      (ground (arith, find_named-found rows server_id stored d h, eq_refl server.id))
edit-owned rows server_id stored server (some name) d h same named free =
    no_other rows server d (ground (arith))

-- What an edit leaves: names and ids of one row each on every path, and valid rows if it answers.
pub record Keeps (rows : Session) (outcome : Outcome McpServerRecord) : Type 0 where
  pub orderly : IsOrderly outcome.1
  pub valid : (saved : McpServerRecord) → outcome.0 ≡ ok saved → All IsValid outcome.1

unchanged-Keeps :
    (rows : Session) (e : McpRegistryError) → IsSound rows → Keeps rows (raised e, rows)
unchanged-Keeps rows e k = record { orderly = k.orderly; valid = λ saved h. k.valid }

checked-Keeps :
    (rows : Session) (server : McpServerRecord) (now : ℕ)
    → IsSound rows
    → All (HasSameOwner server) rows
    → (e : Option McpRegistryError)
    → validate server.name server.transport server.url server.command server.tool_policy ≡ e
    → Keeps rows (checked rows server now e)
checked-Keeps rows server now k owners (some e) is_e = record {
  orderly = change-IsOrderly rows server k.orderly owners;
  valid = λ saved h. absurd (ground arith);
}
checked-Keeps rows server now k owners none is_e = record {
  orderly = change-IsOrderly rows (record server { updated_at = now }) k.orderly owners;
  valid = λ saved h.
      All-change rows (record server { updated_at = now }) k.valid
        (checked-IsValid (record server { updated_at = now }) is_e);
}

module _ (dumps : List String → String) where
  new-IsValid :
      (body : McpServerCreate) (server_id : String) (now : ℕ)
      → validate body.name body.transport body.url body.command body.tool_policy ≡ none
      → IsValid (new_record dumps body server_id now)
  new-IsValid body server_id now h =
      let (name, transport, policy, url, command) =
        validate-none body.name body.transport body.url body.command body.tool_policy h in
      record {
        has_name = name;
        has_transport = transport;
        has_policy = policy;
        has_url = url;
        has_command = command;
      }

  created-IsSound :
      (rows : Session) (body : McpServerCreate) (server_id : String) (now : ℕ)
      → IsSound rows
      → contains (ids_of rows) server_id ≡ false
      → (e : Option McpRegistryError)
      → validate body.name body.transport body.url body.command body.tool_policy ≡ e
      → IsSound (created rows (new_record dumps body server_id now) e).1
  created-IsSound rows body server_id now k is_fresh (some e) is_e = k
  created-IsSound rows body server_id now k is_fresh none is_e =
      stored-IsSound rows (new_record dumps body server_id now) k is_fresh
        (new-IsValid body server_id now is_e) _ refl

  -- Whether it answers or raises, creating a server under a new id keeps the rows valid, and names
  -- and ids of one row each.
  pub create_server-IsSound :
      (rows : Session) (body : McpServerCreate) (server_id : String) (now : ℕ)
      → IsSound rows
      → contains (ids_of rows) server_id ≡ false
      → IsSound (create_server dumps rows body server_id now).1
  unfolding create_server
  create_server-IsSound rows body server_id now k is_fresh =
      created-IsSound rows body server_id now k is_fresh _ refl

  updated-Keeps :
      (rows : Session) (server_id : String) (body : McpServerUpdate) (now : ℕ)
      → IsSound rows
      → (found : Option McpServerRecord) → find_server rows server_id ≡ found
      → Keeps rows (updated dumps rows body now found)
  unfolding edited
  updated-Keeps rows server_id body now k none is_found = unchanged-Keeps rows server_not_found k
  updated-Keeps rows server_id body now k (some server) is_found =
      if-holds (Keeps rows) (clashes rows server body.name) (λ e. unchanged-Keeps rows _ k)
        (λ e.
          checked-Keeps rows (edited dumps server body) now k
            (edit-owned rows server_id server (edited dumps server body) body.name
              k.orderly.names_once is_found refl refl e)
            _ refl)

  -- An edit keeps names and ids of one row each, also when it raises, and keeps the rows valid when
  -- it answers.
  pub update_server-Keeps :
      (rows : Session) (server_id : String) (body : McpServerUpdate) (now : ℕ)
      → IsSound rows
      → Keeps rows (update_server dumps rows server_id body now)
  unfolding update_server
  update_server-Keeps rows server_id body now k = updated-Keeps rows server_id body now k _ refl

-- Deleting keeps all of it.
pub delete_server-IsSound :
    (rows : Session) (server_id : String) → IsSound rows → IsSound (delete_server rows server_id).1
unfolding delete_server
delete_server-IsSound rows server_id k = by_found (find_server rows server_id)
  where
    by_found : (found : Option McpServerRecord) → IsSound (deleted rows server_id found).1
    by_found none = k
    by_found (some server) = record {
      orderly = without_server-IsOrderly rows server_id k.orderly;
      valid = All-without_server rows server_id k.valid;
    }
