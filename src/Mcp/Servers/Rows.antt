-- ===== src/Mcp/Servers/Rows.antt =====
-- The names and ids of the rows of the registry of MCP servers
-- (python/lore_eden/mcp/servers/registry.py).
use lore_eden.Prelude.{
  String, ◌≡◌, refl, sym, subst, true, false, ◌||◌, none, some, List, [], ◌∷◌, ◌++◌, arith, ◌==◌,
  eq_iff, All, Bool-cases, if-holds, inl, inr, eq_refl,
}
use lore_eden.Prelude.Index.{contains, Distinct}
use lore_eden.Mcp.Servers.Models.{McpServerRecord}
use lore_eden.Mcp.Servers.{Session, find_named, find_server, change, without_server, is_other}

unfoldable pub ids_of : Session → List String
ids_of [] = []
ids_of (row ∷ rows) = row.id ∷ ids_of rows

unfoldable pub names_of : Session → List String
names_of [] = []
names_of (row ∷ rows) = row.name ∷ names_of rows

-- Names and ids are each of one row.
pub record IsOrderly (rows : Session) : Type 0 where
  pub names_once : Distinct (names_of rows)
  pub ids_once : Distinct (ids_of rows)

-- The rows behind a new one.
names_of-added :
    (rows : Session) (server : McpServerRecord) (name : String)
    → contains (names_of (rows ++ server ∷ [])) name
      ≡ (contains (names_of rows) name || server.name == name)
unfolding names_of contains
names_of-added [] server name = ground arith
names_of-added (row ∷ rows) server name = ground (arith, names_of-added rows server name)

ids_of-added :
    (rows : Session) (server : McpServerRecord) (server_id : String)
    → contains (ids_of (rows ++ server ∷ [])) server_id
      ≡ (contains (ids_of rows) server_id || server.id == server_id)
unfolding ids_of contains
ids_of-added [] server server_id = ground arith
ids_of-added (row ∷ rows) server server_id = ground (arith, ids_of-added rows server server_id)

pub added-names_once :
    (rows : Session) (server : McpServerRecord)
    → contains (names_of rows) server.name ≡ false
    → Distinct (names_of rows)
    → Distinct (names_of (rows ++ server ∷ []))
unfolding names_of contains
added-names_once [] server h d = (refl, tt)
added-names_once (row ∷ rows) server h d = (
  ground (
    arith,
    eq_iff row.name server.name,
    eq_iff server.name row.name,
    names_of-added rows server row.name,
  ),
  added-names_once rows server (ground arith) d.1,
)

pub added-ids_once :
    (rows : Session) (server : McpServerRecord)
    → contains (ids_of rows) server.id ≡ false
    → Distinct (ids_of rows)
    → Distinct (ids_of (rows ++ server ∷ []))
unfolding ids_of contains
added-ids_once [] server h d = (refl, tt)
added-ids_once (row ∷ rows) server h d = (
  ground (arith, eq_iff row.id server.id, eq_iff server.id row.id, ids_of-added rows server row.id),
  added-ids_once rows server (ground arith) d.1,
)

pub find_named-none :
    (rows : Session) (name : String)
    → find_named rows name ≡ none
    → contains (names_of rows) name ≡ false
unfolding names_of contains find_named
find_named-none [] name h = refl
find_named-none (row ∷ rows) name h = ground (arith, find_named-none rows name)

-- An object changed in place.
pub ids_of-change :
    (rows : Session) (server : McpServerRecord) → ids_of (change rows server) ≡ ids_of rows
unfolding ids_of change
ids_of-change [] server = refl
ids_of-change (row ∷ rows) server =
    ground (arith, eq_iff row.id server.id, ids_of-change rows server)

-- Whether a row has the id of a server if it has its name.
abbrev pub HasSameOwner : McpServerRecord → McpServerRecord → Type 0
HasSameOwner server row = (row.name == server.name) ≡ true → (row.id == server.id) ≡ true

names_of-change_absent :
    (rows : Session) (server : McpServerRecord) (name : String)
    → contains (names_of rows) name ≡ false
    → (server.name == name) ≡ false
    → contains (names_of (change rows server)) name ≡ false
unfolding names_of contains change
names_of-change_absent [] server name h ne = refl
names_of-change_absent (row ∷ rows) server name h ne =
    ground (arith, names_of-change_absent rows server name)

absent-owner :
    (rows : Session) (server : McpServerRecord)
    → contains (names_of rows) server.name ≡ false
    → All (HasSameOwner server) rows
unfolding names_of contains
absent-owner [] server h = tt
absent-owner (row ∷ rows) server h =
    (λ e. absurd (ground arith), absent-owner rows server (ground arith))

pub no_other :
    (rows : Session) (server : McpServerRecord)
    → Distinct (names_of rows)
    → is_other server (find_named rows server.name) ≡ false
    → All (HasSameOwner server) rows
unfolding names_of contains find_named
no_other [] server d h = tt
no_other (row ∷ rows) server d h = elim (Bool-cases (row.name == server.name)) [
  | inl e ↦
      (λ same. ground arith, absent-owner rows server (ground (arith, eq_iff row.name server.name)))
  | inr e ↦ (λ same. absurd (ground arith), no_other rows server d.1 (ground arith))
]

owned-absent :
    (rows : Session) (server : McpServerRecord)
    → All (HasSameOwner server) rows
    → contains (ids_of rows) server.id ≡ false
    → contains (names_of rows) server.name ≡ false
unfolding names_of ids_of contains
owned-absent [] server owners h = refl
owned-absent (row ∷ rows) server owners h =
    ground (arith, owners.0, owned-absent rows server owners.1)

change-names_once :
    (rows : Session) (server : McpServerRecord)
    → Distinct (names_of rows)
    → Distinct (ids_of rows)
    → All (HasSameOwner server) rows
    → Distinct (names_of (change rows server))
unfolding names_of ids_of contains change
change-names_once [] server d ids owners = tt
change-names_once (row ∷ rows) server d ids owners =
    if-holds (λ (l : Session). Distinct (names_of l)) (row.id == server.id)
      (λ e. (owned-absent rows server owners.1 (ground (arith, eq_iff row.id server.id)), d.1))
      (λ e. (
        names_of-change_absent rows server row.name d.0
            (ground (arith, owners.0, eq_iff server.name row.name, eq_refl row.name)),
        change-names_once rows server d.1 ids.1 owners.1,
      ))

find_server-contained :
    (rows : Session) (server_id : String) (server : McpServerRecord)
    → find_server rows server_id ≡ some server
    → contains (names_of rows) server.name ≡ true
unfolding names_of contains find_server
find_server-contained [] server_id server h = absurd (ground arith)
find_server-contained (row ∷ rows) server_id server h =
    ground (arith, eq_refl row.name, find_server-contained rows server_id server)

pub find_server-id :
    (rows : Session) (server_id : String) (server : McpServerRecord)
    → find_server rows server_id ≡ some server
    → server.id ≡ server_id
unfolding find_server
find_server-id [] server_id server h = absurd (ground arith)
find_server-id (row ∷ rows) server_id server h =
    ground (arith, eq_iff row.id server_id, find_server-id rows server_id server)

pub find_named-found :
    (rows : Session) (server_id : String) (server : McpServerRecord)
    → Distinct (names_of rows)
    → find_server rows server_id ≡ some server
    → find_named rows server.name ≡ some server
unfolding names_of contains find_server find_named
find_named-found [] server_id server d h = absurd (ground arith)
find_named-found (row ∷ rows) server_id server d h = ground (
  arith,
  eq_refl row.name,
  eq_iff row.name server.name,
  find_server-contained rows server_id server,
  find_named-found rows server_id server,
)

pub change-IsOrderly :
    (rows : Session) (server : McpServerRecord)
    → IsOrderly rows
    → All (HasSameOwner server) rows
    → IsOrderly (change rows server)
change-IsOrderly rows server k owners = record {
  names_once = change-names_once rows server k.names_once k.ids_once owners;
  ids_once = subst Distinct (sym (ids_of-change rows server)) k.ids_once;
}

-- The names and ids of the rows that a deletion leaves.
names_of-without_absent :
    (rows : Session) (server_id name : String)
    → contains (names_of rows) name ≡ false
    → contains (names_of (without_server rows server_id)) name ≡ false
unfolding names_of contains without_server
names_of-without_absent [] server_id name h = refl
names_of-without_absent (row ∷ rows) server_id name h =
    ground (arith, names_of-without_absent rows server_id name)

ids_of-without_absent :
    (rows : Session) (server_id asked : String)
    → contains (ids_of rows) asked ≡ false
    → contains (ids_of (without_server rows server_id)) asked ≡ false
unfolding ids_of contains without_server
ids_of-without_absent [] server_id asked h = refl
ids_of-without_absent (row ∷ rows) server_id asked h =
    ground (arith, ids_of-without_absent rows server_id asked)

pub without_server-IsOrderly :
    (rows : Session) (server_id : String)
    → IsOrderly rows
    → IsOrderly (without_server rows server_id)
unfolding names_of ids_of contains without_server
without_server-IsOrderly [] server_id k = k
without_server-IsOrderly (row ∷ rows) server_id k =
    let rest =
      without_server-IsOrderly rows server_id
        (record { names_once = k.names_once.1; ids_once = k.ids_once.1 }) in
    if-holds IsOrderly (row.id == server_id)
      (λ e. record { names_once = k.names_once.1; ids_once = k.ids_once.1 })
      (λ e. record {
        names_once =
            (names_of-without_absent rows server_id row.name k.names_once.0, rest.names_once);
        ids_once = (ids_of-without_absent rows server_id row.id k.ids_once.0, rest.ids_once);
      })
