-- ===== src/WorkItems/Dependencies.antt =====
-- The dependencies of python/lore_eden/work_items.py, over the edges that
-- `InMemoryDependencyStore` (python/lore_eden/store/memory.py) keeps.
pub mod Frontier
pub mod Search
pub mod Acyclic
mod Examples
use lore_eden.Prelude.{
  ℕ, zero, suc, ◌+◌, String, Bool, true, false, ◌&&◌, ◌||◌, Option, none, some, List, [], ◌∷◌, ◌++◌,
  ◌==◌, if◌then◌else◌, length,
}
use lore_eden.Prelude.Index.{contains}
use lore_eden.Prelude.Dict.{Dict, get_with, put}
use lore_eden.Prelude.Result.{Result, ok, raised}
use lore_eden.Prelude.Sets.{add_text, update, difference, sort_texts}

-- (item_id, depends_on_id): the first waits for the second.
abbrev pub Edges : Type 0
Edges = List (String × String)

pub data DependencyError : Type 0 where
  -- the item would wait for itself
  self_edge : String → DependencyError
  -- the prerequisite waits for the item already
  closes_cycle : String → String → DependencyError

unfoldable pub has_edge : Edges → String → String → Bool
has_edge [] a b = false
has_edge ((i, d) ∷ edges) a b = (i == a && d == b) || has_edge edges a b

unfoldable pub store_dependency : Edges → String → String → Bool × Edges
store_dependency edges a b = if has_edge edges a b then (false, edges) else (true, (a, b) ∷ edges)

unfoldable pub discard : Edges → String → String → Edges
discard [] a b = []
discard ((i, d) ∷ edges) a b =
    let rest = discard edges a b in if i == a && d == b then rest else (i, d) ∷ rest

unfoldable pub remove_dependency : Edges → String → String → Bool × Edges
remove_dependency edges a b =
    if has_edge edges a b then (true, discard edges a b) else (false, edges)

-- `{item_id: set() for item_id in wanted}`
unfoldable pub no_edges : List String → Dict (List String)
no_edges [] = []
no_edges (i ∷ wanted) = put (no_edges wanted) i []

-- The loop of `prerequisites_map`.
unfoldable pub collect_edges : List String → Dict (List String) → Edges → Dict (List String)
collect_edges wanted found [] = found
collect_edges wanted found ((i, d) ∷ edges) =
    collect_edges wanted
      (if contains wanted i then put found i (add_text d (get_with found i [])) else found) edges

unfoldable pub prerequisites_map : Edges → List String → Dict (List String)
prerequisites_map edges item_ids = collect_edges item_ids (no_edges item_ids) edges

-- `for edges in found.values(): nxt.update(edges)`
unfoldable pub union_values : Dict (List String) → List String
union_values [] = []
union_values ((k, v) ∷ found) = update (union_values found) v

-- `sorted(nxt - seen)`, with `seen` the set after the update
unfoldable pub next_frontier : Edges → List String → List String → List String
next_frontier edges seen frontier =
    sort_texts (difference (union_values (prerequisites_map edges frontier)) seen)

-- The loop of `_reaches`; `none` if the fuel runs out.
unfoldable pub search : Edges → String → ℕ → List String → List String → Option Bool
search edges target zero seen frontier = none
search edges target (suc fuel) seen [] = some false
search edges target (suc fuel) seen (x ∷ frontier) =
    let seen' = update seen (x ∷ frontier) in
    let rest = search edges target fuel seen' (next_frontier edges seen' (x ∷ frontier)) in
    if contains (x ∷ frontier) target then some true else rest

-- `_reaches`
unfoldable pub reaches : Edges → String → String → Option Bool
reaches edges start target = search edges target (suc (suc (length edges))) [] (start ∷ [])

-- A call's result beside the edges that it leaves.
abbrev pub Outcome : Type 0
Outcome = Result DependencyError Bool × Edges

abbrev pub stored : Bool × Edges → Outcome
stored (added, edges) = (ok added, edges)

abbrev pub refuse_or_store : Edges → String → String → Bool → Outcome
refuse_or_store edges a b true = (raised (closes_cycle b a), edges)
refuse_or_store edges a b false = stored (store_dependency edges a b)

abbrev pub decided : Edges → String → String → Option Bool → Option Outcome
decided edges a b none = none
decided edges a b (some there) = some (refuse_or_store edges a b there)

-- `WorkItemEngine.add_dependency`
unfoldable pub add_dependency : Edges → String → String → Option Outcome
add_dependency edges a b =
    if a == b then some (raised (self_edge a), edges) else decided edges a b (reaches edges b a)
