-- ===== src/WorkItems/Dependencies/Examples.antt =====
-- Three items that wait for one another in a row.
use lore_eden.Prelude.{String, ◌≡◌, refl, ◌⊎◌, ◌↔◌, Bool, true, some, [], ◌∷◌}
use lore_eden.Prelude.Index.{contains}
use lore_eden.Prelude.Dict.{get, put}
use lore_eden.Prelude.Result.{ok, raised}
use lore_eden.Prelude.Sets.{add_text, update, sort_texts, insert_text}
use lore_eden.WorkItems.Dependencies.{
  Edges, closes_cycle, has_edge, reaches, search, next_frontier, prerequisites_map, collect_edges,
  no_edges, union_values, add_dependency, store_dependency,
}
use lore_eden.WorkItems.Dependencies.Search.{Waits, reaches-Decides}
use lore_eden.WorkItems.Dependencies.Acyclic.{
  IsAcyclic, Guards, add_dependency-Guards, Built, Built-IsAcyclic,
}

abbrev row : Edges
row = ("b", "c") ∷ ("a", "b") ∷ []

reaches-Decides_example :
    (there : Bool) × (reaches row "a" "c" ≡ some there)
    × ((there ≡ true) ↔ (Path String "a" "c" ⊎ Waits row "a" "c"))
reaches-Decides_example = reaches-Decides row "a" "c"

-- The edge that would close the row is refused.
closing : add_dependency row "c" "a" ≡ some (raised (closes_cycle "a" "c"), row)
unfolding add_dependency reaches search next_frontier prerequisites_map collect_edges no_edges
    union_values contains get put add_text update sort_texts insert_text
closing = refl

row-Built : Built row
unfolding add_dependency store_dependency has_edge reaches search next_frontier prerequisites_map
    collect_edges no_edges union_values contains get put add_text update sort_texts insert_text
row-Built =
    Built.with_edge {r = ok true} "b" "c"
      (Built.with_edge {edges' = ("a", "b") ∷ []} {r = ok true} "a" "b" Built.none_yet refl) refl

Built-IsAcyclic_example : IsAcyclic row
Built-IsAcyclic_example = Built-IsAcyclic row row-Built

add_dependency-Guards_example : Guards row "c" "a" (add_dependency row "c" "a")
add_dependency-Guards_example = add_dependency-Guards row "c" "a" Built-IsAcyclic_example
