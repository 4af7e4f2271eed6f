-- ===== src/WorkItems/Dependencies/Frontier.antt =====
-- One round of `_reaches`: what the next frontier holds, and how little is left to see.
use lore_eden.Prelude.{
  ℕ, suc, ◌≤◌, ◌<◌, String, ◌≡◌, refl, ap, inl, inr, Bool, true, false, ◌&&◌, ◌||◌, not, List, [],
  ◌∷◌, ◌==◌, if◌then◌else◌, length, arith, eq_iff, eq_refl, Bool-cases,
}
use lore_eden.Prelude.Index.{contains}
use lore_eden.Prelude.Dict.{Dict, get, get_with, put}
use lore_eden.Prelude.Sets.{
  add_text, update, difference, contains-add_text, contains-update, contains-difference,
  contains-sort_texts,
}
use lore_eden.WorkItems.Dependencies.{
  Edges, has_edge, no_edges, collect_edges, prerequisites_map, union_values, next_frontier,
}

-- An edge leads from the frontier to `x`.
unfoldable pub leads : Edges → List String → String → Bool
leads [] frontier x = false
leads ((i, d) ∷ edges) frontier x = (contains frontier i && d == x) || leads edges frontier x

union_values-put :
    (found : Dict (List String)) (i d x : String)
    → contains (union_values (put found i (add_text d (get_with found i [])))) x
      ≡ ((d == x) || contains (union_values found) x)
unfolding union_values put get contains
union_values-put [] i d x =
    ground (arith, contains-update [] (add_text d []) x, contains-add_text d [] x)
union_values-put ((k, v) ∷ found) i d x = ground (
  arith,
  eq_iff k i,
  union_values-put found i d x,
  contains-add_text d v x,
  contains-update (union_values found) (add_text d v) x,
  contains-update (union_values found) v x,
  contains-update (union_values (put found i (add_text d (get_with found i [])))) v x,
)

collect_edges-leads :
    (wanted : List String) (found : Dict (List String)) (edges : Edges) (x : String)
    → contains (union_values (collect_edges wanted found edges)) x
      ≡ (contains (union_values found) x || leads edges wanted x)
unfolding collect_edges leads
collect_edges-leads wanted found [] x = ground arith
collect_edges-leads wanted found ((i, d) ∷ edges) x =
    let more = put found i (add_text d (get_with found i [])) in
    ground (
      arith,
      collect_edges-leads wanted more edges x,
      collect_edges-leads wanted found edges x,
      union_values-put found i d x,
    )

union_values-empty :
    (found : Dict (List String)) (i x : String)
    → contains (union_values found) x ≡ false
    → contains (union_values (put found i [])) x ≡ false
unfolding union_values put update contains
union_values-empty [] i x h = refl
union_values-empty ((k, v) ∷ found) i x h = ground (
  arith,
  h,
  contains-update (union_values found) v x,
  union_values-empty found i x,
  contains-update (union_values (put found i [])) v x,
)

no_edges-empty :
    (wanted : List String) (x : String) → contains (union_values (no_edges wanted)) x ≡ false
unfolding no_edges union_values contains
no_edges-empty [] x = refl
no_edges-empty (i ∷ wanted) x = union_values-empty (no_edges wanted) i x (no_edges-empty wanted x)

-- The next frontier: what an edge leads to and was not seen.
pub next_frontier-leads :
    (edges : Edges) (seen frontier : List String) (x : String)
    → contains (next_frontier edges seen frontier) x
      ≡ (leads edges frontier x && not (contains seen x))
unfolding next_frontier prerequisites_map
next_frontier-leads edges seen frontier x =
    let found = union_values (collect_edges frontier (no_edges frontier) edges) in
    ground (
      arith,
      contains-sort_texts (difference found seen) x,
      contains-difference found seen x,
      collect_edges-leads frontier (no_edges frontier) edges x,
      no_edges-empty frontier x,
    )

pub leads-has_edge :
    (edges : Edges) (frontier : List String) (a b : String)
    → contains frontier a ≡ true
    → has_edge edges a b ≡ true
    → leads edges frontier b ≡ true
unfolding leads has_edge
leads-has_edge [] frontier a b from edge = edge
leads-has_edge ((i, d) ∷ edges) frontier a b from edge = ground (
  arith,
  eq_iff i a,
  from,
  edge,
  ap (contains frontier) {x = i} {y = a},
  leads-has_edge edges frontier a b from,
)

pub leads-from :
    (edges : Edges) (frontier : List String) (b : String)
    → leads edges frontier b ≡ true
    → (a : String) × (contains frontier a ≡ true) × (has_edge edges a b ≡ true)
unfolding leads has_edge
leads-from [] frontier b there = ground (arith, there)
leads-from ((i, d) ∷ edges) frontier b there = elim (Bool-cases (contains frontier i && d == b)) [
  | inl here ↦ (i, ground (arith, here), ground (arith, eq_refl i, here))
  | inr later ↦
      let (a, from, edge) = leads-from edges frontier b (ground (arith, there, later)) in
      (a, from, ground (arith, edge))
]

-- The prerequisites that were not seen yet, counted by edge.
unfoldable pub unseen : Edges → List String → ℕ
unseen [] seen = 0
unseen ((i, d) ∷ edges) seen =
    if contains seen d then unseen edges seen else suc (unseen edges seen)

pub unseen_bounded : (edges : Edges) (seen : List String) → unseen edges seen ≤ length edges
unfolding unseen
unseen_bounded [] seen = omega arith
unseen_bounded ((i, d) ∷ edges) seen = ground (arith, unseen_bounded edges seen)

pub unseen-update :
    (edges : Edges) (seen frontier : List String)
    → unseen edges (update seen frontier) ≤ unseen edges seen
unfolding unseen
unseen-update [] seen frontier = omega arith
unseen-update ((i, d) ∷ edges) seen frontier =
    ground (arith, contains-update seen frontier d, unseen-update edges seen frontier)

-- A new prerequisite in the frontier leaves fewer of them.
pub unseen-decreases :
    (edges : Edges) (seen frontier from : List String) (x : String)
    → contains seen x ≡ false
    → contains frontier x ≡ true
    → leads edges from x ≡ true
    → unseen edges (update seen frontier) < unseen edges seen
unfolding unseen leads
unseen-decreases [] seen frontier from x fresh in_front there = ground (arith, there)
unseen-decreases ((i, d) ∷ edges) seen frontier from x fresh in_front there = ground (
  arith,
  eq_iff d x,
  fresh,
  in_front,
  there,
  contains-update seen frontier d,
  contains-update seen frontier x,
  ap (contains seen) {x = d} {y = x},
  ap (contains frontier) {x = d} {y = x},
  unseen-update edges seen frontier,
  unseen-decreases edges seen frontier from x fresh in_front,
)
