-- ===== src/WorkItems/Dependencies/Acyclic.antt =====
-- `add_dependency` keeps the dependencies free of cycles, and refuses nothing else.
use mathlib.Core.Bool.{false≢true}
use mathlib.Core.Option.{some_inj}
use lore_eden.Prelude.{
  String, ◌≡◌, refl, sym, ap, ◌∙◌, subst, ◌⊎◌, ◌↔◌, inl, inr, Bool, true, false, Option, some, [],
  ◌∷◌, ◌==◌, arith, eq_iff, eq_refl, Bool-cases,
}
use lore_eden.Prelude.Result.{Result, ok, raised}
use lore_eden.WorkItems.Dependencies.{
  Edges, DependencyError, self_edge, closes_cycle, has_edge, store_dependency, discard,
  remove_dependency, Outcome, stored, refuse_or_store, add_dependency,
}
use lore_eden.WorkItems.Dependencies.Search.{Waits, reaches-Decides}

-- No item waits for itself.
abbrev pub IsAcyclic : Edges → Type 0
IsAcyclic edges = (a : String) → ¬ (Waits edges a a)

abbrev Reaches : Edges → String → String → Type 0
Reaches edges a b = (a ≡ b) ⊎ Waits edges a b

before :
    (edges : Edges) {a b c : String}
    → has_edge edges a b ≡ true
    → Reaches edges b c
    → Reaches edges a c
before edges {a} e (inl same) = inr (subst (λ c. Waits edges a c) same (Waits.direct e))
before edges e (inr w) = inr (Waits.through e w)

-- An edge of the longer list is the new one or an old one.
old_or_new :
    (edges : Edges) (a b x y : String)
    → has_edge ((a, b) ∷ edges) x y ≡ true
    → (has_edge edges x y ≡ true) ⊎ ((a ≡ x) × (b ≡ y))
unfolding has_edge
old_or_new edges a b x y e = elim (Bool-cases (has_edge edges x y)) [
  | inl old ↦ inl old
  | inr other ↦
      inr ((eq_iff a x).0 (ground (arith, e, other)), (eq_iff b y).0 (ground (arith, e, other)))
]

-- A chain over the longer list avoids the new edge, or leads to its start and on from its end.
around :
    (edges : Edges) (a b : String) {x y : String}
    → Waits ((a, b) ∷ edges) x y
    → Waits edges x y ⊎ (Reaches edges x a × Reaches edges b y)
around edges a b {x} {y} (Waits.direct e) = elim (old_or_new edges a b x y e) [
  | inl old ↦ inl (Waits.direct old)
  | inr (p, q) ↦ inr (inl (sym p), inl q)
]
around edges a b {x} {y} (Waits.through {b = z} e w) = elim (old_or_new edges a b x z e) [
  | inl old ↦ elim (around edges a b w) [
    | inl rest ↦ inl (Waits.through old rest)
    | inr (to_a, from_b) ↦ inr (before edges old to_a, from_b)
  ]
  | inr (p, q) ↦ elim (around edges a b w) [
    | inl rest ↦ inr (inl (sym p), inr (subst (λ s. Waits edges s y) (sym q) rest))
    | inr (to_a, from_b) ↦ inr (inl (sym p), from_b)
  ]
]

joined :
    (edges : Edges) {a b c : String} → Reaches edges a b → Reaches edges b c → Reaches edges a c
joined edges {a} {b} {c} (inl same) r = subst (λ s. Reaches edges s c) (sym same) r
joined edges (inr (Waits.direct e)) r = before edges e r
joined edges (inr (Waits.through e w)) r = before edges e (joined edges (inr w) r)

-- An edge from `a` to `b` closes no cycle if `b` does not lead to `a`.
new_edge-IsAcyclic :
    (edges : Edges) (a b : String)
    → IsAcyclic edges
    → ¬ (Reaches edges b a)
    → IsAcyclic ((a, b) ∷ edges)
new_edge-IsAcyclic edges a b acyclic apart x w = elim (around edges a b w) [
  | inl old ↦ acyclic x old
  | inr (to_a, from_b) ↦ apart (joined edges from_b to_a)
]

longer :
    (edges : Edges) (a b : String) {x y : String} → Waits edges x y → Waits ((a, b) ∷ edges) x y
unfolding has_edge
longer edges a b (Waits.direct e) = Waits.direct (ground (arith, e))
longer edges a b (Waits.through e w) = Waits.through (ground (arith, e)) (longer edges a b w)

-- What a call to add an edge comes to: the edge is there and there is still no cycle, or it was
-- refused, nothing changed, and with it the first item would have waited for itself.
abbrev pub Guards : Edges → String → String → Option Outcome → Type 0
Guards edges a b o =
    ((added : Bool) × (edges' : Edges) × (o ≡ some (ok added, edges'))
      × IsAcyclic edges'
      × (has_edge edges' a b ≡ true))
    ⊎ ((e : DependencyError) × (o ≡ some (raised e, edges)) × Waits ((a, b) ∷ edges) a a)

new_edge : (edges : Edges) (a b : String) → has_edge ((a, b) ∷ edges) a b ≡ true
unfolding has_edge
new_edge edges a b = ground (arith, eq_refl a, eq_refl b)

store_dependency-Guards :
    (edges : Edges) (a b : String)
    → IsAcyclic edges
    → ¬ (Reaches edges b a)
    → Guards edges a b (some (stored (store_dependency edges a b)))
unfolding store_dependency
store_dependency-Guards edges a b acyclic apart = elim (Bool-cases (has_edge edges a b)) [
  | inl there ↦ inl (false, edges, rw there refl, acyclic, there)
  | inr missing ↦ inl (
    true,
    (a, b) ∷ edges,
    rw missing refl,
    new_edge-IsAcyclic edges a b acyclic apart,
    new_edge edges a b,
  )
]

-- The new edge and a way back make a cycle.
cycle_of : (edges : Edges) (a b : String) → Reaches edges b a → Waits ((a, b) ∷ edges) a a
cycle_of edges a b (inl same) =
    Waits.direct (subst (λ c. has_edge ((a, b) ∷ edges) a c ≡ true) same (new_edge edges a b))
cycle_of edges a b (inr w) = Waits.through (new_edge edges a b) (longer edges a b w)

-- From dependencies without a cycle, `add_dependency` always answers: either the edge is there
-- and there is still no cycle, or it raises, leaves the edges as they were, and with the edge the
-- item would have waited for itself.
pub add_dependency-Guards :
    (edges : Edges) (a b : String) → IsAcyclic edges → Guards edges a b (add_dependency edges a b)
unfolding add_dependency
add_dependency-Guards edges a b acyclic = elim (Bool-cases (a == b)) [
  | inl same ↦ inr (self_edge a, rw same refl, cycle_of edges a b (inl (sym ((eq_iff a b).0 same))))
  | inr other ↦
      let (there, ran, right) = reaches-Decides edges b a in
      rw (other, ran) (decided_by there right)
]
  where
    decided_by :
        (there : Bool)
        → ((there ≡ true) ↔ Reaches edges b a)
        → Guards edges a b (some (refuse_or_store edges a b there))
    decided_by true right = inr (closes_cycle b a, refl, cycle_of edges a b (right.0 refl))
    decided_by false right = store_dependency-Guards edges a b acyclic λ r. false≢true (right.1 r)

discard-has_edge :
    (edges : Edges) (a b x y : String)
    → has_edge (discard edges a b) x y ≡ true
    → has_edge edges x y ≡ true
unfolding discard has_edge
discard-has_edge [] a b x y e = e
discard-has_edge ((i, d) ∷ edges) a b x y e = ground (arith, e, discard-has_edge edges a b x y)

fewer :
    (edges : Edges) (a b : String) {x y : String} → Waits (discard edges a b) x y → Waits edges x y
fewer edges a b {x} {y} (Waits.direct e) = Waits.direct (discard-has_edge edges a b x y e)
fewer edges a b (Waits.through e w) =
    Waits.through (discard-has_edge edges a b _ _ e) (fewer edges a b w)

remove_dependency-IsAcyclic :
    (edges : Edges) (a b : String) → IsAcyclic edges → IsAcyclic (remove_dependency edges a b).1
unfolding remove_dependency
remove_dependency-IsAcyclic edges a b acyclic = elim (Bool-cases (has_edge edges a b)) [
  | inl there ↦ rw there (λ x w. acyclic x (fewer edges a b w))
  | inr missing ↦ rw missing acyclic
]

-- The edges that calls of the engine leave, from none.
pub data Built : Edges → Type 0 where
  none_yet : Built []
  with_edge :
      {edges edges' : Edges} {r : Result DependencyError Bool}
      → (a b : String) → Built edges
      → add_dependency edges a b ≡ some (r, edges')
      → Built edges'
  without_edge :
      {edges : Edges} → (a b : String) → Built edges → Built (remove_dependency edges a b).1

same_edges : {o o' : Outcome} → Path (Option Outcome) (some o) (some o') → o.1 ≡ o'.1
same_edges e = ap (λ o. o.1) (some_inj.0 e)

nothing_waits : IsAcyclic []
unfolding has_edge
nothing_waits a (Waits.direct e) = ground (arith, e)
nothing_waits a (Waits.through e w) = ground (arith, e)

-- Whatever edges were added and removed, refused calls included, no item waits for itself.
pub Built-IsAcyclic : (edges : Edges) → Built edges → IsAcyclic edges
Built-IsAcyclic edges Built.none_yet = nothing_waits
Built-IsAcyclic edges (Built.with_edge {edges = before} a b built e) =
    elim (add_dependency-Guards before a b (Built-IsAcyclic before built)) [
      | inl (was_new, edges', ran, acyclic, there) ↦
          subst IsAcyclic (same_edges (sym ran ∙ e)) acyclic
      | inr (error, ran, cycle) ↦
          subst IsAcyclic (same_edges (sym ran ∙ e)) (Built-IsAcyclic before built)
    ]
Built-IsAcyclic edges (Built.without_edge {edges = before} a b built) =
    remove_dependency-IsAcyclic before a b (Built-IsAcyclic before built)
