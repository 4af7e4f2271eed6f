-- ===== src/WorkItems/Dependencies/Search.antt =====
-- The search of `_reaches` ends within its fuel, and finds the target if and only if a chain of
-- prerequisites leads there.
use lore_eden.Prelude.{
  ℕ, zero, suc, ◌<◌, String, ◌≡◌, refl, ap, ◌⊎◌, ◌↔◌, inl, inr, Bool, true, false, ◌||◌, Option,
  some, List, [], ◌∷◌, length, arith, eq_iff, eq_refl, Bool-cases,
}
use lore_eden.Prelude.Index.{contains}
use lore_eden.Prelude.Sets.{update, contains-update}
use lore_eden.WorkItems.Dependencies.{Edges, has_edge, next_frontier, search, reaches}
use lore_eden.WorkItems.Dependencies.Frontier.{
  leads, unseen, next_frontier-leads, leads-has_edge, leads-from, unseen_bounded, unseen-decreases,
}

-- `a` waits for `b`, directly or through others.
pub data Waits (edges : Edges) : String → String → Type 0 where
  direct : {a b : String} → has_edge edges a b ≡ true → Waits edges a b
  through : {a b c : String} → has_edge edges a b ≡ true → Waits edges b c → Waits edges a c

module _ (edges : Edges) (start target : String) where
  -- What the loop keeps: the target was not seen, what was seen leads only to what was seen or
  -- stands in the frontier, and so does the start; the frontier is led to from the start.
  record IsAhead (seen frontier : List String) : Type 0 where
    fresh : (x : String) → contains frontier x ≡ true → contains seen x ≡ false
    missed : contains seen target ≡ false
    closed :
        (x y : String)
        → contains seen x ≡ true
        → has_edge edges x y ≡ true
        → (contains seen y || contains frontier y) ≡ true
    started : (contains seen start || contains frontier start) ≡ true
    sound : (x : String) → contains frontier x ≡ true → (start ≡ x) ⊎ Waits edges start x

  Waits-snoc : {a b c : String} → Waits edges a b → has_edge edges b c ≡ true → Waits edges a c
  Waits-snoc (Waits.direct e) f = Waits.through e (Waits.direct f)
  Waits-snoc (Waits.through e w) f = Waits.through e (Waits-snoc w f)

  next-IsAhead :
      (seen frontier : List String)
      → IsAhead seen frontier
      → contains frontier target ≡ false
      → IsAhead (update seen frontier) (next_frontier edges (update seen frontier) frontier)
  next-IsAhead seen frontier h other = record {
    fresh = λ x e. ground (arith, next_frontier-leads edges (update seen frontier) frontier x, e);
    missed = ground (arith, contains-update seen frontier target, h.missed, other);
    closed = λ x y there edge. ground (
      arith,
      contains-update seen frontier x,
      contains-update seen frontier y,
      there,
      edge,
      h.closed x y,
      next_frontier-leads edges (update seen frontier) frontier y,
      leads-has_edge edges frontier x y,
    );
    started = ground (arith, contains-update seen frontier start, h.started);
    sound = λ x e.
        let (a, from, edge) =
          leads-from edges frontier x
            (ground (arith, next_frontier-leads edges (update seen frontier) frontier x, e)) in
        inr (elim (h.sound a from) [
          | inl same ↦ Waits.direct (rw same edge)
          | inr before ↦ Waits-snoc before edge
        ]);
  }

  -- Nothing is ahead: everything that the start waits for was seen.
  Waits-seen :
      (seen : List String) {a b : String}
      → IsAhead seen []
      → contains seen a ≡ true
      → Waits edges a b
      → contains seen b ≡ true
  unfolding contains
  Waits-seen seen {a} {b} h there (Waits.direct e) = ground (arith, h.closed a b there e)
  Waits-seen seen {a} h there (Waits.through {b} e w) =
      Waits-seen seen h (ground (arith, h.closed a b there e)) w

  abbrev Reached : Type 0
  Reached = (start ≡ target) ⊎ Waits edges start target

  not_reached : (seen : List String) → IsAhead seen [] → ¬ Reached
  unfolding contains
  not_reached seen h (inl same) =
      absurd (ground (arith, h.started, h.missed, ap (contains seen) same))
  not_reached seen h (inr w) =
      absurd (ground (arith, Waits-seen seen h (ground (arith, h.started)) w, h.missed))

  -- The search ended with an answer, which is right.
  abbrev Decides : Option Bool → Type 0
  Decides o = (b : Bool) × (o ≡ some b) × ((b ≡ true) ↔ Reached)

  search-Decides :
      (fuel : ℕ) (seen frontier from : List String)
      → IsAhead seen frontier
      → ((x : String) → contains frontier x ≡ true → leads edges from x ≡ true)
      → unseen edges seen < fuel
      → Decides (search edges target fuel seen frontier)
  unfolding search
  search-Decides zero seen frontier from h there enough = absurd (omega (arith, enough))
  search-Decides (suc fuel) seen [] from h there enough =
      (false, refl, (λ e. ground (arith, e), λ r. absurd (not_reached seen h r)))
  search-Decides (suc fuel) seen (x ∷ frontier) from h there enough =
      elim (Bool-cases (contains (x ∷ frontier) target)) [
        | inl found ↦ (true, rw found refl, (λ e. h.sound target found, λ r. refl))
        | inr other ↦
            let seen' = update seen (x ∷ frontier) in
            let first : contains (x ∷ frontier) x ≡ true = unfold contains in rw eq_refl refl in
            let fewer =
              unseen-decreases edges seen (x ∷ frontier) from x (h.fresh x first) first
                (there x first) in
            let (b, ran, right) =
              search-Decides fuel seen' (next_frontier edges seen' (x ∷ frontier)) (x ∷ frontier)
                (next-IsAhead seen (x ∷ frontier) h other)
                (λ y e. ground (arith, next_frontier-leads edges seen' (x ∷ frontier) y, e))
                (omega (arith, fewer, enough)) in
            (b, rw other ran, right)
      ]

  start-IsAhead : IsAhead [] (start ∷ [])
  unfolding contains
  start-IsAhead = record {
    fresh = λ x e. refl;
    missed = refl;
    closed = λ x y there edge. ground (arith, there);
    started = rw eq_refl refl;
    sound = λ x e. inl ((eq_iff start x).0 (ground (arith, e)));
  }

  -- `_reaches` ends within its fuel with an answer, which is true if and only if the start is the
  -- target or waits for it, directly or through others.
  pub reaches-Decides :
      (b : Bool) × (reaches edges start target ≡ some b)
      × ((b ≡ true) ↔ ((start ≡ target) ⊎ Waits edges start target))
  unfolding reaches search
  reaches-Decides = elim (Bool-cases (contains (start ∷ []) target)) [
    | inl found ↦ (true, rw found refl, (λ e. start-IsAhead.sound target found, λ r. refl))
    | inr other ↦
        let seen = update [] (start ∷ []) in
        let (b, ran, right) =
          search-Decides (suc (length edges)) seen (next_frontier edges seen (start ∷ []))
            (start ∷ []) (next-IsAhead [] (start ∷ []) start-IsAhead other)
            (λ y e. ground (arith, next_frontier-leads edges seen (start ∷ []) y, e))
            (omega (arith, unseen_bounded edges seen)) in
        (b, rw other ran, right)
  ]
