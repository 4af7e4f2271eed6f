-- ===== src/Workflow/Transitions/Sound.antt =====
-- Which transition `resolve_transition_target` follows.
use mathlib.Core.List.{Mem, mem-cons_self, mem-cons_of_mem}
use lore_eden.Prelude.{
  String, ◌≡◌, ◌⊎◌, refl, Bool, true, false, Option, none, some, List, [], ◌∷◌, arith, inl, inr,
  ◌==◌, eq_iff, select, mem-select, Bool-cases, Option-cases,
}
use lore_eden.Workflow.Models.{reject, outcome_value}
use lore_eden.Workflow.Transitions.{
  Transition, transition_when, target, leaves, pick_when, pick, with_target, lone, or_else,
  pass_values, is_legacy, is_not_reject, route_matches, resolve_transition_target,
}

-- A transition of the list that has the target, which is not empty, and that is a reject edge
-- exactly when the outcome is a reject.
record Follows (items : List Transition) (outcome : String) (r : String × String) : Type 0 where
  item : Transition
  listed : Mem item items
  reached : target item ≡ r
  named : (r.0 == "") ≡ false
  verdict : (transition_when item == outcome_value reject) ≡ (outcome == outcome_value reject)

-- A transition with one of the given values of `when`.
record Picked (items : List Transition) (when : String) (r : String × String) : Type 0 where
  item : Transition
  listed : Mem item items
  reached : target item ≡ r
  same : transition_when item ≡ when

Picked-cons :
    (i : Transition) {items : List Transition} {when : String} {r : String × String}
    → Picked items when r
    → Picked (i ∷ items) when r
Picked-cons i p = record {
  item = p.item;
  listed = mem-cons_of_mem i p.listed;
  reached = p.reached;
  same = p.same;
}

pick_when-Picked :
    (when : String) (items : List Transition) (r : String × String)
    → pick_when when items ≡ some r
    → Picked items when r
unfolding pick_when
pick_when-Picked when [] r h = cc
pick_when-Picked when (i ∷ items) r h = elim (Bool-cases (transition_when i == when)) [
  | inl e ↦ record {
    item = i;
    listed = mem-cons_self;
    reached = ground arith;
    same = (eq_iff _ _).0 e;
  }
  | inr e ↦ Picked-cons i (pick_when-Picked when items r (rw e at h))
]

with_target-eq-some :
    (o : Option (String × String)) (r : String × String)
    → with_target o ≡ some r
    → (o ≡ some r) × ((r.0 == "") ≡ false)
with_target-eq-some none r h = cc
with_target-eq-some (some q) r h = ground arith

module _ (items : List Transition) where
  reject-Follows :
      (outcome : String) (r : String × String)
      → (outcome == outcome_value reject) ≡ true
      → with_target (pick (outcome_value reject ∷ []) items) ≡ some r
      → Follows items outcome r
  unfolding pick
  reject-Follows outcome r rejects h =
      let (found, named) = with_target-eq-some (pick (outcome_value reject ∷ []) items) r h in
      let p = pick_when-Picked (outcome_value reject) items r (ground arith) in
      record {
        item = p.item;
        listed = p.listed;
        reached = p.reached;
        named = named;
        verdict = rw (p.same, rejects);
      }

  pick_pass-Picked :
      (r : String × String)
      → pick pass_values items ≡ some r
      → (w : String) × Picked items w r × ((w == outcome_value reject) ≡ false)
  unfolding pick
  pick_pass-Picked r h = elim (Option-cases (pick_when "pass" items)) [
    | inl e ↦ elim (Option-cases (pick_when "default" items)) [
      | inl e' ↦ ("", pick_when-Picked "" items r (ground arith), refl)
      | inr (q, e') ↦ ("default", pick_when-Picked "default" items r (ground arith), refl)
    ]
    | inr (q, e) ↦ ("pass", pick_when-Picked "pass" items r (ground arith), refl)
  ]

  pass-Follows :
      (outcome : String) (r : String × String)
      → (outcome == outcome_value reject) ≡ false
      → with_target (pick pass_values items) ≡ some r
      → Follows items outcome r
  pass-Follows outcome r passes h =
      let (found, named) = with_target-eq-some (pick pass_values items) r h in
      let (w, p, other) = pick_pass-Picked r found in
      record {
        item = p.item;
        listed = p.listed;
        reached = p.reached;
        named = named;
        verdict = rw (p.same, passes, other);
      }

-- The one transition of a list, when the test that selected it excludes reject edges.
lone-Follows :
    (p : Transition → Bool) (items : List Transition) (outcome : String) (r : String × String)
    → ((i : Transition) → p i ≡ true → (transition_when i == outcome_value reject) ≡ false)
    → (outcome == outcome_value reject) ≡ false
    → lone (select p items) ≡ some r
    → Follows items outcome r
lone-Follows p items outcome r excludes passes h = go (select p items) refl h
  where
    go : (l : List Transition) → select p items ≡ l → lone l ≡ some r → Follows items outcome r
    go [] e k = cc
    go (i ∷ []) e k =
        let (found, named) = with_target-eq-some (some (target i)) r k in
        let same : target i ≡ r = cc in
        let (listed, kept) = mem-select p items (rw e mem-cons_self) in
        record {
          item = i;
          listed = listed;
          reached = same;
          named = named;
          verdict = rw passes (excludes i kept);
        }
    go (i ∷ j ∷ l) e k = cc

legacy_excludes :
    (i : Transition) → is_legacy i ≡ true → (transition_when i == outcome_value reject) ≡ false
legacy_excludes i h = rw ((eq_iff _ _).0 h)

not_reject_excludes :
    (i : Transition) → is_not_reject i ≡ true → (transition_when i == outcome_value reject) ≡ false
not_reject_excludes i h = ground arith

or_else-eq-some :
    (o later : Option (String × String)) (r : String × String)
    → or_else o later ≡ some r
    → (o ≡ some r) ⊎ (later ≡ some r)
or_else-eq-some none later r h = inr h
or_else-eq-some (some q) later r h = inl h

route_matches-Follows :
    (items : List Transition) (outcome : String) (r : String × String)
    → route_matches items outcome ≡ some r
    → Follows items outcome r
unfolding route_matches
route_matches-Follows [] outcome r h = cc
route_matches-Follows (i ∷ items) outcome r h =
    elim (Bool-cases (outcome == outcome_value reject)) [
      | inl e ↦ reject-Follows (i ∷ items) outcome r e (rw e at h)
      | inr e ↦ elim (or_else-eq-some _ _ r (rw e at h)) [
        | inl passed ↦ pass-Follows (i ∷ items) outcome r e passed
        | inr rest ↦ elim (or_else-eq-some _ _ r rest) [
          | inl legacy ↦ lone-Follows is_legacy (i ∷ items) outcome r legacy_excludes e legacy
          | inr other ↦ lone-Follows is_not_reject (i ∷ items) outcome r not_reject_excludes e other
        ]
      ]
    ]

-- The transition behind a target, in the template's own list.
pub record Routes (transitions : List Transition) (from_key outcome : String) (r : String × String)
    : Type 0 where
  pub item : Transition
  pub listed : Mem item transitions
  pub source : leaves from_key item ≡ true
  pub reached : target item ≡ r
  pub named : (r.0 == "") ≡ false
  pub verdict : (transition_when item == outcome_value reject) ≡ (outcome == outcome_value reject)

-- The target that `resolve_transition_target` returns is that of a transition of the list which
-- leaves the given stage, is not empty, and belongs to a reject edge exactly when the outcome is a
-- reject: a pass never follows a rework edge, and a reject follows nothing else.
pub resolve_transition_target-Routes :
    (transitions : List Transition) (from_key outcome : String) (r : String × String)
    → resolve_transition_target transitions from_key outcome ≡ some r
    → Routes transitions from_key outcome r
unfolding resolve_transition_target
resolve_transition_target-Routes transitions from_key outcome r h =
    let f = route_matches-Follows (select (leaves from_key) transitions) outcome r h in
    let (listed, source) = mem-select (leaves from_key) transitions f.listed in
    record {
      item = f.item;
      listed = listed;
      source = source;
      reached = f.reached;
      named = f.named;
      verdict = f.verdict;
    }
