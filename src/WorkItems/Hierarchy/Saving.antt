-- ===== src/WorkItems/Hierarchy/Saving.antt =====
-- What `save` accepts, and what it leaves.
use mathlib.Core.Bool.{false≢true}
use mathlib.Core.Option.{some_inj}
use lore_eden.Prelude.{
  String, ◌≡◌, refl, sym, ap, ◌∙◌, ◌⊎◌, inl, inr, true, false, Option, none, some, ◌==◌, arith,
  eq_iff, Bool-cases,
}
use lore_eden.Prelude.Index.{contains}
use lore_eden.Prelude.Dict.{Dict, get, put}
use lore_eden.Prelude.Result.{ok, raised}
use lore_eden.Cache.{DictCache, dict_cache}
use lore_eden.Cache.Invalidation.{IsWell, dict_invalidate_tags-Invalidated}
use lore_eden.WorkItems.Hierarchy.{
  WorkItemType, milestone, feature, capability, task, bug, valid_children, is_type, any_type,
  WorkItemRecord, StateVocabulary, WorkItemError, root_with_parent, unknown_state, wrong_parent,
  parent_error, check_parent, tags_of_write, Outcome, save,
}

-- An item may hang where it says: nowhere, or under a stored item whose type takes its type.
abbrev pub IsPlaced : Dict WorkItemRecord → WorkItemRecord → Type 0
IsPlaced items item =
    (item.parent_id ≡ "")
    ⊎ ((parent : WorkItemRecord) × (get items item.parent_id ≡ some parent)
        × (any_type (valid_children parent.item_type) item.item_type ≡ true))

-- Every stored item is placed.
abbrev pub IsHierarchy : Dict WorkItemRecord → Type 0
IsHierarchy items =
    (id : String) (item : WorkItemRecord) → get items id ≡ some item → IsPlaced items item

-- No type takes a milestone.
no_milestone : (s : WorkItemType) → any_type (valid_children s) milestone ≡ false
unfolding any_type
no_milestone milestone = refl
no_milestone feature = refl
no_milestone capability = refl
no_milestone task = refl
no_milestone bug = refl

is_type_lem : (s t : WorkItemType) → is_type s t ≡ true → s ≡ t
is_type_lem milestone milestone e = refl
is_type_lem feature feature e = refl
is_type_lem capability capability e = refl
is_type_lem task task e = refl
is_type_lem bug bug e = refl
is_type_lem s t e = absurd (false≢true e)

-- What a check says of an item: it passes, and the item is placed, or neither.
abbrev Checks : Dict WorkItemRecord → WorkItemRecord → Option WorkItemError → Type 0
Checks items item o =
    ((o ≡ none) × IsPlaced items item)
    ⊎ ((e : WorkItemError) × (o ≡ some e) × ¬ (IsPlaced items item))

unplaced :
    (items : Dict WorkItemRecord) (item : WorkItemRecord)
    → (item.parent_id == "") ≡ false
    → ((parent : WorkItemRecord)
        → get items item.parent_id ≡ some parent
        → any_type (valid_children parent.item_type) item.item_type ≡ false)
    → ¬ (IsPlaced items item)
unplaced items item named refused (inl root) = false≢true (sym named ∙ (eq_iff _ _).1 root)
unplaced items item named refused (inr (parent, there, allowed)) =
    false≢true (sym (refused parent there) ∙ allowed)

parent_error-Checks :
    (items : Dict WorkItemRecord) (item : WorkItemRecord) (found : Option WorkItemRecord)
    → (item.parent_id == "") ≡ false
    → get items item.parent_id ≡ found
    → Checks items item (parent_error item found)
parent_error-Checks items item none named missing =
    inr (_, refl, unplaced items item named λ parent there. ground (arith, missing, there))
parent_error-Checks items item (some parent) named there =
    elim (Bool-cases (any_type (valid_children parent.item_type) item.item_type)) [
      | inl allowed ↦ inl (rw allowed refl, inr (parent, there, allowed))
      | inr refused ↦ inr (
        wrong_parent parent.item_type item.item_type,
        rw refused refl,
        unplaced items item named λ other there'.
            ap (λ p. any_type (valid_children p.item_type) item.item_type)
              (some_inj.0 (sym there' ∙ there))
            ∙ refused,
      )
    ]

-- `_check_parent` raises nothing if and only if the item is placed.
check_parent-Checks :
    (items : Dict WorkItemRecord) (item : WorkItemRecord)
    → Checks items item (check_parent items item)
unfolding check_parent
check_parent-Checks items item = elim (Bool-cases (item.parent_id == "")) [
  | inl root ↦ rw root (inl (refl, inl ((eq_iff _ _).0 root)))
  | inr named ↦ elim (Bool-cases (is_type item.item_type milestone)) [
    | inl top ↦
        rw (named, top)
          (inr (
            root_with_parent,
            refl,
            unplaced items item named (λ parent there.
                ap (any_type (valid_children parent.item_type))
                  (is_type_lem item.item_type milestone top)
                ∙ no_milestone parent.item_type),
          ))
    | inr lower ↦ rw (named, lower) (parent_error-Checks items item _ named refl)
  ]
]

-- What a call of `save` through a `DictCache` comes to: the item is stored under its id, with a
-- state of the vocabulary and a place in the hierarchy, or nothing changed and it lacks one of them.
abbrev pub Saves :
    StateVocabulary
    → Dict WorkItemRecord
    → {V : Type 0} → DictCache V
    → WorkItemRecord
    → Outcome (dict_cache {V = V})
    → Type 0
Saves vocabulary items {V} c item o =
    ((c' : DictCache V) × (o ≡ (ok item, (put items item.id item, c')))
      × IsWell c'
      × (contains vocabulary.states item.state ≡ true)
      × IsPlaced items item)
    ⊎ ((e : WorkItemError) × (o ≡ (raised e, (items, c)))
        × ¬ ((contains vocabulary.states item.state ≡ true) × IsPlaced items item))

module _ {V : Type 0} (vocabulary : StateVocabulary) (items : Dict WorkItemRecord)
    (c : DictCache V) where
  -- On a cache whose dicts agree, `save` stores the item under its id if its state is in the
  -- vocabulary and its parent may hold it, and otherwise raises and leaves the items and the cache
  -- as they were.
  pub save-Saves :
      (item : WorkItemRecord)
      → IsWell c
      → Saves vocabulary items c item (save dict_cache vocabulary items c item)
  unfolding save
  save-Saves item w = elim (Bool-cases (contains vocabulary.states item.state)) [
    | inr unknown ↦ rw unknown (inr (unknown_state item.state, refl, λ both. false≢true (both.0)))
    | inl known ↦ elim (check_parent-Checks items item) [
      | inr (e, ran, other) ↦ rw (known, ran) (inr (e, refl, λ both. other both.1))
      | inl (ran, placed) ↦
          let (r, dropped, inv) =
            dict_invalidate_tags-Invalidated c (tags_of_write item (get items item.id)) w in
          rw (known, ran, dropped) (inl (r.0, refl, inv.well, refl, placed))
    ]
  ]
