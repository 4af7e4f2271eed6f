-- ===== src/WorkItems/Hierarchy/Levels.antt =====
-- The stored items form a forest, unless an item that is saved again changes its type.
use mathlib.Core.Bool.{false≢true}
use mathlib.Core.Option.{some_inj}
use lore_eden.Prelude.{
  ℕ, ◌<◌, String, ◌≡◌, sym, ◌∙◌, subst, inl, inr, true, false, some, ◌==◌, arith, eq_iff, eq_refl,
  Bool-cases,
}
use lore_eden.Prelude.Index.{contains}
use lore_eden.Prelude.Dict.{Dict, get, put, get-put}
use lore_eden.Cache.{DictCache, dict_cache}
use lore_eden.Cache.Invalidation.{IsWell}
use lore_eden.WorkItems.Hierarchy.{
  WorkItemType, milestone, feature, capability, task, bug, valid_children, any_type, WorkItemRecord,
  StateVocabulary, save,
}
use lore_eden.WorkItems.Hierarchy.Saving.{IsPlaced, IsHierarchy, save-Saves}

abbrev depth : WorkItemType → ℕ
depth milestone = 0
depth feature = 1
depth capability = 2
depth task = 3
depth bug = 4

child-depth : (s t : WorkItemType) → any_type (valid_children s) t ≡ true → depth s < depth t
unfolding any_type
child-depth milestone feature e = omega arith
child-depth milestone bug e = omega arith
child-depth feature capability e = omega arith
child-depth feature bug e = omega arith
child-depth capability task e = omega arith
child-depth capability bug e = omega arith
child-depth s t e = absurd (false≢true e)

-- The first item hangs somewhere under the second.
pub data IsUnder (items : Dict WorkItemRecord) : String → String → Type 0 where
  child :
      {a b : String}
      → (item : WorkItemRecord) → get items a ≡ some item
      → item.parent_id ≡ b
      → (b == "") ≡ false
      → IsUnder items a b
  deeper :
      {a b c : String}
      → (item : WorkItemRecord) → get items a ≡ some item
      → item.parent_id ≡ b
      → (b == "") ≡ false
      → IsUnder items b c
      → IsUnder items a c

-- The parent that a placed item names, with its greater type.
parent_of :
    (items : Dict WorkItemRecord) (item : WorkItemRecord) {b : String}
    → IsPlaced items item
    → item.parent_id ≡ b
    → (b == "") ≡ false
    → (parent : WorkItemRecord) × (get items b ≡ some parent)
      × (depth parent.item_type < depth item.item_type)
parent_of items item (inl root) at named =
    absurd (false≢true (sym named ∙ (eq_iff _ _).1 (sym at ∙ root)))
parent_of items item (inr (parent, there, allowed)) at named =
    (parent, subst (λ k. get items k ≡ some parent) at there, child-depth _ _ allowed)

IsUnder-depth :
    (items : Dict WorkItemRecord) {a b : String} (item other : WorkItemRecord)
    → IsHierarchy items
    → IsUnder items a b
    → get items a ≡ some item
    → get items b ≡ some other
    → depth other.item_type < depth item.item_type
IsUnder-depth items {a} item other h (IsUnder.child i there at named) e f =
    let (parent, stored, less) = parent_of items i (h a i there) at named in
    let same : parent ≡ other = some_inj.0 (sym stored ∙ f) in
    let this : i ≡ item = some_inj.0 (sym there ∙ e) in
    subst (λ p. depth p.item_type < depth item.item_type) same
      (subst (λ r. depth parent.item_type < depth r.item_type) this less)
IsUnder-depth items {a} item other h (IsUnder.deeper i there at named under) e f =
    let (parent, stored, less) = parent_of items i (h a i there) at named in
    let this : i ≡ item = some_inj.0 (sym there ∙ e) in
    let rest = IsUnder-depth items parent other h under stored f in
    omega (arith, rest, subst (λ r. depth parent.item_type < depth r.item_type) this less)

stored_item :
    (items : Dict WorkItemRecord) {a b : String}
    → IsUnder items a b
    → (item : WorkItemRecord) × (get items a ≡ some item)
stored_item items (IsUnder.child i there at named) = (i, there)
stored_item items (IsUnder.deeper i there at named under) = (i, there)

-- If every stored item is placed, no item hangs under itself.
pub no_item-IsUnder_itself :
    (items : Dict WorkItemRecord) (a : String) → IsHierarchy items → ¬ (IsUnder items a a)
no_item-IsUnder_itself items a h under =
    let (item, there) = stored_item items under in
    let less = IsUnder-depth items item item h under there there in absurd (omega (arith, less))

module _ {V : Type 0} (vocabulary : StateVocabulary) (items : Dict WorkItemRecord) (c : DictCache V)
    (item : WorkItemRecord) where
  -- The item is new, or keeps the type that it had.
  abbrev pub KeepsType : Type 0
  KeepsType = (old : WorkItemRecord) → get items item.id ≡ some old → old.item_type ≡ item.item_type

  still-IsPlaced :
      (other : WorkItemRecord)
      → KeepsType
      → IsPlaced items other
      → IsPlaced (put items item.id item) other
  still-IsPlaced other kept (inl root) = inl root
  still-IsPlaced other kept (inr (parent, there, allowed)) =
      elim (Bool-cases (item.id == other.parent_id)) [
        | inr elsewhere ↦ inr (
          parent,
          ground (arith, get-put items item.id other.parent_id item, elsewhere, there),
          allowed,
        )
        | inl same ↦
            let at : item.id ≡ other.parent_id = (eq_iff _ _).0 same in
            let type : parent.item_type ≡ item.item_type =
              kept parent (subst (λ k. get items k ≡ some parent) (sym at) there) in
            inr (
              item,
              ground (arith, get-put items item.id other.parent_id item, same),
              subst (λ t. any_type (valid_children t) other.item_type ≡ true) type allowed,
            )
      ]

  put-IsHierarchy :
      IsHierarchy items → KeepsType → IsPlaced items item → IsHierarchy (put items item.id item)
  put-IsHierarchy h kept placed id other there = elim (Bool-cases (item.id == id)) [
    | inl same ↦
        let is : item ≡ other =
          some_inj.0 (ground (arith, get-put items item.id id item, same, there)) in
        subst (IsPlaced (put items item.id item)) is (still-IsPlaced item kept placed)
    | inr elsewhere ↦
        still-IsPlaced other kept
          (h id other (ground (arith, get-put items item.id id item, elsewhere, there)))
  ]

  -- If every stored item is placed, the dicts of the cache agree, and the item is new or keeps its
  -- type, then after `save`, whether it stores or raises, every stored item is placed.
  pub save-IsHierarchy :
      IsHierarchy items
      → IsWell c
      → KeepsType
      → IsHierarchy (save dict_cache vocabulary items c item).1.0
  save-IsHierarchy h w kept = elim (save-Saves vocabulary items c item w) [
    | inl (c', ran, well, known, placed) ↦ rw ran (put-IsHierarchy h kept placed)
    | inr (e, ran, refused) ↦ rw ran h
  ]

  -- On a cache whose dicts agree, an item with an id that is not empty and a state of the
  -- vocabulary, which is stored with a type that takes its new type, may be saved again with itself
  -- as its parent: after `save` it hangs under itself.
  pub save-own_parent :
      (old : WorkItemRecord)
      → IsWell c
      → get items item.id ≡ some old
      → any_type (valid_children old.item_type) item.item_type ≡ true
      → contains vocabulary.states item.state ≡ true
      → item.parent_id ≡ item.id
      → (item.id == "") ≡ false
      → IsUnder (save dict_cache vocabulary items c item).1.0 item.id item.id
  save-own_parent old w there allowed known own named =
      elim (save-Saves vocabulary items c item w) [
        | inr (e, ran, refused) ↦ absurd (
            refused
              (known, inr (old, subst (λ k. get items k ≡ some old) (sym own) there, allowed)))
        | inl (c', ran, well, known', placed) ↦ rw ran (
            IsUnder.child item (ground (arith, get-put items item.id item.id item, eq_refl item.id))
              own named)
      ]
