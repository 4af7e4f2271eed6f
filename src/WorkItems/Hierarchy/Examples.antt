-- ===== src/WorkItems/Hierarchy/Examples.antt =====
-- A feature, and items that are saved beside it.
use mathlib.Core.Option.{some_inj}
use lore_eden.Prelude.{String, ◌≡◌, refl, inl, inr, Bool, [], ◌∷◌, ◌==◌, arith, subst, Bool-cases}
use lore_eden.Prelude.Int.{pos}
use lore_eden.Prelude.Index.{contains}
use lore_eden.Prelude.Dict.{Dict, get}
use lore_eden.Cache.{DictCache, empty, dict_cache}
use lore_eden.Cache.Invalidation.{IsWell}
use lore_eden.WorkItems.Hierarchy.{
  WorkItemType, feature, capability, any_type, WorkItemRecord, StateVocabulary, save,
}
use lore_eden.WorkItems.Hierarchy.Saving.{IsPlaced, IsHierarchy, Saves, save-Saves}
use lore_eden.WorkItems.Hierarchy.Levels.{
  IsUnder, no_item-IsUnder_itself, save-IsHierarchy, save-own_parent,
}

abbrev item : WorkItemType → String → String → WorkItemRecord
item type id parent_id = record {
  external_id = "LE-1";
  title = "title";
  item_type = type;
  state = "open";
  id = id;
  parent_id = parent_id;
  cycle_id = "";
  priority = pos 3;
  description = "";
  created_at = 1;
  updated_at = 1;
}

abbrev states : StateVocabulary
states = record { states = "open" ∷ "done" ∷ []; done = "done" ∷ [] }

abbrev items : Dict WorkItemRecord
items = ("f", item feature "f" "") ∷ []

abbrev nothing_cached : DictCache Bool
nothing_cached = empty

empty-IsWell : IsWell nothing_cached
unfolding get
empty-IsWell = record { distinct = tt; same_keys = λ k. refl; tagged = λ k e. ground (arith, e) }

items-IsHierarchy : IsHierarchy items
unfolding get
items-IsHierarchy id other there = elim (Bool-cases ("f" == id)) [
  | inl same ↦
      let is : item feature "f" "" ≡ other = some_inj.0 (ground (arith, there, same)) in
      subst (IsPlaced items) is (inl refl)
  | inr apart ↦ ground (arith, there, apart)
]

save-Saves_example :
    Saves states items nothing_cached
      (item capability "c" "f")
      (save dict_cache states items nothing_cached (item capability "c" "f"))
save-Saves_example = save-Saves states items nothing_cached (item capability "c" "f") empty-IsWell

save-IsHierarchy_example :
    IsHierarchy (save dict_cache states items nothing_cached (item capability "c" "f")).1.0
unfolding get
save-IsHierarchy_example =
    save-IsHierarchy states items nothing_cached (item capability "c" "f") items-IsHierarchy
      empty-IsWell (λ old there. ground (arith, there))

no_item-IsUnder_itself_example : ¬ (IsUnder items "f" "f")
no_item-IsUnder_itself_example = no_item-IsUnder_itself items "f" items-IsHierarchy

save-own_parent_example :
    IsUnder (save dict_cache states items nothing_cached (item capability "f" "f")).1.0 "f" "f"
unfolding get any_type contains
save-own_parent_example =
    save-own_parent states items nothing_cached (item capability "f" "f") (item feature "f" "")
      empty-IsWell refl refl refl refl refl
