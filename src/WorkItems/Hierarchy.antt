-- ===== src/WorkItems/Hierarchy.antt =====
-- The hierarchy of python/lore_eden/work_items.py and the records of
-- python/lore_eden/store/records.py, over `InMemoryWorkItemStore` (python/lore_eden/store/memory.py).
pub mod Saving
pub mod Levels
mod Examples
use lore_eden.Prelude.{
  ℕ, String, Bool, true, false, ◌&&◌, ◌||◌, not, Option, none, some, List, [], ◌∷◌, ◌==◌,
  if◌then◌else◌,
}
use lore_eden.Prelude.Int.{ℤ}
use lore_eden.Prelude.Index.{contains}
use lore_eden.Prelude.Dict.{Dict, get, put}
use lore_eden.Prelude.Result.{Result, ok, raised}
use lore_eden.Prelude.Text.{concat}
use lore_eden.Prelude.Sets.{difference}
use lore_eden.Cache.{Cache, CacheError}

pub data WorkItemType : Type 0 where
  milestone : WorkItemType
  feature : WorkItemType
  capability : WorkItemType
  task : WorkItemType
  bug : WorkItemType

-- VALID_CHILDREN
abbrev pub valid_children : WorkItemType → List WorkItemType
valid_children milestone = feature ∷ bug ∷ []
valid_children feature = capability ∷ bug ∷ []
valid_children capability = task ∷ bug ∷ []
valid_children task = []
valid_children bug = []

abbrev pub type_value : WorkItemType → String
type_value milestone = "milestone"
type_value feature = "feature"
type_value capability = "capability"
type_value task = "task"
type_value bug = "bug"

abbrev pub is_type : WorkItemType → WorkItemType → Bool
is_type s t = type_value s == type_value t

-- `t in types`
unfoldable pub any_type : List WorkItemType → WorkItemType → Bool
any_type [] t = false
any_type (s ∷ types) t = is_type s t || any_type types t

-- The moments are those of the host's clock.
pub record WorkItemRecord : Type 0 where
  pub external_id : String
  pub title : String
  pub item_type : WorkItemType
  pub state : String
  pub id : String
  pub parent_id : String
  pub cycle_id : String
  pub priority : ℤ
  pub description : String
  pub created_at : ℕ
  pub updated_at : ℕ

pub record StateVocabulary : Type 0 where
  pub states : List String
  pub done : List String

pub data WorkItemError : Type 0 where
  -- UnknownStateError
  unknown_states : List String → WorkItemError
  unknown_state : String → WorkItemError
  -- InvalidParentError
  root_with_parent : WorkItemError
  no_such_parent : String → WorkItemError
  wrong_parent : WorkItemType → WorkItemType → WorkItemError
  -- what the cache raised
  cache_failed : CacheError → WorkItemError

abbrev pub vocabulary_of :
    List String → List String → List String → Result WorkItemError StateVocabulary
vocabulary_of states done [] = ok (record { states = states; done = done })
vocabulary_of states done (s ∷ unknown) = raised (unknown_states (s ∷ unknown))

-- `StateVocabulary.__post_init__`
abbrev pub make_vocabulary : List String → List String → Result WorkItemError StateVocabulary
make_vocabulary states done = vocabulary_of states done (difference done states)

abbrev pub is_done : StateVocabulary → String → Bool
is_done vocabulary state = contains vocabulary.done state

abbrev pub item_tag : String → String
item_tag item_id = concat ("work-item:" ∷ item_id ∷ [])

abbrev pub children_tag : String → String
children_tag parent_id = concat ("work-item-children:" ∷ parent_id ∷ [])

abbrev pub parent_error : WorkItemRecord → Option WorkItemRecord → Option WorkItemError
parent_error item none = some (no_such_parent item.parent_id)
parent_error item (some parent) =
    if any_type (valid_children parent.item_type) item.item_type
    then none
    else some (wrong_parent parent.item_type item.item_type)

-- `_check_parent`: what it raises
unfoldable pub check_parent : Dict WorkItemRecord → WorkItemRecord → Option WorkItemError
check_parent items item =
    if item.parent_id == ""
    then none
    else (if is_type item.item_type milestone
        then some root_with_parent
        else parent_error item (get items item.parent_id))

-- The tags of `_invalidate_for`.
unfoldable pub tags_of_write : WorkItemRecord → Option WorkItemRecord → List String
tags_of_write stored none = item_tag stored.id ∷ children_tag stored.parent_id ∷ []
tags_of_write stored (some previous) =
    item_tag stored.id
    ∷ children_tag stored.parent_id
    ∷ (if previous.parent_id == stored.parent_id then [] else children_tag previous.parent_id ∷ [])

module _ {V : Type 0} (c : Cache V) where
  -- A call's result beside the items and the cache that it leaves.
  abbrev pub Outcome : Type 0
  Outcome = Result WorkItemError WorkItemRecord × (Dict WorkItemRecord × c.State)

  abbrev pub invalidated :
      WorkItemRecord → Dict WorkItemRecord → c.State → Result CacheError (c.State × ℕ) → Outcome
  invalidated item items s (ok (s', dropped)) = (ok item, (items, s'))
  invalidated item items s (raised e) = (raised (cache_failed e), (items, s))

  abbrev pub write_unless :
      Option WorkItemError → Dict WorkItemRecord → c.State → WorkItemRecord → Outcome
  write_unless (some e) items s item = (raised e, (items, s))
  write_unless none items s item =
      let previous = get items item.id in
      invalidated item (put items item.id item) s
        (c.invalidate_tags s (tags_of_write item previous))

  -- `WorkItemEngine.save`
  unfoldable pub save : StateVocabulary → Dict WorkItemRecord → c.State → WorkItemRecord → Outcome
  save vocabulary items s item =
      if contains vocabulary.states item.state
      then write_unless (check_parent items item) items s item
      else (raised (unknown_state item.state), (items, s))
