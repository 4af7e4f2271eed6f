-- ===== src/Workflow/Templates.antt =====
-- `expand_checklist` of python/lore_eden/workflow/templates.py.
mod Examples
use mathlib.Core.List.{append_assoc}
use lore_eden.Prelude.{
  String, ◌≡◌, refl, sym, ap, ◌∙◌, Option, none, some, List, [], ◌∷◌, ◌++◌, arith, All,
}
use lore_eden.Prelude.Strip.{strip}
use lore_eden.Prelude.Dict.{Dict, get}

-- What a placeholder stands for in a context.
abbrev pub ChecklistExpander : Type 0 → Type 0
ChecklistExpander Context = Context → List String

module _ {Context : Type 0} where
  abbrev pub expanded_item : Context → String → Option (ChecklistExpander Context) → List String
  expanded_item context checklist_item none = checklist_item ∷ []
  expanded_item context checklist_item (some expander) = expander context

  unfoldable pub expand_checklist :
      List String → Dict (ChecklistExpander Context) → Context → List String
  expand_checklist [] expanders context = []
  expand_checklist (checklist_item ∷ checklist) expanders context =
      expanded_item context checklist_item (get expanders (strip checklist_item))
      ++ expand_checklist checklist expanders context

  module _ (expanders : Dict (ChecklistExpander Context)) (context : Context) where
    -- An item that is no registered placeholder.
    abbrev pub IsPlain : String → Type 0
    IsPlain checklist_item = get expanders (strip checklist_item) ≡ none

    -- A token that is registered stands for items that are no placeholders themselves.
    abbrev pub IsFinal : Type 0
    IsFinal =
        (token : String) (expander : ChecklistExpander Context)
        → get expanders token ≡ some expander
        → All IsPlain (expander context)

    item-IsPlain :
        IsFinal
        → (checklist_item : String) (found : Option (ChecklistExpander Context))
        → get expanders (strip checklist_item) ≡ found
        → All IsPlain (expanded_item context checklist_item found)
    item-IsPlain final checklist_item none h = (h, tt)
    item-IsPlain final checklist_item (some expander) h = final (strip checklist_item) expander h

    -- The items with each placeholder replaced by what it stands for, and all else kept, in order.
    pub data Expansion : List String → List String → Type 0 where
      nothing_left : Expansion [] []
      kept :
          {checklist_item : String} {checklist expanded : List String}
          → IsPlain checklist_item
          → Expansion checklist expanded
          → Expansion (checklist_item ∷ checklist) (checklist_item ∷ expanded)
      replaced :
          {checklist_item : String} {expander : ChecklistExpander Context}
          {checklist expanded : List String}
          → get expanders (strip checklist_item) ≡ some expander
          → Expansion checklist expanded
          → Expansion (checklist_item ∷ checklist) (expander context ++ expanded)

    pub record Expands (checklist expanded : List String) : Type 0 where
      pub expansion : Expansion checklist expanded
      pub no_token_left : All IsPlain expanded
      pub settled : expand_checklist expanded expanders context ≡ expanded

    item-Expansion :
        (checklist_item : String) (found : Option (ChecklistExpander Context))
        → get expanders (strip checklist_item) ≡ found
        → (checklist expanded : List String) → Expansion checklist expanded
        → Expansion
            (checklist_item ∷ checklist)
            (expanded_item context checklist_item found ++ expanded)
    item-Expansion checklist_item none h checklist expanded k = kept h k
    item-Expansion checklist_item (some expander) h checklist expanded k = replaced h k

    expand_checklist-Expansion :
        (checklist : List String)
        → Expansion checklist (expand_checklist checklist expanders context)
    unfolding expand_checklist
    expand_checklist-Expansion [] = nothing_left
    expand_checklist-Expansion (checklist_item ∷ checklist) =
        item-Expansion checklist_item _ refl _ _ (expand_checklist-Expansion checklist)

    append-IsPlain :
        (xs ys : List String) → All IsPlain xs → All IsPlain ys → All IsPlain (xs ++ ys)
    append-IsPlain [] ys plain plain' = plain'
    append-IsPlain (x ∷ xs) ys plain plain' = (plain.0, append-IsPlain xs ys plain.1 plain')

    expand_checklist-IsPlain :
        IsFinal
        → (checklist : List String) → All IsPlain (expand_checklist checklist expanders context)
    unfolding expand_checklist
    expand_checklist-IsPlain final [] = tt
    expand_checklist-IsPlain final (checklist_item ∷ checklist) =
        append-IsPlain _ _ (item-IsPlain final checklist_item _ refl)
          (expand_checklist-IsPlain final checklist)

    plain-settled :
        (checklist : List String)
        → All IsPlain checklist
        → expand_checklist checklist expanders context ≡ checklist
    unfolding expand_checklist
    plain-settled [] plain = refl
    plain-settled (checklist_item ∷ checklist) plain = rw (plain.0, plain-settled checklist plain.1)

    -- Where no registered token stands for items that are tokens themselves: an expansion has each
    -- item that is a registered token, once stripped, replaced by the items that it stands for, and
    -- every other item kept, in order; it has no registered token left; and to expand it again
    -- changes nothing.
    pub expand_checklist-Expands :
        IsFinal
        → (checklist : List String)
        → Expands checklist (expand_checklist checklist expanders context)
    expand_checklist-Expands final checklist = record {
      expansion = expand_checklist-Expansion checklist;
      no_token_left = expand_checklist-IsPlain final checklist;
      settled = plain-settled _ (expand_checklist-IsPlain final checklist);
    }
