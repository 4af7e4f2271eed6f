-- ===== src/Workflow/Templates/Examples.antt =====
-- Checklists that python/lore_eden/workflow/templates.py expands.
use lore_eden.Prelude.{String, ◌≡◌, refl, List, [], ◌∷◌, arith}
use lore_eden.Prelude.Strip.{strip, drop_spaces, reverse_onto}
use lore_eden.Prelude.Dict.{Dict, get}
use lore_eden.Workflow.Templates.{
  ChecklistExpander, expand_checklist, IsFinal, Expands, expand_checklist-Expands,
}

-- In a context that is a list of criteria.
abbrev expanders : Dict (ChecklistExpander (List String))
expanders = ("{{criteria}}", λ criteria. criteria) ∷ []

criteria-IsFinal : IsFinal expanders ("it compiles" ∷ [])
unfolding get strip drop_spaces reverse_onto
criteria-IsFinal token expander h = ground (arith)

expand_checklist-Expands_example :
    Expands expanders
      ("it compiles" ∷ [])
      (" {{criteria}} " ∷ "ship" ∷ [])
      (expand_checklist (" {{criteria}} " ∷ "ship" ∷ []) expanders ("it compiles" ∷ []))
expand_checklist-Expands_example =
    expand_checklist-Expands expanders ("it compiles" ∷ []) criteria-IsFinal
      (" {{criteria}} " ∷ "ship" ∷ [])

expands :
    expand_checklist (" {{criteria}} " ∷ "ship" ∷ []) expanders ("it compiles" ∷ [])
    ≡ "it compiles" ∷ "ship" ∷ []
unfolding expand_checklist get strip drop_spaces reverse_onto
expands = refl

-- A criterion that is the token itself is doubled by each expansion.
grows_again :
    expand_checklist
      (expand_checklist ("{{criteria}}" ∷ []) expanders ("{{criteria}}" ∷ "new" ∷ []))
      expanders
      ("{{criteria}}" ∷ "new" ∷ [])
    ≡ "{{criteria}}" ∷ "new" ∷ "new" ∷ []
unfolding expand_checklist get strip drop_spaces reverse_onto
grows_again = refl
