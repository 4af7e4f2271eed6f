-- ===== src/Workflow/Terminal/Search.antt =====
-- `find_terminal_stage` finds the first stage, by order, that ends the workflow.
use mathlib.Core.Logic.Or
use mathlib.Core.List.Perm
use mathlib.Core.List.{Mem, not-mem-nil, mem-cons, mem-cons_self, mem-cons_of_mem}
use lore_eden.Prelude.{
  ◌≡◌, inl, inr, true, false, Option, none, some, List, [], ◌∷◌, arith, All, All-mem, Bool-cases,
}
use lore_eden.Prelude.Int.{leb_ℤ}
use lore_eden.Workflow.Models.{WorkflowStageDef, sorted}
use lore_eden.Workflow.Order.{IsSorted, sorted-IsSorted, sorted-perm}
use lore_eden.Workflow.Terminal.{is_terminal_stage, first_terminal, find_terminal_stage}

-- What the search owes its caller: a terminal stage of the list that no other terminal stage comes
-- before, or none when no stage ends the workflow.
abbrev pub FindsTerminal : List WorkflowStageDef → Option WorkflowStageDef → Type 0
FindsTerminal stages none = (t : WorkflowStageDef) → Mem t stages → is_terminal_stage t ≡ false
FindsTerminal stages (some s) =
    Mem s stages
    × (is_terminal_stage s ≡ true)
    × ((t : WorkflowStageDef)
        → Mem t stages
        → is_terminal_stage t ≡ true
        → leb_ℤ s.order t.order ≡ true)

leb_ℤ_refl : (s : WorkflowStageDef) → leb_ℤ s.order s.order ≡ true
leb_ℤ_refl s = ground arith

module _ (s : WorkflowStageDef) (ss : List WorkflowStageDef) where
  found_here :
      is_terminal_stage s ≡ true
      → All (λ t. leb_ℤ s.order t.order ≡ true) ss
      → FindsTerminal (s ∷ ss) (some s)
  found_here e first = (
    mem-cons_self,
    e,
    λ t m _. All-mem (λ u. leb_ℤ s.order u.order) true (s ∷ ss) (leb_ℤ_refl s, first) m,
  )

  found_later :
      (o : Option WorkflowStageDef)
      → is_terminal_stage s ≡ false
      → FindsTerminal ss o
      → FindsTerminal (s ∷ ss) o
  found_later none e h =
      λ t m. Or.elim (hlevel) (mem-cons.0 m) (λ same. rw same e) (λ rest. h t rest)
  found_later (some u) e h = (
    mem-cons_of_mem s h.0,
    h.1,
    λ t m ends. Or.elim (hlevel) (mem-cons.0 m) (λ same. cc) (λ rest. h.2 t rest ends),
  )

first_terminal-FindsTerminal :
    (ss : List WorkflowStageDef) → IsSorted ss → FindsTerminal ss (first_terminal ss)
unfolding first_terminal
first_terminal-FindsTerminal [] h = λ t m. absurd (not-mem-nil m)
first_terminal-FindsTerminal (s ∷ ss) h = elim (Bool-cases (is_terminal_stage s)) [
  | inl e ↦ rw e (found_here s ss e h.0)
  | inr e ↦ rw e (found_later s ss (first_terminal ss) e (first_terminal-FindsTerminal ss h.1))
]

FindsTerminal-perm :
    (ss ts : List WorkflowStageDef) (o : Option WorkflowStageDef)
    → ((t : WorkflowStageDef) → Mem t ss → Mem t ts)
    → ((t : WorkflowStageDef) → Mem t ts → Mem t ss)
    → FindsTerminal ss o
    → FindsTerminal ts o
FindsTerminal-perm ss ts none to from h = λ t m. h t (from t m)
FindsTerminal-perm ss ts (some s) to from h = (to s h.0, h.1, λ t m ends. h.2 t (from t m) ends)

-- `find_terminal_stage` returns a stage of the list that ends the workflow and that no other such
-- stage comes before in order; it returns none only when no stage of the list ends the workflow.
pub find_terminal_stage-FindsTerminal :
    (stages : List WorkflowStageDef) → FindsTerminal stages (find_terminal_stage stages)
unfolding find_terminal_stage
find_terminal_stage-FindsTerminal stages =
    FindsTerminal-perm (sorted stages) stages (first_terminal (sorted stages))
      (Perm.subset (sorted-perm stages)) (Perm.subset (Perm.symm (sorted-perm stages)))
      (first_terminal-FindsTerminal (sorted stages) (sorted-IsSorted stages))
