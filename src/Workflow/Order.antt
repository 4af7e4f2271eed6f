-- ===== src/Workflow/Order.antt =====
-- The stages in order: `sorted` of the models keeps the stages and their keys.
use mathlib.Core.List.Perm
use mathlib.Core.List.{Perm}
use lore_eden.Prelude.{
  String, ◌≡◌, refl, true, false, ◌||◌, inl, inr, List, [], ◌∷◌, map, arith, ◌==◌, eq_iff, All,
  Bool-cases,
}
use lore_eden.Prelude.Int.{ℤ, leb_ℤ}
use lore_eden.Prelude.Index.{contains, Distinct}
use lore_eden.Workflow.Models.{WorkflowStageDef, insert_stage, sorted}

abbrev pub stage_keys : List WorkflowStageDef → List String
stage_keys stages = map (λ s. s.key) stages

-- No stage of the list comes before `s` in order.
abbrev pub IsFirst : WorkflowStageDef → List WorkflowStageDef → Type 0
IsFirst s = All (λ t. leb_ℤ s.order t.order ≡ true)

abbrev pub IsSorted : List WorkflowStageDef → Type 0
IsSorted [] = Unit
IsSorted (s ∷ ss) = IsFirst s ss × IsSorted ss

leb_ℤ_trans : (a b c : ℤ) → leb_ℤ a b ≡ true → leb_ℤ b c ≡ true → leb_ℤ a c ≡ true
leb_ℤ_trans a b c h k = ground arith

IsFirst-trans :
    (s t : WorkflowStageDef) (ss : List WorkflowStageDef)
    → leb_ℤ s.order t.order ≡ true
    → IsFirst t ss
    → IsFirst s ss
IsFirst-trans s t [] h k = tt
IsFirst-trans s t (u ∷ ss) h k =
    (leb_ℤ_trans s.order t.order u.order h k.0, IsFirst-trans s t ss h k.1)

IsFirst-insert_stage :
    (s t : WorkflowStageDef) (ss : List WorkflowStageDef)
    → leb_ℤ t.order s.order ≡ true
    → IsFirst t ss
    → IsFirst t (insert_stage s ss)
unfolding insert_stage
IsFirst-insert_stage s t [] h k = (h, tt)
IsFirst-insert_stage s t (u ∷ ss) h k = ground (arith, IsFirst-insert_stage s t ss h k.1)

insert_stage-IsSorted :
    (s : WorkflowStageDef) (ss : List WorkflowStageDef) → IsSorted ss → IsSorted (insert_stage s ss)
unfolding insert_stage
insert_stage-IsSorted s [] h = (tt, tt)
insert_stage-IsSorted s (t ∷ ss) h = elim (Bool-cases (leb_ℤ s.order t.order)) [
  | inl e ↦ rw e ((e, IsFirst-trans s t ss e h.0), h)
  | inr e ↦ rw e (IsFirst-insert_stage s t ss (ground arith) h.0, insert_stage-IsSorted s ss h.1)
]

pub sorted-IsSorted : (ss : List WorkflowStageDef) → IsSorted (sorted ss)
unfolding sorted
sorted-IsSorted [] = tt
sorted-IsSorted (s ∷ ss) = insert_stage-IsSorted s (sorted ss) (sorted-IsSorted ss)

insert_stage-perm :
    (s : WorkflowStageDef) (ss : List WorkflowStageDef) → Perm (insert_stage s ss) (s ∷ ss)
unfolding insert_stage
insert_stage-perm s [] = Perm.rfl
insert_stage-perm s (t ∷ ss) = elim (Bool-cases (leb_ℤ s.order t.order)) [
  | inl e ↦ rw e Perm.rfl
  | inr e ↦ rw e (Perm.trans (Perm.cons t (insert_stage-perm s ss)) (Perm.swap s t ss))
]

pub sorted-perm : (ss : List WorkflowStageDef) → Perm (sorted ss) ss
unfolding sorted
sorted-perm [] = Perm.rfl
sorted-perm (s ∷ ss) = Perm.trans (insert_stage-perm s (sorted ss)) (Perm.cons s (sorted-perm ss))

contains-insert_stage :
    (k : String) (s : WorkflowStageDef) (ss : List WorkflowStageDef)
    → contains (stage_keys (insert_stage s ss)) k ≡ ((s.key == k) || contains (stage_keys ss) k)
unfolding insert_stage contains
contains-insert_stage k s [] = refl
contains-insert_stage k s (t ∷ ss) = ground (arith, contains-insert_stage k s ss)

pub contains-sorted :
    (k : String) (ss : List WorkflowStageDef)
    → contains (stage_keys (sorted ss)) k ≡ contains (stage_keys ss) k
unfolding sorted contains
contains-sorted k [] = refl
contains-sorted k (s ∷ ss) = rw (contains-insert_stage k s (sorted ss), contains-sorted k ss)

insert_stage-Distinct :
    (s : WorkflowStageDef) (ss : List WorkflowStageDef)
    → contains (stage_keys ss) s.key ≡ false
    → Distinct (stage_keys ss)
    → Distinct (stage_keys (insert_stage s ss))
unfolding insert_stage contains
insert_stage-Distinct s [] h d = (refl, tt)
insert_stage-Distinct s (t ∷ ss) h d = ground (
  arith,
  eq_iff s.key t.key,
  eq_iff t.key s.key,
  contains-insert_stage t.key s ss,
  insert_stage-Distinct s ss,
)

pub sorted-Distinct :
    (ss : List WorkflowStageDef) → Distinct (stage_keys ss) → Distinct (stage_keys (sorted ss))
unfolding sorted
sorted-Distinct [] d = tt
sorted-Distinct (s ∷ ss) d =
    insert_stage-Distinct s (sorted ss) (rw contains-sorted d.0) (sorted-Distinct ss d.1)
