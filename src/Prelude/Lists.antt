-- ===== src/Prelude/Lists.antt =====
-- Lists measured and indexed by native numbers, under the library's names, and predicates over lists.
use Prim.Native.Nat.{ℕ, zero, suc, ◌+◌, ◌≤◌}
use mathlib.Core.Path.{◌≡◌, refl}
use mathlib.Core.Bool.{Bool}
use mathlib.Core.List.{
  List, [], ◌∷◌, ◌++◌, Mem, Mem-prop, not-mem-nil, mem-cons, mem-cons_self, mem-cons_of_mem,
}
use mathlib.Core.HLevel.{×_prop}
use mathlib.Core.Logic.{inl, inr}
use mathlib.Core.Bool.{true}
use mathlib.Core.Logic.Or
use mathlib.Core.Option.{Option, none, some}
use native.Mathlib.Omega.{arith}
use lore_eden.Prelude.Tests.{if◌then◌else◌, Bool-cases}

Bool_set : IsSet Bool
Bool_set = hlevel

module _ {ℓ} {A : Type ℓ} where
  abbrev pub length : List A → ℕ
  length [] = 0
  length (x ∷ xs) = suc (length xs)

  abbrev pub get_elem? : List A → ℕ → Option A
  get_elem? [] i = none
  get_elem? (x ∷ xs) zero = some x
  get_elem? (x ∷ xs) (suc i) = get_elem? xs i

  -- The items that pass a Boolean test.
  abbrev pub select : (A → Bool) → List A → List A
  select p [] = []
  select p (x ∷ xs) = let rest = select p xs in if p x then x ∷ rest else rest

  -- Every item has the property.
  abbrev pub All {κ} : (A → Type κ) → List A → Type κ
  All P [] = Unit
  All P (x ∷ xs) = P x × All P xs

  -- A selected item is an item of the list, and passes the test.
  pub mem-select :
      (p : A → Bool) (xs : List A) {x : A} → Mem x (select p xs) → Mem x xs × (p x ≡ true)
  mem-select p [] m = absurd (not-mem-nil m)
  mem-select p (y ∷ xs) {x} m = elim (Bool-cases (p y)) [
    | inl e ↦
        Or.elim (×_prop Mem-prop (Bool_set _ _)) (mem-cons.0 (rw e at m))
          (λ same. (rw same mem-cons_self, rw same e))
          (λ rest. let (m', e') = mem-select p xs rest in (mem-cons_of_mem y m', e'))
    | inr e ↦ let (m', e') = mem-select p xs (rw e at m) in (mem-cons_of_mem y m', e')
  ]

  pub length-append : (xs ys : List A) → length (xs ++ ys) ≡ length xs + length ys
  length-append [] ys = omega arith
  length-append (x ∷ xs) ys = omega (arith, length-append xs ys)

  -- A Boolean test with one answer on the whole list has it at each item.
  pub All-mem :
      (f : A → Bool) (b : Bool) (xs : List A) {x : A} → All (λ y. f y ≡ b) xs → Mem x xs → f x ≡ b
  All-mem f b [] h m = absurd (not-mem-nil m)
  All-mem f b (y ∷ xs) h m =
      Or.elim (Bool_set _ _) (mem-cons.0 m) (λ e. rw e h.0) (All-mem f b xs h.1)

  -- `xs[start : start + count]`, the items that `for i in range(start, start + count)` visits.
  abbrev pub slice : ℕ → ℕ → List A → List A
  slice start count [] = []
  slice (suc start) count (x ∷ xs) = slice start count xs
  slice zero zero (x ∷ xs) = []
  slice zero (suc count) (x ∷ xs) = x ∷ slice zero count xs

module _ {ℓ} {A : Type ℓ} where
  -- No item stands at or behind a place that is empty.
  pub get_elem?-none_le :
      (xs : List A) (i j : ℕ) → get_elem? xs i ≡ none → i ≤ j → get_elem? xs j ≡ none
  get_elem?-none_le [] i j h le = refl
  get_elem?-none_le (x ∷ xs) zero j h le = cc
  get_elem?-none_le (x ∷ xs) (suc i) zero h le = elim le [ ]
  get_elem?-none_le (x ∷ xs) (suc i) (suc j) h le = get_elem?-none_le xs i j h (omega arith)

  pub get_elem?_behind : (xs : List A) (i : ℕ) → length xs ≤ i → get_elem? xs i ≡ none
  get_elem?_behind [] i h = refl
  get_elem?_behind (x ∷ xs) zero h = elim h [ ]
  get_elem?_behind (x ∷ xs) (suc i) h = get_elem?_behind xs i (omega arith)
