-- ===== src/Prelude/Index.antt =====
-- Lists of texts searched by value: membership, the first position, and lists without repeats.
use mathlib.Core.Option
use lore_eden.Prelude.{
  ℕ, zero, suc, ◌+◌, String, ◌≡◌, refl, Bool, true, false, ◌&&◌, ◌||◌, Option, none, some, List, [],
  ◌∷◌, ◌++◌, arith, ◌==◌, eq_iff, ltb, leb, if◌then◌else◌, slice, get_elem?,
}

-- `k in xs` for a list or a set of texts.
unfoldable pub contains : List String → String → Bool
contains [] k = false
contains (x ∷ xs) k = (x == k) || contains xs k

-- `xs.index(k)`, with `none` for the ValueError.
unfoldable pub index_of : String → List String → Option ℕ
index_of k [] = none
index_of k (x ∷ xs) = if x == k then some 0 else Option.map suc (index_of k xs)

pub contains-snoc :
    (ks : List String) (key k : String)
    → contains (ks ++ key ∷ []) k ≡ ((key == k) || contains ks k)
unfolding contains
contains-snoc [] key k = ground arith
contains-snoc (j ∷ ks) key k = ground (arith, contains-snoc ks key k)

-- No text stands twice.
abbrev pub Distinct : List String → Type 0
Distinct [] = Unit
Distinct (x ∷ xs) = (contains xs x ≡ false) × Distinct xs

-- An index in the half-open range of `count` positions from `start`.
abbrev pub within : ℕ → ℕ → Option ℕ → Bool
within start count none = false
within start count (some i) = leb start i && ltb i (start + count)

pub contains-eq-index_of :
    (k : String) (xs : List String)
    → contains xs k ≡ elim (index_of k xs) [ none ↦ false | some _ ↦ true ]
unfolding contains index_of
contains-eq-index_of k [] = refl
contains-eq-index_of k (x ∷ xs) = ground (arith, contains-eq-index_of k xs)

pub get_elem?-index_of :
    (k : String) (xs : List String) (i : ℕ) → index_of k xs ≡ some i → get_elem? xs i ≡ some k
unfolding index_of
get_elem?-index_of k [] i h = ground arith
get_elem?-index_of k (x ∷ xs) zero h = ground (arith, eq_iff x k)
get_elem?-index_of k (x ∷ xs) (suc i) h = get_elem?-index_of k xs i (ground (arith, eq_iff x k))

contains-get_elem? :
    (xs : List String) (i : ℕ) (k : String) → get_elem? xs i ≡ some k → contains xs k ≡ true
unfolding contains
contains-get_elem? [] i k h = ground arith
contains-get_elem? (x ∷ xs) zero k h = ground (arith, eq_iff x k)
contains-get_elem? (x ∷ xs) (suc i) k h = ground (arith, contains-get_elem? xs i k h)

-- Without repeats, the item at a place is found at that place.
pub index_of-get_elem? :
    (xs : List String) (i : ℕ) (k : String)
    → Distinct xs
    → get_elem? xs i ≡ some k
    → index_of k xs ≡ some i
unfolding index_of
index_of-get_elem? [] i k d h = ground arith
index_of-get_elem? (x ∷ xs) zero k d h = ground (arith, eq_iff x k)
index_of-get_elem? (x ∷ xs) (suc i) k d h =
    ground (arith, eq_iff x k, contains-get_elem? xs i k, index_of-get_elem? xs i k d.1 h)

contains-slice_absent :
    (start count : ℕ) (k : String) (xs : List String)
    → contains xs k ≡ false
    → contains (slice start count xs) k ≡ false
unfolding contains
contains-slice_absent start count k [] h = refl
contains-slice_absent (suc start) count k (x ∷ xs) h =
    contains-slice_absent start count k xs (ground arith)
contains-slice_absent zero zero k (x ∷ xs) h = refl
contains-slice_absent zero (suc count) k (x ∷ xs) h =
    ground (arith, contains-slice_absent zero count k xs)

-- The slice holds exactly the texts whose position lies in its range.
pub contains-slice :
    (start count : ℕ) (k : String) (xs : List String)
    → Distinct xs
    → contains (slice start count xs) k ≡ within start count (index_of k xs)
unfolding contains index_of
contains-slice start count k [] d = refl
contains-slice (suc start) count k (x ∷ xs) d =
    ground (
      arith,
      eq_iff x k,
      contains-slice start count k xs d.1,
      contains-slice_absent start count k xs,
    )
contains-slice zero zero k (x ∷ xs) d = ground arith
contains-slice zero (suc count) k (x ∷ xs) d = ground (arith, contains-slice zero count k xs d.1)
