-- ===== src/Prelude/Sets.antt =====
-- Python's sets of texts, as lists without an order that matters, and `sorted` on texts.
use Prim.Native.String.{compare}
use Prim.Native.Nat.{Ordering}
use lore_eden.Prelude.{
  String, ◌≡◌, refl, ap, Bool, true, false, ◌&&◌, ◌||◌, not, List, [], ◌∷◌, arith, ◌==◌, eq_iff,
  if◌then◌else◌, select,
}
use lore_eden.Prelude.Index.{contains}

-- s.add(x)
unfoldable pub add_text : String → List String → List String
add_text x s = if contains s x then s else x ∷ s

-- s.update(t)
unfoldable pub update : List String → List String → List String
update s [] = s
update s (x ∷ t) = update (add_text x s) t

-- s - t
abbrev pub difference : List String → List String → List String
difference s t = select (λ x. not (contains t x)) s

-- Python orders texts by their code points, as `compare` does.
abbrev pub text_leb : String → String → Bool
text_leb s t = elim (compare s t) [ Ordering.gt ↦ false | _ ↦ true ]

unfoldable pub insert_text : String → List String → List String
insert_text x [] = x ∷ []
insert_text x (y ∷ s) = if text_leb x y then x ∷ y ∷ s else y ∷ insert_text x s

-- sorted(s)
unfoldable pub sort_texts : List String → List String
sort_texts [] = []
sort_texts (x ∷ s) = insert_text x (sort_texts s)

pub contains-add_text :
    (x : String) (s : List String) (k : String)
    → contains (add_text x s) k ≡ ((x == k) || contains s k)
unfolding add_text contains
contains-add_text x s k = ground (arith, eq_iff x k, ap (contains s) {x = x} {y = k})

pub contains-update :
    (s t : List String) (k : String) → contains (update s t) k ≡ (contains s k || contains t k)
unfolding update contains
contains-update s [] k = ground arith
contains-update s (x ∷ t) k =
    ground (arith, contains-update (add_text x s) t k, contains-add_text x s k)

pub contains-difference :
    (s t : List String) (k : String)
    → contains (difference s t) k ≡ (contains s k && not (contains t k))
unfolding contains
contains-difference [] t k = refl
contains-difference (x ∷ s) t k =
    ground (arith, eq_iff x k, ap (contains t) {x = x} {y = k}, contains-difference s t k)

contains-insert_text :
    (x : String) (s : List String) (k : String)
    → contains (insert_text x s) k ≡ ((x == k) || contains s k)
unfolding insert_text contains
contains-insert_text x [] k = refl
contains-insert_text x (y ∷ s) k = ground (arith, contains-insert_text x s k)

pub contains-sort_texts : (s : List String) (k : String) → contains (sort_texts s) k ≡ contains s k
unfolding sort_texts contains
contains-sort_texts [] k = refl
contains-sort_texts (x ∷ s) k =
    ground (arith, contains-insert_text x (sort_texts s) k, contains-sort_texts s k)
