-- ===== src/Service/Pagination/Rows.antt =====
-- The pages of a listing have every row of it once, and say rightly whether more follow.
use native.Mathlib.Nat.{
  div-add-mod', div-mul-le_self, lt-div-mul-add, div-eq_of_lt-le, mul-le-mul_right, mod-lt,
}
use lore_eden.Prelude.{
  ℕ, ◌+◌, ◌-◌, ◌*◌, ◌/◌, ◌%◌, ◌≤◌, ◌<◌, ◌≡◌, ◌↔◌, sym, ap, ◌∙◌, subst, inl, inr, true, false, List,
  arith, nat_eq, Bool-cases,
}
use lore_eden.Service.Pagination.{
  PaginationParams, offset, limit, Page, divide_up, pages, has_next, paginate,
}

-- The row is in the window that the parameters ask for.
abbrev pub IsOn : PaginationParams → ℕ → Type 0
IsOn params i = (offset params ≤ i) × (i < offset params + limit params)

-- The whole pages before the last.
whole-lt : (k q b a : ℕ) → 0 < b → a ≡ q * b → (k < q) ↔ (k * b < a)
whole-lt k q b a positive even = (
  λ less. omega (arith, positive, even, mul-le-mul_right b less),
  λ less. not_at_most λ most. omega (arith, even, less, mul-le-mul_right b most),
)
  where
    not_at_most : ¬ (q ≤ k) → k < q
    not_at_most above = omega (arith, above)

partly-lt : (k q r b a : ℕ) → 0 < r → r < b → a ≡ q * b + r → (k < q + 1) ↔ (k * b < a)
partly-lt k q r b a positive small split = (
  λ less.
      let most : k ≤ q = omega (arith, less) in
      omega (arith, positive, split, mul-le-mul_right b most),
  λ less. not_more λ more. omega (arith, split, less, small, mul-le-mul_right b more),
)
  where
    not_more : ¬ (q + 1 ≤ k) → k < q + 1
    not_more above = omega (arith, above)

-- Fewer than the rounded quotient, if and only if the product is less.
divide_up-lt : (k a b : ℕ) → 0 < b → (k < divide_up a b) ↔ (k * b < a)
unfolding divide_up
divide_up-lt k a b positive = elim (Bool-cases (nat_eq (a % b) 0)) [
  | inl whole ↦
      rw whole
        (whole-lt k (a / b) b a positive (omega (arith, div-add-mod' a b, is_zero a b whole)))
  | inr rest ↦ rw rest (
      partly-lt k (a / b) (a % b) b a (is_positive a b rest) (mod-lt a positive)
        (sym (div-add-mod' a b)))
]
  where
    is_zero : (a b : ℕ) → nat_eq (a % b) 0 ≡ true → a % b ≡ 0
    is_zero a b e = ground (arith, e)

    is_positive : (a b : ℕ) → nat_eq (a % b) 0 ≡ false → 0 < a % b
    is_positive a b e = ground (arith, e)

pages-lt : {T : Type 0} (k : ℕ) (p : Page T) → 0 < p.size → (k < pages p) ↔ (k * p.size < p.total)
pages-lt k p positive = elim (Bool-cases (nat_eq p.total 0)) [
  | inl none_there ↦
      rw none_there ((λ less. omega (arith, less)), (λ less. ground (arith, none_there, less)))
  | inr some_there ↦ rw some_there (divide_up-lt k p.total p.size positive)
]

-- For a page with a positive size, `has_next` says whether rows follow behind the page.
pub has_next_iff :
    {T : Type 0} (p : Page T) → 0 < p.size → (has_next p ≡ true) ↔ (p.page * p.size < p.total)
has_next_iff p positive =
    let (to, from) = pages-lt p.page p positive in
    (λ more. to (ground (arith, more)), λ less. ground (arith, from less))

one_back : (n : ℕ) → n + 1 - 1 ≡ n
one_back n = omega arith

-- For a positive size, the row with index `i` of a listing is in the window of a page from 1 if
-- and only if that page is number `i / size + 1`, which is not beyond the last page.
pub row-page :
    {T : Type 0} (params : PaginationParams) (items : List T) (total i page : ℕ)
    → 0 < params.size
    → i < total
    → 1 ≤ page
    → (i / params.size + 1 ≤ pages (paginate items total params))
      × (IsOn (record params { page = page }) i ↔ (page ≡ i / params.size + 1))
row-page params items total i page positive there first = (
  omega (
    arith,
    (pages-lt (i / params.size) (paginate items total params) positive).1
        (omega (arith, there, div-mul-le_self i params.size)),
  ),
  (
    λ on. omega (
      arith,
      first,
      div-eq_of_lt-le {k = page - 1} params.size {m = i} on.0 (omega (arith, on.1)),
    ),
    λ same.
        subst (λ j. (j * params.size ≤ i) × (i < j * params.size + params.size))
          (sym (ap (λ n. n - 1) same ∙ one_back (i / params.size)))
          (div-mul-le_self i params.size, lt-div-mul-add positive),
  ),
)
