-- ===== src/Service/Pagination/Examples.antt =====
-- Forty-one rows in pages of twenty.
use lore_eden.Prelude.{ℕ, ◌+◌, ◌*◌, ◌/◌, ◌≤◌, ◌<◌, ◌≡◌, ◌↔◌, refl, true, String, List, [], arith}
use lore_eden.Service.Pagination.{
  PaginationParams, descending, default_page_size, pages, has_next, divide_up, paginate,
}
use lore_eden.Service.Pagination.Rows.{IsOn, has_next_iff, row-page}

abbrev params : PaginationParams
params = record { page = 2; size = default_page_size; order_by = ""; order_dir = descending }

abbrev none_fetched : List String
none_fetched = []

last_page : pages (paginate none_fetched 41 params) ≡ 3
unfolding divide_up
last_page = refl

has_next_iff_example : (has_next (paginate none_fetched 41 params) ≡ true) ↔ (2 * 20 < 41)
has_next_iff_example = has_next_iff (paginate none_fetched 41 params) (omega arith)

row-page_example :
    (40 / 20 + 1 ≤ pages (paginate none_fetched 41 params))
    × (IsOn (record params { page = 3 }) 40 ↔ (Path ℕ 3 (40 / 20 + 1)))
row-page_example = row-page params none_fetched 41 40 3 (omega arith) (omega arith) (omega arith)
