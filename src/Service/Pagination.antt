-- ===== src/Service/Pagination.antt =====
-- python/lore_eden/service/pagination.py: pages of a listing.
pub mod Rows
mod Examples
use lore_eden.Prelude.{
  ℕ, zero, suc, ◌+◌, ◌-◌, ◌*◌, ◌/◌, ◌%◌, String, Bool, true, false, ◌&&◌, Option, none, some, List,
  leb, ltb, nat_eq, if◌then◌else◌,
}

abbrev pub default_page_size : ℕ
default_page_size = 20

abbrev pub max_page_size : ℕ
max_page_size = 100

pub data SortDirection : Type 0 where
  ascending descending : SortDirection

pub record PaginationParams : Type 0 where
  pub page : ℕ
  pub size : ℕ
  pub order_by : String
  pub order_dir : SortDirection

-- The constructor, with `none` where a field's bounds refuse the value.
abbrev pub make_params : ℕ → ℕ → String → SortDirection → Option PaginationParams
make_params page size order_by order_dir =
    if leb 1 page && (leb 1 size && leb size max_page_size)
    then some (record { page = page; size = size; order_by = order_by; order_dir = order_dir })
    else none

abbrev pub offset : PaginationParams → ℕ
offset p = (p.page - 1) * p.size

abbrev pub limit : PaginationParams → ℕ
limit p = p.size

pub record Page {ℓ} (T : Type ℓ) : Type ℓ where
  pub items : List T
  pub total : ℕ
  pub page : ℕ
  pub size : ℕ

-- `-(-a // b)`: the quotient of a negative number is rounded down, and so its negation up.
unfoldable pub divide_up : ℕ → ℕ → ℕ
divide_up a b = if nat_eq (a % b) 0 then a / b else a / b + 1

module _ {ℓ} {T : Type ℓ} where
  abbrev pub pages : Page T → ℕ
  pages p = if nat_eq p.total 0 then 0 else divide_up p.total p.size

  abbrev pub has_next : Page T → Bool
  has_next p = ltb p.page (pages p)

  abbrev pub has_previous : Page T → Bool
  has_previous p = ltb 1 p.page

  abbrev pub paginate : List T → ℕ → PaginationParams → Page T
  paginate items total params = record {
    items = items;
    total = total;
    page = params.page;
    size = params.size;
  }
