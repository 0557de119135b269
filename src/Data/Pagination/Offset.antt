-- ===== src/Data/Pagination/Offset.antt =====
-- klauthed-data/src/pagination/mod.rs and offset.rs. A `u32` or `u64` is a number; no other operation
-- here leaves its range, since `(page - 1) * per_page` stays below 2^64 for 32-bit fields.
pub mod Bounds
use rust_libraries.Prelude.{
  ℕ, zero, suc, ◌+◌, ◌-◌, ◌*◌, ◌/◌, ◌≤◌, ◌<◌, min, max, ◌≡◌, ◌↔◌, refl, ap, String, Bool, true,
  false, List, [], ◌∷◌, map, Result, ok, err, Option, none, some, arith, eqb, ltb, if◌then◌else◌,
  length, take, drop, Bool-cases, inl, inr,
}

abbrev pub default_page_size : ℕ
default_page_size = 20

abbrev pub max_page_size : ℕ
max_page_size = 100

pub data SortOrder : Type 0 where
  ascending descending : SortOrder

pub record SortKey : Type 0 where
  pub field : String
  pub order : SortOrder

unfoldable pub asc : String → SortKey
asc field = record { field = field; order = ascending }

unfoldable pub desc : String → SortKey
desc field = record { field = field; order = descending }

-- `DataError::InvalidPage`.
pub data PageError : Type 0 where
  invalid_page : String → PageError

pub record OffsetPageRequest : Type 0 where
  pub page : ℕ
  pub per_page : ℕ
  pub sort : List SortKey

unfoldable pub new_request : ℕ → ℕ → Result PageError OffsetPageRequest
new_request page per_page =
    if ltb page 1
    then err (invalid_page "page must be >= 1 (pages are 1-indexed)")
    else ok (record { page = page; per_page = min (max per_page 1) max_page_size; sort = [] })

unfoldable pub first : ℕ → Result PageError OffsetPageRequest
unfolding new_request
first per_page = new_request 1 per_page

-- `None` is the overflow of `page - 1` on a page 0, which `new` rejects but the field admits.
unfoldable pub offset : OffsetPageRequest → Option ℕ
offset r = if ltb r.page 1 then none else some ((r.page - 1) * r.per_page)

unfoldable pub limit : OffsetPageRequest → ℕ
limit r = r.per_page

unfoldable pub default_request : OffsetPageRequest
default_request = record { page = 1; per_page = default_page_size; sort = [] }

pub record Page (T : Type 0) : Type 0 where
  pub items : List T
  pub total_items : ℕ
  pub page : ℕ
  pub per_page : ℕ
  pub total_pages : ℕ
  pub has_next : Bool
  pub has_prev : Bool

-- `total_items.div_ceil(per_page)`, and 0 for a page size of 0.
unfoldable pub page_count : ℕ → ℕ → ℕ
page_count total_items per_page =
    if eqb per_page 0 then 0 else (total_items + (per_page - 1)) / per_page

module _ {T : Type 0} where
  unfoldable pub new_page : List T → ℕ → OffsetPageRequest → Page T
  unfolding page_count
  new_page items total_items r =
      let total_pages = page_count total_items r.per_page in
      record {
        items = items;
        total_items = total_items;
        page = r.page;
        per_page = r.per_page;
        total_pages = total_pages;
        has_next = ltb r.page total_pages;
        has_prev = ltb 1 r.page;
      }

  unfoldable pub empty : OffsetPageRequest → Page T
  unfolding new_page
  empty r = new_page [] 0 r

unfoldable pub map_page : {T U : Type 0} → (T → U) → Page T → Page U
map_page f p = record {
  items = map f p.items;
  total_items = p.total_items;
  page = p.page;
  per_page = p.per_page;
  total_pages = p.total_pages;
  has_next = p.has_next;
  has_prev = p.has_prev;
}
