-- ===== src/Data/Pagination/Offset/Bounds.antt =====
-- The pages of a valid request cut the items without gap or overlap.
use rust_libraries.Prelude.{
  ℕ, zero, suc, ◌+◌, ◌-◌, ◌*◌, ◌/◌, ◌≤◌, ◌<◌, ◌≡◌, ◌↔◌, ◌∙◌, ap, true, false, List, some, ok, sym,
  arith, eqb,
}
use native.Mathlib.Nat.{
  le-div_iff_mul-le, mul-le-mul, div-eq_of_lt-le, div-mul-le_self, lt-div-mul-add,
}
use rust_libraries.Data.Pagination.Offset.{
  max_page_size, OffsetPageRequest, new_request, offset, limit, page_count, new_page,
}

-- A request that `new` accepts.
pub record IsValid (r : OffsetPageRequest) : Type 0 where
  pub page : 1 ≤ r.page
  pub size : 1 ≤ r.per_page
  pub capped : r.per_page ≤ max_page_size

-- `new` rejects page 0 and otherwise returns a valid request for the page, with the size clamped.
pub new_request-IsValid :
    (page per_page : ℕ) (r : OffsetPageRequest)
    → new_request page per_page ≡ ok r
    → IsValid r × (r.page ≡ page)
unfolding new_request
new_request-IsValid page per_page r e = ground arith

times_suc : (n p : ℕ) → suc n * p ≡ n * p + p
times_suc n p = omega arith

below_count : (n total p : ℕ) → 1 ≤ p → (n < page_count total p) ↔ (n * p < total)
unfolding page_count
below_count n total p h =
    let positive : eqb p 0 ≡ false = ground arith in
    let bound = le-div_iff_mul-le {k = p} {x = suc n} {y = total + (p - 1)} h in
    rw positive (
      λ lt. omega (arith, bound.0 (omega arith), times_suc n p),
      λ lt. omega (arith, bound.1 (omega (arith, times_suc n p))),
    )

-- For a valid request, a further page is announced exactly if items are left behind this page, an
-- earlier one exactly if the offset is not 0, and the number of pages is the least that holds all.
pub new_page-bounds :
    (T : Type 0) (items : List T) (total : ℕ) (r : OffsetPageRequest)
    → IsValid r
    → (start : ℕ) × (offset r ≡ some start)
      × (((new_page items total r).has_next ≡ true) ↔ (start + limit r < total))
      × (((new_page items total r).has_prev ≡ true) ↔ (0 < start))
      × ((n : ℕ) → (n < (new_page items total r).total_pages) ↔ (n * limit r < total))
unfolding new_page offset limit
new_page-bounds T items total r v =
    let k = r.page - 1 in
    let p = r.per_page in
    let after : r.page ≡ suc k = omega arith in
    let whole : r.page * p ≡ k * p + p = ap (λ n. n * p) after ∙ times_suc k p in
    (
      k * p,
      ground arith,
      (
        λ h. ground (arith, below_count r.page total p v.size, whole),
        λ h. ground (arith, below_count r.page total p v.size, whole),
      ),
      (λ h. positive k p (ground arith) v.size, λ h. ground (arith, nothing_before k p)),
      λ n. below_count n total p v.size,
    )
  where
    positive : (k p : ℕ) → 1 ≤ k → 1 ≤ p → 0 < k * p
    positive k p h g = omega (arith, mul-le-mul h g)

    nothing_before : (k p : ℕ) → 0 < k * p → 1 ≤ k
    nothing_before zero p h = absurd (omega arith)
    nothing_before (suc k) p h = omega arith

-- Every index is within the bounds of exactly one page: of the page `index / per_page + 1`.
pub item_on_one_page :
    (index page per_page start : ℕ) (r : OffsetPageRequest)
    → new_request page per_page ≡ ok r
    → offset r ≡ some start
    → ((start ≤ index) × (index < start + limit r)) ↔ (page ≡ suc (index / limit r))
unfolding offset limit
item_on_one_page index page per_page start r e o =
    let (v, same) = new_request-IsValid page per_page r e in
    let p = r.per_page in
    let here : start ≡ (page - 1) * p = ground arith in
    let next : (page - 1 + 1) * p ≡ start + p = omega arith in
    (
      λ h.
          let q : index / p ≡ page - 1 = div-eq_of_lt-le p (omega arith) (omega arith) in
          ground arith,
      λ h.
          let k : page - 1 ≡ index / p = omega arith in
          let cut : start ≡ index / p * p = rw (sym k) here in
          (
            omega (arith, div-mul-le_self index p),
            omega (arith, lt-div-mul-add {a = index} v.size),
          ),
    )
