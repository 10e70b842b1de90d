-- ===== src/Pagination.antt =====
-- Pagination, as every list endpoint of backend/app/api/v1 does it: the page number and the page
-- size are clamped, `offset` and `limit` cut the rows that the query selects in its order, and the
-- envelope of backend/app/schemas/job.py says where the page stands.
-- `ceil(total / size)` is the exact quotient rounded up, which the float division of the source
-- gives for every count below 2 ^ 53.
pub mod Cover
pub mod Ordered
mod Examples
use ai_project.Prelude.{
  ℕ, suc, ◌+◌, ◌-◌, ◌*◌, ◌/◌, max, min, List, Bool, length, take, drop, ltb, if◌then◌else◌,
}

-- A query parameter `page: int`, which a client may send below zero.
pub data QueryInt : Type 0 where
  pos : ℕ → QueryInt
  negsuc : ℕ → QueryInt

-- `max(1, n)`
unfoldable pub at_least_one : QueryInt → ℕ
at_least_one (pos n) = max 1 n
at_least_one (negsuc n) = 1

-- `max(1, min(n, limit))`
unfoldable pub clamp_size : ℕ → QueryInt → ℕ
clamp_size limit (pos n) = max 1 (min n limit)
clamp_size limit (negsuc n) = 1

pub record PaginationMeta : Type 0 where
  pub page : ℕ
  pub page_size : ℕ
  pub total_items : ℕ
  pub total_pages : ℕ
  pub has_next : Bool
  pub has_prev : Bool

unfoldable pub total_pages_of : ℕ → ℕ → ℕ
total_pages_of total_items page_size =
    if ltb 0 total_items then (total_items + page_size - 1) / page_size else 1

unfoldable pub meta_of : ℕ → ℕ → ℕ → PaginationMeta
meta_of page page_size total_items =
    let total_pages = total_pages_of total_items page_size in
    record {
      page = page;
      page_size = page_size;
      total_items = total_items;
      total_pages = total_pages;
      has_next = ltb page total_pages;
      has_prev = ltb 1 page;
    }

-- `query.offset((page - 1) * page_size).limit(page_size)`
unfoldable pub page_rows {ℓ} : {A : Type ℓ} → ℕ → ℕ → List A → List A
page_rows page page_size rows = take page_size (drop ((page - 1) * page_size) rows)
