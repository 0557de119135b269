-- ===== src/Category.antt =====
-- klauthed-error/src/category/error_category.rs: the classification that every error maps onto.
use rust_libraries.Prelude.{ℕ, ◌≤◌, ◌<◌, ◌≡◌, ◌↔◌, Bool, true, false, ◌&&◌, String, arith, leb, ltb}

pub data ErrorCategory : Type 0 where
  bad_request unauthorized forbidden not_found unprocessable_entity : ErrorCategory
  conflict rate_limited timeout unavailable internal : ErrorCategory

unfoldable pub http_status : ErrorCategory → ℕ
http_status bad_request = 400
http_status unauthorized = 401
http_status forbidden = 403
http_status not_found = 404
http_status unprocessable_entity = 422
http_status conflict = 409
http_status rate_limited = 429
http_status timeout = 504
http_status unavailable = 503
http_status internal = 500

unfoldable pub is_retryable : ErrorCategory → Bool
is_retryable rate_limited = true
is_retryable timeout = true
is_retryable unavailable = true
is_retryable _ = false

unfoldable pub is_client_error : ErrorCategory → Bool
unfolding http_status
is_client_error c = leb 400 (http_status c) && ltb (http_status c) 500

unfoldable pub as_str : ErrorCategory → String
as_str bad_request = "bad_request"
as_str unauthorized = "unauthorized"
as_str forbidden = "forbidden"
as_str not_found = "not_found"
as_str unprocessable_entity = "unprocessable_entity"
as_str conflict = "conflict"
as_str rate_limited = "rate_limited"
as_str timeout = "timeout"
as_str unavailable = "unavailable"
as_str internal = "internal"

-- Every category is a client error or a server error, told apart by its status, and the statuses
-- tell all categories apart.
pub http_status_classifies :
    (c d : ErrorCategory)
    → ((is_client_error c ≡ true) ↔ (http_status c < 500))
      × (400 ≤ http_status c)
      × (http_status c < 600)
      × (http_status c ≡ http_status d → c ≡ d)
unfolding is_client_error
http_status_classifies c d =
    ((λ h. ground arith, λ h. ground arith), ground arith, ground arith, λ h. ground arith)
