-- ===== src/RateLimit.antt =====
-- RateLimitMiddleware and PayloadSizeMiddleware of backend/app/security.py.
-- Times are readings of the monotonic clock in millionths of a second.
pub mod Window
pub mod Tests
use gitvibe_dev.Prelude.{
  ℕ, ◌+◌, ◌-◌, ◌/◌, String, Bool, true, false, ◌||◌, Option, none, some, List, [], ◌∷◌, ◌++◌,
  length, max, ltb, leb, ◌==◌, starts_with, if◌then◌else◌,
}
use gitvibe_dev.Prelude.Int.{ℤ, pos, ltb_ℤ}
use gitvibe_dev.Exc.{Exc, Result, ok, raised, other}
use gitvibe_dev.Json.{int, str, end, field}
use gitvibe_dev.Json.Convert.{parse_int, is_empty}
use gitvibe_dev.Audit.{AuditEvent, security}

-- What a middleware does with a request: it passes it on to the next one, or answers itself.
pub data Verdict : Type 0 where
  pass_on : Verdict
  answer : (status_code : ℕ) (detail : String) → Verdict
  retry_later : (retry_after : ℕ) → Verdict

-- `PayloadSizeMiddleware.dispatch`
unfoldable pub check_size : ℕ → Option String → Verdict
check_size max_bytes none = pass_on
check_size max_bytes (some content_length) =
    if is_empty content_length then pass_on else (elim (parse_int content_length) [
      | none ↦ answer 400 "Invalid Content-Length header."
      | some n ↦
          if ltb_ℤ (pos max_bytes) n then answer 413 "Request payload too large." else pass_on
    ])

pub record Limiter : Type 0 where
  pub rate_limit_per_minute : ℕ
  pub burst : ℕ
  -- `self._requests`: the times of the requests let through, by client, oldest first
  pub requests : List (String × List ℕ)
  pub audit : List AuditEvent

abbrev pub window : ℕ
window = 60_000_000

-- `while bucket and (now - bucket[0]) > 60: bucket.popleft()`
unfoldable pub prune : ℕ → List ℕ → List ℕ
prune now [] = []
prune now (t ∷ bucket) =
    let rest = prune now bucket in if ltb window (now - t) then rest else t ∷ bucket

unfoldable pub limit_for : ℕ → ℕ → String → ℕ
limit_for rate burst path =
    if starts_with path "/api/auth/" then max 10 (rate / 4) else rate + burst

-- `self._requests[key]`, an empty bucket for a client that is new
unfoldable pub bucket_of : String → List (String × List ℕ) → List ℕ
bucket_of key [] = []
bucket_of key ((k, bucket) ∷ rest) = if k == key then bucket else bucket_of key rest

unfoldable pub set_bucket : String → List ℕ → List (String × List ℕ) → List (String × List ℕ)
set_bucket key bucket [] = (key, bucket) ∷ []
set_bucket key bucket ((k, b) ∷ rest) =
    let more = set_bucket key bucket rest in if k == key then (k, bucket) ∷ rest else (k, b) ∷ more

-- `max(1, int(60 - (now - bucket[0])))`; `bucket[0]` raises on an empty bucket.
unfoldable pub retry_after : ℕ → List ℕ → Result Verdict
retry_after now [] = raised (other "deque index out of range")
retry_after now (t ∷ bucket) = ok (retry_later (max 1 ((window - (now - t)) / 1_000_000)))

-- `RateLimitMiddleware.dispatch` for the client `ip`
unfoldable pub dispatch : ℕ → String → String → Limiter → Result Verdict × Limiter
unfolding prune limit_for bucket_of set_bucket retry_after
dispatch now ip path s =
    let bucket = prune now (bucket_of ip s.requests) in
    let limit = limit_for s.rate_limit_per_minute s.burst path in
    if leb limit (length bucket)
    then (
      retry_after now bucket,
      record s {
        requests = set_bucket ip bucket s.requests;
        audit =
            security "rate_limit_exceeded" ip
              (field "path" (str path) (field "limit" (int (pos limit)) end)) s.audit;
      },
    )
    else (ok pass_on, record s { requests = set_bucket ip (bucket ++ now ∷ []) s.requests })
