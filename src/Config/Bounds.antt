-- ===== src/Config/Bounds.antt =====
-- What every environment keeps to, backend/app/security.py and backend/app/main.py.
use gitvibe_dev.Prelude.{
  ◌≡◌, ℕ, List, length, ◌<◌, ◌+◌, ◌/◌, ◌≤◌, String, Bool, true, false, max, arith, starts_with,
  if◌then◌else◌,
}
use gitvibe_dev.Prelude.Int.{ℤ, pos, negsuc, pos_part, ◌≤ℤ◌}
use gitvibe_dev.Exc.{ok}
use gitvibe_dev.RateLimit.{Limiter, limit_for, pass_on, dispatch}
use gitvibe_dev.RateLimit.Window.{Tracks, in_window, dispatch-passes}
use gitvibe_dev.Config.{Environment, env_int, max_ℤ, from_env, start_limiter, platform_from_env}

at_least : (n : ℕ) (b : ℤ) → pos n ≤ℤ max_ℤ (pos n) b
at_least n (pos m) = ground arith
at_least n (negsuc m) = ground arith

part : (n : ℕ) (b : ℤ) → n ≤ pos_part (max_ℤ (pos n) b)
part n (pos m) = ground arith
part n (negsuc m) = ground arith

-- Whatever the environment says, at least one signing key is kept before the current one, requests
-- of 1024 bytes are taken, a plugin has a second, a retry waits a second, and the event bus keeps
-- 100 events.
pub from_env_bounded :
    (env : Environment)
    → (pos 1 ≤ℤ (from_env env).token_max_previous_keys)
      × (pos 1_024 ≤ℤ (from_env env).max_request_body_bytes)
      × (pos 1 ≤ℤ (platform_from_env env).plugin_timeout_seconds)
      × (pos 0 ≤ℤ (platform_from_env env).poll_interval_seconds)
      × (pos 1 ≤ℤ (platform_from_env env).retry_base_seconds)
      × (pos 100 ≤ℤ (platform_from_env env).event_bus_max_events)
unfolding from_env platform_from_env
from_env_bounded env = (
  at_least 1 (env_int (env "TOKEN_MAX_PREVIOUS_KEYS") (pos 2)),
  at_least 1_024 (env_int (env "MAX_REQUEST_BODY_BYTES") (pos 1_048_576)),
  at_least 1 (env_int (env "PLUGIN_TIMEOUT_SECONDS") (pos 5)),
  at_least 0 (env_int (env "JOB_QUEUE_POLL_SECONDS") (pos 1)),
  at_least 1 (env_int (env "JOB_RETRY_BASE_SECONDS") (pos 2)),
  at_least 100 (env_int (env "EVENT_BUS_MAX_EVENTS") (pos 1_000)),
)

limit_at_least :
    (b : Bool) (rate burst : ℕ)
    → 20 ≤ rate
    → (if b then 10 else 20) ≤ (if b then max 10 (rate / 4) else rate + burst)
limit_at_least true rate burst h = omega arith
limit_at_least false rate burst h = omega (arith, h)

start_limiter_allows :
    (env : Environment) (path : String)
    → let s = start_limiter (from_env env) in
      (if starts_with path "/api/auth/" then 10 else 20)
      ≤ limit_for s.rate_limit_per_minute s.burst path
unfolding from_env start_limiter limit_for
start_limiter_allows env path =
    limit_at_least (starts_with path "/api/auth/") _ _
      (part 20 (env_int (env "RATE_LIMIT_PER_MINUTE") (pos 120)))

-- Whatever the environment says, the limiter, at the rates that the program starts it with, lets a
-- request pass if fewer than 20 requests of the client, or fewer than 10 for a path of the
-- authentication, were let through in the minute before it, and the clock does not go back.
pub start_limiter_passes :
    (env : Environment) (now : ℕ) (ip path : String) (s : Limiter) (history : List ℕ) (last : ℕ)
    → s.rate_limit_per_minute ≡ (start_limiter (from_env env)).rate_limit_per_minute
    → s.burst ≡ (start_limiter (from_env env)).burst
    → Tracks ip history last s
    → last ≤ now
    → length (in_window now history) < (if starts_with path "/api/auth/" then 10 else 20)
    → (dispatch now ip path s).0 ≡ ok pass_on
start_limiter_passes env now ip path s history last rate burst t le few =
    let enough : (if starts_with path "/api/auth/" then 10 else 20)
        ≤ limit_for s.rate_limit_per_minute s.burst path =
      rw (rate, burst) (start_limiter_allows env path) in
    (dispatch-passes now ip path s history last t le (omega (arith, few, enough))).0
