-- ===== src/Config/Tests.antt =====
-- Configurations of concrete environments.
use gitvibe_dev.Prelude.{arith, ◌≡◌, refl, none, some, [], ◌∷◌, ◌==◌, if◌then◌else◌}
use gitvibe_dev.Prelude.Int.{pos, ◌≤ℤ◌}
use gitvibe_dev.Config.{Environment, from_env, platform_from_env, start_limiter}
use gitvibe_dev.Exc.{ok}
use gitvibe_dev.RateLimit.{dispatch, pass_on, bucket_of}
use gitvibe_dev.RateLimit.Window.{Tracks}
use gitvibe_dev.Config.Bounds.{from_env_bounded, start_limiter_passes}

abbrev env : Environment
env name =
    if name == "RATE_LIMIT_PER_MINUTE"
    then some "-7"
    else if name == "RATE_LIMIT_BURST"
    then some "many"
    else if name == "PLUGIN_ALLOWLIST"
    then some "lint, ,scan"
    else none

read :
    ((from_env env).rate_limit_per_minute ≡ pos 20)
    × ((from_env env).rate_limit_burst ≡ pos 30)
    × ((platform_from_env env).plugin_allowlist ≡ "lint" ∷ "scan" ∷ [])
unfolding from_env platform_from_env
read = (refl, refl, refl)

from_env_bounded_tried :
    (pos 1 ≤ℤ (from_env env).token_max_previous_keys)
    × (pos 1_024 ≤ℤ (from_env env).max_request_body_bytes)
    × (pos 1 ≤ℤ (platform_from_env env).plugin_timeout_seconds)
    × (pos 0 ≤ℤ (platform_from_env env).poll_interval_seconds)
    × (pos 1 ≤ℤ (platform_from_env env).retry_base_seconds)
    × (pos 100 ≤ℤ (platform_from_env env).event_bus_max_events)
from_env_bounded_tried = from_env_bounded env

untouched : Tracks "10.0.0.1" [] 0 (start_limiter (from_env env))
unfolding start_limiter bucket_of
untouched = record { ordered = tt; before = tt; same = λ now h. refl }

start_limiter_passes_example :
    (dispatch 5_000_000 "10.0.0.1" "/api/auth/token" (start_limiter (from_env env))).0 ≡ ok pass_on
start_limiter_passes_example =
    start_limiter_passes env 5_000_000 "10.0.0.1" "/api/auth/token" (start_limiter (from_env env))
      [] 0 refl refl untouched (omega arith) (omega arith)
