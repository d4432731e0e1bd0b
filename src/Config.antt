-- ===== src/Config.antt =====
-- The configuration from the environment: SecurityConfig of backend/app/security.py and the values
-- that backend/app/main.py reads when it starts.
pub mod Bounds
pub mod Tests
use gitvibe_dev.Prelude.{
  ℕ, String, Bool, true, false, not, Option, none, some, List, [], ◌∷◌, if◌then◌else◌,
}
use gitvibe_dev.Prelude.Int.{ℤ, pos, negsuc, pos_part, ltb_ℤ}
use gitvibe_dev.Json.Convert.{parse_int, is_empty}
use gitvibe_dev.RateLimit.{Limiter}
use gitvibe_dev.Api.{env_bool}
use gitvibe_dev.Github.Url.{parse_scope_text}

-- The variables of the environment
abbrev pub Environment : Type 0
Environment = String → Option String

-- `os.getenv(name, default)`
abbrev pub env_or : String → Option String → String
env_or default none = default
env_or default (some value) = value

-- `env_int`
unfoldable pub env_int : Option String → ℤ → ℤ
unfolding parse_int
env_int none default = default
env_int (some raw_value) default = elim (parse_int raw_value) [ none ↦ default | some n ↦ n ]

-- `max(a, b)`: the first, unless the second is greater
abbrev pub max_ℤ : ℤ → ℤ → ℤ
max_ℤ a b = if ltb_ℤ a b then b else a

pub record SecurityConfig : Type 0 where
  pub secret_key : String
  pub bootstrap_admin_token : String
  pub access_token_ttl_minutes : ℤ
  pub refresh_token_ttl_hours : ℤ
  pub token_max_previous_keys : ℤ
  pub rate_limit_per_minute : ℤ
  pub rate_limit_burst : ℤ
  pub max_request_body_bytes : ℤ
  pub csrf_protection_enabled : Bool
  pub security_headers_enabled : Bool
  pub audit_log_file : String
  pub vault_file : String

-- `SecurityConfig.from_env`
unfoldable pub from_env : Environment → SecurityConfig
unfolding env_int env_bool
from_env env = record {
  secret_key = env_or "change_me" (env "SECRET_KEY");
  bootstrap_admin_token = env_or "change_me" (env "BOOTSTRAP_ADMIN_TOKEN");
  access_token_ttl_minutes = env_int (env "ACCESS_TOKEN_TTL_MINUTES") (pos 20);
  refresh_token_ttl_hours = env_int (env "REFRESH_TOKEN_TTL_HOURS") (pos 12);
  token_max_previous_keys = max_ℤ (pos 1) (env_int (env "TOKEN_MAX_PREVIOUS_KEYS") (pos 2));
  rate_limit_per_minute = max_ℤ (pos 20) (env_int (env "RATE_LIMIT_PER_MINUTE") (pos 120));
  rate_limit_burst = max_ℤ (pos 0) (env_int (env "RATE_LIMIT_BURST") (pos 30));
  max_request_body_bytes =
      max_ℤ (pos 1_024) (env_int (env "MAX_REQUEST_BODY_BYTES") (pos 1_048_576));
  csrf_protection_enabled = env_bool (env "CSRF_PROTECTION_ENABLED") true;
  security_headers_enabled = env_bool (env "SECURITY_HEADERS_ENABLED") true;
  audit_log_file = env_or "/data/logs/audit.log" (env "AUDIT_LOG_FILE");
  vault_file = env_or "/data/vault/secrets.enc" (env "VAULT_FILE");
}

-- The limiter that the program starts with; its rates are not negative.
unfoldable pub start_limiter : SecurityConfig → Limiter
start_limiter config = record {
  rate_limit_per_minute = pos_part config.rate_limit_per_minute;
  burst = pos_part config.rate_limit_burst;
  requests = [];
  audit = [];
}

-- What else main.py reads for the parts that it starts
pub record PlatformConfig : Type 0 where
  pub plugin_allowlist : List String
  pub plugin_sandbox_enabled : Bool
  pub plugin_timeout_seconds : ℤ
  pub poll_interval_seconds : ℤ
  pub retry_base_seconds : ℤ
  pub event_bus_max_events : ℤ

unfoldable pub platform_from_env : Environment → PlatformConfig
unfolding env_int env_bool parse_scope_text
platform_from_env env = record {
  plugin_allowlist = parse_scope_text (env_or "" (env "PLUGIN_ALLOWLIST"));
  plugin_sandbox_enabled = env_bool (env "PLUGIN_SANDBOX_ENABLED") false;
  plugin_timeout_seconds = max_ℤ (pos 1) (env_int (env "PLUGIN_TIMEOUT_SECONDS") (pos 5));
  poll_interval_seconds = max_ℤ (pos 0) (env_int (env "JOB_QUEUE_POLL_SECONDS") (pos 1));
  retry_base_seconds = max_ℤ (pos 1) (env_int (env "JOB_RETRY_BASE_SECONDS") (pos 2));
  event_bus_max_events = max_ℤ (pos 100) (env_int (env "EVENT_BUS_MAX_EVENTS") (pos 1_000));
}
