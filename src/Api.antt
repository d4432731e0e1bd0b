-- ===== src/Api.antt =====
-- The access checks of backend/app/main.py: modes, roles, CSRF tokens and the choice of a provider.
pub mod Repos
pub mod Access
pub mod Changes
pub mod Offline
pub mod Sessions
pub mod Runs
pub mod Tests
use gitvibe_dev.Prelude.{
  ℕ, String, Bool, true, false, not, ◌&&◌, ◌||◌, Option, none, some, List, [], ◌∷◌, contains, ltb,
  ◌==◌, starts_with, if◌then◌else◌,
}
use gitvibe_dev.Prelude.Table.{Table}
use gitvibe_dev.Exc.{Exc, Result, ok, raised, http, provider_error, key_error, other, ◌>>=◌}
use gitvibe_dev.Json.Convert.{strip, lower, upper, is_empty, concat}
use gitvibe_dev.Tokens.{AuthContext, Service, role_level, verify_access_token}
use gitvibe_dev.Tokens.Codec.{Jwt}
use gitvibe_dev.Providers.{GitProvider, get_provider}

-- `os.getenv(name, "")` of a value that may be missing
abbrev pub env_text : Option String → String
env_text none = ""
env_text (some value) = value

-- `env_bool` of backend/app/security.py
unfoldable pub env_bool : Option String → Bool → Bool
env_bool none default = default
env_bool (some value) default = contains (lower (strip value)) ("1" ∷ "true" ∷ "yes" ∷ "on" ∷ [])

-- `resolve_app_mode`, from the variables APP_MODE and DEMO_MODE
unfoldable pub resolve_app_mode : Option String → Option String → Result String
unfolding env_bool
resolve_app_mode app_mode demo_mode =
    let configured = lower (strip (env_text app_mode)) in
    if is_empty configured
    then ok (if env_bool demo_mode true then "demo" else "development")
    else if contains configured ("demo" ∷ "development" ∷ "production" ∷ [])
    then ok configured
    else raised (
        other (
          concat (
            "Invalid APP_MODE='" ∷ configured ∷ "'. Expected one of: demo, development, production."
            ∷ [])))

-- The mode that the program starts in: `APP_MODE` and the check after it
unfoldable pub start_mode : Option String → Option String → Option String → Result String
unfolding resolve_app_mode
start_mode app_mode demo_mode deploy_env = resolve_app_mode app_mode demo_mode >>= λ mode.
    if mode == "demo" && lower (strip (env_text deploy_env)) == "production"
    then raised (other "APP_MODE=demo is blocked when DEPLOY_ENV=production.")
    else ok mode

-- `oauth_vault_key`
unfoldable pub oauth_vault_key : String → String → String
oauth_vault_key provider owner = concat ("oauth::" ∷ lower provider ∷ "::" ∷ lower owner ∷ [])

abbrev subject_owner : Option AuthContext → Result String
subject_owner (some context) = ok (lower context.subject)
subject_owner none = raised (http 400 "OAuth owner is required.")

-- `resolve_oauth_owner`
unfoldable pub resolve_oauth_owner : Option String → Option AuthContext → Result String
resolve_oauth_owner none context = subject_owner context
resolve_oauth_owner (some owner_hint) context =
    if is_empty (strip owner_hint) then subject_owner context else ok (lower (strip owner_hint))

-- `ROLE_LEVELS[role]`
unfoldable pub level_of : String → Result ℕ
unfolding role_level
level_of role = elim (role_level role) [ none ↦ raised key_error | some level ↦ ok level ]

-- The comparison of roles in `ensure_role`, `require_role` and `demo_or_viewer_context`
unfoldable pub check_level : String → String → AuthContext → Result AuthContext
unfolding level_of
check_level detail required_role context = level_of context.role >>= λ held.
    level_of required_role >>= λ needed.
    if ltb held needed then raised (http 403 detail) else ok context

-- `ensure_role`
unfoldable pub ensure_role : Option AuthContext → String → Result AuthContext
unfolding check_level
ensure_role none required_role = raised (http 401 "Missing bearer token.")
ensure_role (some context) required_role =
    check_level "Insufficient role for this action." required_role context

-- `resolve_git_provider_name`
unfoldable pub resolve_git_provider_name : Bool → Option String → String
resolve_git_provider_name demo_mode provider_hint =
    let hint = env_text provider_hint in
    let candidate = lower (strip (if is_empty hint then "github" else hint)) in
    if demo_mode && contains candidate ("" ∷ "github" ∷ "auto" ∷ [])
    then "demo"
    else if is_empty candidate
    then "github"
    else candidate

-- `except GitProviderError as exc: raise HTTPException(exc.status_code, str(exc))`
abbrev pub provider_as_http : {A : Type 0} → Result A → Result A
provider_as_http (raised (provider_error status_code message)) = raised (http status_code message)
provider_as_http r = r

-- `get_git_provider`
unfoldable pub get_git_provider :
    {W : Type 0} → Bool → Table (GitProvider W) → Option String → Result (GitProvider W)
unfolding get_provider resolve_git_provider_name
get_git_provider demo_mode providers provider_hint =
    provider_as_http (get_provider (resolve_git_provider_name demo_mode provider_hint) providers)

-- What the checks read of a request. `subject` is `request.state.auth_subject`.
pub record Request (Token : Type 0) : Type 0 where
  pub method : String
  pub path : String
  pub credentials : Option Token
  pub x_csrf_token : Option String

pub record Backend (Token : Type 0) : Type 0 where
  pub demo_mode : Bool
  pub csrf_protection_enabled : Bool
  pub jwt : Jwt Token
  pub tokens : Service
  pub now : ℕ

abbrev csrf_exempt_paths : List String
csrf_exempt_paths = "/api/auth/token" ∷ "/api/auth/refresh" ∷ []

-- A result, and the subject that the request is then marked with.
abbrev pub Marked : Type 0 → Type 0
Marked A = Result A × Option String

module _ {Token : Type 0} (access : Backend Token) (request : Request Token) where
  unfoldable pub csrf_protected : Bool
  csrf_protected =
      access.csrf_protection_enabled
      && not (contains (upper request.method) ("GET" ∷ "HEAD" ∷ "OPTIONS" ∷ []))
      && starts_with request.path "/api/"
      && not (contains request.path csrf_exempt_paths)

  unfoldable pub check_csrf : AuthContext → Result AuthContext
  unfolding csrf_protected
  check_csrf context =
      let header = env_text request.x_csrf_token in
      if csrf_protected && (is_empty header || not (header == context.csrf_token))
      then raised (http 403 "CSRF token is missing or invalid.")
      else ok context

  -- What follows `verify_access_token` in `get_auth_context`
  unfoldable pub mark_checked : Result AuthContext → Marked AuthContext
  unfolding check_csrf
  mark_checked (raised e) = (raised e, none)
  mark_checked (ok context) = (check_csrf context, some context.subject)

  -- `get_auth_context`
  unfoldable pub get_auth_context : Marked AuthContext
  unfolding mark_checked verify_access_token
  get_auth_context = elim request.credentials [
    | none ↦ (raised (http 401 "Missing bearer token."), none)
    | some token ↦ mark_checked (verify_access_token access.jwt access.now token access.tokens)
  ]

  -- `require_role(required_role)`: the role is known, or the definition of the route raises.
  unfoldable pub require_role : String → Marked AuthContext
  unfolding get_auth_context check_level
  require_role required_role =
      let (r, subject) = get_auth_context in
      (r >>= check_level "Insufficient role for this action." required_role, subject)

  -- `demo_or_viewer_context`
  unfoldable pub demo_or_viewer_context : Marked (Option AuthContext)
  unfolding get_auth_context check_level
  demo_or_viewer_context = elim request.credentials [
    | none ↦
        if access.demo_mode
        then (ok none, some "demo-anonymous")
        else (raised (http 401 "Missing bearer token."), none)
    | some token ↦
        let (r, subject) = get_auth_context in
        (
          r >>= check_level "Viewer role is required." "viewer" >>= λ context. ok (some context),
          subject,
        )
  ]

  -- `optional_auth_context`
  unfoldable pub optional_auth_context : Marked (Option AuthContext)
  unfolding verify_access_token
  optional_auth_context = elim request.credentials [
    | none ↦ (ok none, none)
    | some token ↦ elim (verify_access_token access.jwt access.now token access.tokens) [
      | raised e ↦ (raised e, none)
      | ok context ↦ (ok (some context), some context.subject)
    ]
  ]
