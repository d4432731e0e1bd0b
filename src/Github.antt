-- ===== src/Github.antt =====
-- backend/app/github_service.py: the service's configuration and state, and what it makes of texts.
-- httpx is a parameter: what is answered to a request, given the requests before it.
pub mod Url
pub mod Requests
pub mod Oauth
pub mod Callback
pub mod Calls
pub mod Once
pub mod Replay
pub mod Authorized
pub mod Issues
pub mod Tests
use gitvibe_dev.Prelude.{
  ℕ, String, Bool, not, ◌&&◌, Option, none, some, List, [], ◌∷◌, if◌then◌else◌,
}
use gitvibe_dev.Exc.{Result, ok, raised, http}
use gitvibe_dev.Json.{Value, str, arr, obj, Fields}
use gitvibe_dev.Json.Dict.{get}
use gitvibe_dev.Json.Convert.{Builtins, lower, is_empty, concat}
use gitvibe_dev.Providers.{Call}
use gitvibe_dev.Vault.{Crypto, LocalVault}

pub record GithubConfig : Type 0 where
  pub client_id : String
  pub client_secret : String
  pub app_private_key : String
  pub oauth_redirect_uri : String
  pub api_base_url : String
  pub oauth_authorize_url : String
  pub oauth_token_url : String

pub record HttpRequest : Type 0 where
  pub method : String
  pub url : String
  pub headers : Fields
  pub params : Option Fields
  pub json_body : Option Fields
  pub data_body : Option Fields

-- `json` is missing where `response.json()` raises ValueError.
pub record HttpResponse : Type 0 where
  pub status_code : ℕ
  pub json : Option Value
  pub text : String

-- What the service meets outside: the network, the vault's cryptography, the time in seconds, and
-- what is drawn for a state and for the encryption of the vault.
pub record Outside (Key Text Bytes : Type 0) : Type 0 where
  pub py : Builtins
  pub net : List HttpRequest → HttpRequest → Result HttpResponse
  pub crypto : Crypto Key Text Bytes
  pub now : ℕ
  pub state_draw : String
  pub seal_draw : String
  pub delete_draw : String

-- The service: its vault, and the requests that it sent, oldest first.
pub record GithubService (Key Bytes : Type 0) : Type 0 where
  pub vault : LocalVault Key Bytes
  pub sent : List HttpRequest

-- What follows a call that returns
abbrev pub continue : {W A B : Type 0} → (A → Call W B) → Result A × W → Result B × W
continue next (ok a, w) = next a w
continue next (raised e, w) = (raised e, w)

infixr 10 ◌then_do◌
abbrev pub ◌then_do◌ : {W A B : Type 0} → Call W A → (A → Call W B) → Call W B
(call then_do next) w = continue next (call w)

-- A step that reads nothing of the state
abbrev pub lift : {W A : Type 0} → Result A → Call W A
lift r w = (r, w)

-- `text or other` for a text that may be missing
abbrev pub text_or : Option String → String → String
text_or none other = other
text_or (some text) other = if is_empty text then other else text

-- `oauth_ready`
abbrev pub oauth_ready : GithubConfig → Bool
oauth_ready config = not (is_empty config.client_id) && not (is_empty config.client_secret)

-- `oauth_vault_key` of the service
unfoldable pub oauth_vault_key : String → String
oauth_vault_key owner = concat ("oauth::github::" ∷ lower owner ∷ [])

-- `_state_vault_key`
unfoldable pub state_vault_key : String → String
state_vault_key state = concat ("github_oauth_state::" ∷ state ∷ [])

-- `_require_oauth_ready`
unfoldable pub require_oauth_ready : GithubConfig → Result (Unit {0})
require_oauth_ready config =
    if oauth_ready config then ok tt else raised (http 503 "GitHub OAuth is not configured.")

-- `v` where `isinstance(v, str) and v`
abbrev pub full_text : Option Value → Option String
full_text (some (str s)) = if is_empty s then none else some s
full_text _ = none
