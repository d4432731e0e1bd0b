-- ===== src/Github/Requests.antt =====
-- The requests to the API of GitHub, backend/app/github_service.py.
use gitvibe_dev.Prelude.{String, Option, none, some, [], ◌∷◌, ◌++◌, leb, if◌then◌else◌}
use gitvibe_dev.Prelude.Int.{pos}
use gitvibe_dev.Exc.{Result, ok, raised, http, ◌>>=◌}
use gitvibe_dev.Json.{Value, null, int, str, obj, Fields, end, field}
use gitvibe_dev.Json.Dict.{get}
use gitvibe_dev.Json.Convert.{Builtins, str_of, truthy, concat}
use gitvibe_dev.Providers.{Call}
use gitvibe_dev.Vault.{get_value}
use gitvibe_dev.Github.{
  GithubConfig, HttpRequest, HttpResponse, Outside, GithubService, oauth_vault_key, full_text,
}
use gitvibe_dev.Github.Url.{rstrip_slash}

-- `a or b` of values that may be missing
abbrev pub or_else : Option Value → Option Value → Option Value
or_else none b = b
or_else (some v) b = if truthy v then some v else b

abbrev error_text : Option Value → Option String
error_text (some (obj d)) = elim (full_text (get "message" d)) [
  | some message ↦ some message
  | none ↦ full_text (or_else (get "error_description" d) (get "error" d))
]
error_text _ = none

-- `_describe_github_error`
unfoldable pub describe_github_error : Builtins → HttpResponse → String
describe_github_error py response = elim (error_text response.json) [
  | some text ↦ text
  | none ↦
      concat (
        "GitHub request failed with status "
        ∷ str_of py (int (pos response.status_code))
        ∷ "."
        ∷ [])
]

abbrev pub stored_token : Value → Result String
stored_token (obj raw) = elim (full_text (get "access_token" raw)) [
  | none ↦ raised (http 401 "Stored GitHub OAuth token is invalid.")
  | some access_token ↦ ok access_token
]
stored_token _ = raised (http 401 "GitHub OAuth token not found for owner.")

abbrev pub api_headers : String → String → Fields
api_headers access_token accept =
    field "Authorization" (str (concat ("Bearer " ∷ access_token ∷ [])))
      (field "Accept" (str accept) (field "X-GitHub-Api-Version" (str "2022-11-28") end))

abbrev pub json_of : HttpResponse → Result Value
json_of response = elim response.json [
  | none ↦ raised (http 502 "GitHub API returned invalid JSON.")
  | some value ↦ ok value
]

module _ {Key Text Bytes : Type 0} (config : GithubConfig) (out : Outside Key Text Bytes) where
  abbrev pub Service : Type 0
  Service = GithubService Key Bytes

  -- `get_access_token`
  unfoldable pub get_access_token : String → Service → Result String
  unfolding get_value
  get_access_token oauth_owner s =
      get_value out.crypto (oauth_vault_key oauth_owner) null s.vault >>= stored_token

  -- A request of the HTTP client
  unfoldable pub send : HttpRequest → Call Service HttpResponse
  send request s = (out.net s.sent request, record s { sent = s.sent ++ request ∷ [] })

  unfoldable pub check_status : HttpResponse → Result HttpResponse
  unfolding describe_github_error
  check_status response =
      if leb 400 response.status_code
      then raised (
          http response.status_code
            (concat ("GitHub API error: " ∷ describe_github_error out.py response ∷ [])))
      else ok response

  unfoldable pub api_call :
      String → String → Option Fields → Option Fields → String → String → HttpRequest
  api_call method path params json_body accept access_token = record {
    method = method;
    url = concat (rstrip_slash config.api_base_url ∷ path ∷ []);
    headers = api_headers access_token accept;
    params = params;
    json_body = json_body;
    data_body = none;
  }

  -- `_github_api_request`
  unfoldable pub github_api_request :
      String → String → Option Fields → Option Fields → String → String → Call Service HttpResponse
  unfolding get_access_token send check_status
  github_api_request method path params json_body accept oauth_owner s =
      elim (get_access_token oauth_owner s) [
        | raised e ↦ (raised e, s)
        | ok access_token ↦
            let (r, s') = send (api_call method path params json_body accept access_token) s in
            (r >>= check_status, s')
      ]

  -- `_github_api_json`
  unfoldable pub github_api_json :
      String → String → Option Fields → Option Fields → String → Call Service Value
  unfolding github_api_request
  github_api_json method path params json_body oauth_owner s =
      let (r, s') =
        github_api_request method path params json_body "application/vnd.github+json" oauth_owner
          s in
      (r >>= json_of, s')
