-- ===== src/Github/Oauth.antt =====
-- Signing in with GitHub, backend/app/github_service.py: the state that starts it, and the callback.
use gitvibe_dev.Prelude.{
  ◌+◌, String, not, ◌&&◌, Option, none, some, List, [], ◌∷◌, leb, ◌==◌, if◌then◌else◌,
}
use gitvibe_dev.Prelude.Int.{pos, ltb_ℤ}
use gitvibe_dev.Exc.{Result, ok, raised, http, value_error, other, ◌>>=◌}
use gitvibe_dev.Json.{Value, null, int, str, arr, obj, Fields, end, field, of_strings}
use gitvibe_dev.Json.Dict.{get, get_or, put}
use gitvibe_dev.Json.Convert.{str_of, int_of, truthy, lower, is_empty, concat}
use gitvibe_dev.Providers.{Call}
use gitvibe_dev.Vault.{get_value, set_value, delete_value}
use gitvibe_dev.Github.{
  GithubConfig, HttpRequest, HttpResponse, Outside, GithubService, oauth_vault_key, state_vault_key,
  require_oauth_ready, full_text, ◌then_do◌, lift, text_or,
}
use gitvibe_dev.Github.Url.{rstrip_slash, urlencode, parse_scope_text}
use gitvibe_dev.Github.Requests.{or_else, describe_github_error, api_headers, send}

-- `_parse_scopes`; a true value that is no text has no `split`.
unfoldable pub parse_scopes : Option Value → Result (List String)
unfolding parse_scope_text
parse_scopes none = ok []
parse_scopes (some (str raw_scopes)) =
    ok (if is_empty raw_scopes then [] else parse_scope_text raw_scopes)
parse_scopes (some v) = if truthy v then raised (other "AttributeError") else ok []

abbrev or_null : Option Value → Value
or_null none = null
or_null (some v) = v

module _ {Key Text Bytes : Type 0} (config : GithubConfig) (out : Outside Key Text Bytes) where
  abbrev State : Type 0
  State = GithubService Key Bytes

  -- `self._vault.set`
  unfoldable pub vault_set : String → Value → Call State (Unit {0})
  unfolding set_value
  vault_set key value s =
      let (r, vault) = set_value out.crypto out.seal_draw key value s.vault in
      (r, record s { vault = vault })

  unfoldable pub start_answer : String → String → Fields
  unfolding urlencode
  start_answer scope redirect_uri =
      let query = urlencode out.py (
        field "client_id" (str config.client_id) (
          field "redirect_uri" (str redirect_uri) (
            field "scope" (str scope)
              (field "state" (str out.state_draw) (field "allow_signup" (str "false") end))))) in
      field "authorize_url" (str (concat (config.oauth_authorize_url ∷ "?" ∷ query ∷ [])))
        (field "state" (str out.state_draw) (field "expires_at" (int (pos (out.now + 600))) end))

  -- `create_oauth_start`
  unfoldable pub create_oauth_start : Option String → String → String → Call State Fields
  unfolding require_oauth_ready vault_set state_vault_key start_answer
  create_oauth_start redirect_uri scope owner_hint =
      let resolved_redirect_uri = text_or redirect_uri config.oauth_redirect_uri in
      lift (require_oauth_ready config) then_do λ _.
      lift (
        if is_empty resolved_redirect_uri
        then raised (http 400 "OAuth redirect URI is required.")
        else ok tt)
      then_do λ _.
          vault_set (state_vault_key out.state_draw) (
            obj (
              field "expires_at" (int (pos (out.now + 600))) (
                field "owner_hint" (str (lower owner_hint))
                  (field "redirect_uri" (str resolved_redirect_uri) end))))
          then_do λ _. lift (ok (start_answer scope resolved_redirect_uri))

  abbrev checked_uri : Option String → Fields → Result Fields
  checked_uri redirect_uri raw =
      let stored = str_of out.py (get_or "redirect_uri" (str "") raw) in
      let given = text_or redirect_uri "" in
      if not (is_empty given) && not (is_empty stored) && not (given == stored)
      then raised (http 400 "OAuth redirect URI mismatch.")
      else ok raw

  -- The checks of `_consume_oauth_state`
  unfoldable pub check_state : Option String → Value → Result Fields
  check_state redirect_uri (obj raw) =
      int_of (get_or "expires_at" (int (pos 0)) raw) >>= λ expires_at.
      if ltb_ℤ expires_at (pos out.now)
      then raised (http 400 "OAuth state has expired.")
      else checked_uri redirect_uri raw
  check_state redirect_uri _ = raised (http 400 "OAuth state is missing or invalid.")

  unfoldable pub vault_get : String → Call State Value
  unfolding get_value
  vault_get key s = (get_value out.crypto key null s.vault, s)

  unfoldable pub vault_delete : String → Call State (Unit {0})
  unfolding delete_value
  vault_delete key s =
      let (r, vault) = delete_value out.crypto out.delete_draw key s.vault in
      (r, record s { vault = vault })

  -- `_consume_oauth_state`
  unfoldable pub consume_oauth_state : String → Option String → Call State Fields
  unfolding vault_get vault_delete state_vault_key check_state
  consume_oauth_state state redirect_uri = vault_get (state_vault_key state) then_do λ raw.
      vault_delete (state_vault_key state) then_do λ _. lift (check_state redirect_uri raw)

  abbrev token_checked : Fields → Result Fields
  token_checked d = elim (full_text (get "access_token" d)) [
    | some access_token ↦ ok d
    | none ↦ raised (
        http 400 (
          concat (
            "GitHub OAuth did not return an access token: "
            ∷ str_of out.py (or_null (or_else (get "error_description" d) (get "error" d)))
            ∷ [])))
  ]

  abbrev token_payload : Option Value → Result Fields
  token_payload none = raised (http 502 "GitHub OAuth response was not valid JSON.")
  token_payload (some (obj d)) = token_checked d
  token_payload (some _) = raised (http 502 "GitHub OAuth response format is invalid.")

  abbrev failed_with : String → HttpResponse → Result (Option Value)
  unfolding describe_github_error
  failed_with prefix response =
      if leb 400 response.status_code
      then raised (http 502 (concat (prefix ∷ describe_github_error out.py response ∷ [])))
      else ok response.json

  -- `_exchange_oauth_code`
  unfoldable pub exchange_oauth_code : String → Option String → Call State Fields
  unfolding send failed_with
  exchange_oauth_code code redirect_uri =
      let payload =
        field "client_id" (str config.client_id)
          (field "client_secret" (str config.client_secret) (field "code" (str code) end)) in
      let given = text_or redirect_uri "" in
      let request : HttpRequest = record {
        method = "POST";
        url = config.oauth_token_url;
        headers = field "Accept" (str "application/json") end;
        params = none;
        json_body = none;
        data_body =
            some (if is_empty given then payload else put "redirect_uri" (str given) payload);
      } in
      send config out request then_do λ response.
      lift (failed_with "GitHub OAuth exchange failed: " response >>= token_payload)

  abbrev user_checked : Option Value → Result String
  user_checked none = raised value_error
  user_checked (some (obj d)) = elim (get "login" d) [
    | some (str login) ↦ ok login
    | _ ↦ raised (http 502 "GitHub user response is invalid.")
  ]
  user_checked (some _) = raised (http 502 "GitHub user response is invalid.")

  -- `_fetch_user`, of whose answer only the login is used
  unfoldable pub fetch_user : String → Call State String
  unfolding send failed_with
  fetch_user access_token =
      let request : HttpRequest = record {
        method = "GET";
        url = concat (rstrip_slash config.api_base_url ∷ "/user" ∷ []);
        headers = api_headers access_token "application/vnd.github+json";
        params = none;
        json_body = none;
        data_body = none;
      } in
      send config out request then_do λ response.
      lift (failed_with "Failed to fetch GitHub user profile: " response >>= user_checked)

  abbrev pub token_entry : String → String → List String → String → Fields
  token_entry owner access_token scopes token_type = field "provider" (str "github") (
      field "owner" (str owner) (
        field "access_token" (str access_token) (
          field "scopes" (arr (of_strings scopes))
            (field "token_type" (str token_type) (field "updated_at" (int (pos out.now)) end)))))

  -- `_store_token`
  unfoldable pub store_token : String → String → List String → String → Call State (Unit {0})
  unfolding vault_set oauth_vault_key
  store_token owner access_token scopes token_type =
      vault_set (oauth_vault_key owner) (obj (token_entry owner access_token scopes token_type))
