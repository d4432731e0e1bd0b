-- ===== src/Github/Callback.antt =====
-- `complete_oauth_callback` and `oauth_metadata`, backend/app/github_service.py.
use gitvibe_dev.Prelude.{String, Option, some, List}
use gitvibe_dev.Exc.{Result, ok, raised, http, ◌>>=◌}
use gitvibe_dev.Json.{Value, null, str, arr, nil, obj, Fields, end, field, of_strings}
use gitvibe_dev.Json.Dict.{get, get_or}
use gitvibe_dev.Json.Convert.{str_of, lower}
use gitvibe_dev.Audit.{AuditEvent, security}
use gitvibe_dev.Providers.{Call}
use gitvibe_dev.Vault.{get_value}
use gitvibe_dev.Github.{
  GithubConfig, Outside, GithubService, oauth_vault_key, require_oauth_ready, ◌then_do◌, lift,
  text_or,
}
use gitvibe_dev.Github.Oauth.{
  parse_scopes, consume_oauth_state, exchange_oauth_code, fetch_user, store_token,
}

module _ {Key Text Bytes : Type 0} (config : GithubConfig) (out : Outside Key Text Bytes) where
  -- The service and the audit log, which the other operations leave alone.
  abbrev pub Logged : Type 0
  Logged = GithubService Key Bytes × List AuditEvent

  abbrev pub unlogged : {A : Type 0} → Call (GithubService Key Bytes) A → Call Logged A
  unlogged call (s, log) = let (r, s') = call s in (r, (s', log))

  abbrev pub completed : Fields → String → List String → String → Call Logged Fields
  completed state_payload owner scopes token_type (s, log) = (
    ok (
        field "status" (str "connected") (
          field "owner" (str owner)
            (field "scopes" (arr (of_strings scopes)) (field "token_type" (str token_type) end)))),
    (
      s,
      security "github_oauth_completed" owner
          (field "scopes" (arr (of_strings scopes))
            (field "owner_hint" (get_or "owner_hint" null state_payload) end))
          log,
    ),
  )

  -- What follows the answer with the token
  unfoldable pub connect : Fields → Fields → Call Logged Fields
  unfolding fetch_user parse_scopes store_token
  connect state_payload token_payload =
      let access_token = str_of out.py (get_or "access_token" null token_payload) in
      unlogged (fetch_user config out access_token) then_do λ login.
      lift (parse_scopes (get "scope" token_payload)) then_do λ scopes.
      let owner = lower login in
      let token_type = str_of out.py (get_or "token_type" (str "bearer") token_payload) in
      unlogged (store_token config out owner access_token scopes token_type) then_do λ _.
      completed state_payload owner scopes token_type

  -- `complete_oauth_callback`
  unfoldable pub complete_oauth_callback : String → String → Option String → Call Logged Fields
  unfolding require_oauth_ready consume_oauth_state exchange_oauth_code connect
  complete_oauth_callback code state redirect_uri = lift (require_oauth_ready config) then_do λ _.
      unlogged (consume_oauth_state config out state redirect_uri) then_do λ state_payload.
      let resolved_redirect_uri =
        text_or redirect_uri (str_of out.py (get_or "redirect_uri" (str "") state_payload)) in
      unlogged (exchange_oauth_code config out code (some resolved_redirect_uri))
      then_do λ token_payload. connect state_payload token_payload

  abbrev metadata_of : String → Value → Result Fields
  metadata_of oauth_owner (obj raw) = ok (
      field "provider" (get_or "provider" (str "github") raw) (
        field "owner" (get_or "owner" (str (lower oauth_owner)) raw) (
          field "scopes" (get_or "scopes" (arr nil) raw) (
            field "token_type" (get_or "token_type" (str "bearer") raw)
              (field "updated_at" (get_or "updated_at" null raw) end)))))
  metadata_of oauth_owner _ = raised (http 404 "GitHub OAuth token not found for owner.")

  -- `oauth_metadata`
  unfoldable pub oauth_metadata : String → GithubService Key Bytes → Result Fields
  unfolding get_value
  oauth_metadata oauth_owner s =
      get_value out.crypto (oauth_vault_key oauth_owner) null s.vault >>= metadata_of oauth_owner
