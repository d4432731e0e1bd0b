-- ===== src/Api/Tests.antt =====
-- The access checks and the routes at concrete inputs.
use gitvibe_dev.Prelude.{
  ℕ, ◌≤◌, ◌≡◌, ◌≢◌, refl, true, false, ◌&&◌, none, some, [], ◌∷◌, arith, contains, ◌==◌,
}
use gitvibe_dev.Prelude.Int.{pos, ◌*ℤ◌}
use gitvibe_dev.Prelude.Table.{Table}
use gitvibe_dev.Exc.{Result, ok, raised, http}
use gitvibe_dev.Json.{Fields, end, field, str, null, arr, nil, cons}
use gitvibe_dev.Json.Dict.{get}
use gitvibe_dev.Json.Convert.{Builtins}
use gitvibe_dev.Json.Convert.{strip, lower, upper}
use gitvibe_dev.Providers.{GitProvider, Stores, git_provider_router}
use gitvibe_dev.Providers.Tests.{silent, stores}
use gitvibe_dev.Tokens.{
  signing_state_key, refresh_state_key, AuthContext, role_level, verify_access_token,
}
use gitvibe_dev.Tokens.Tests.{Plain, plain, service, claims, decode_plain}
use gitvibe_dev.Api.{
  Backend, Request, start_mode, resolve_git_provider_name, csrf_protected, get_auth_context,
  require_role, demo_or_viewer_context, resolve_oauth_owner,
}
use gitvibe_dev.Api.Access.{
  get_auth_context_csrf, demo_or_viewer_context-verified, require_role_level, start_mode_valid,
  resolve_git_provider_name-demo,
}
use gitvibe_dev.Api.Sessions.{
  Sessions, OauthTokenStoreRequest, store_oauth_token, oauth_token_metadata,
  oauth_token_metadata-store_oauth_token,
}
use gitvibe_dev.Api.Offline.{SparesWorld, listings-SparesWorld, changes-SparesWorld}
use gitvibe_dev.Api.Repos.{
  World, list_repositories, list_pull_requests, list_pull_requests_legacy, list_issues,
  list_collaborators, merge_pull_request, add_or_update_collaborator, remove_collaborator,
}
use gitvibe_dev.Api.Changes.{
  IsEntitled, merge_pull_request-IsEntitled, add_or_update_collaborator-IsEntitled,
  remove_collaborator-IsEntitled, changes_refused,
}

abbrev backend : Backend Plain
backend = record {
  demo_mode = false;
  csrf_protection_enabled = true;
  jwt = plain;
  tokens = service;
  now = 1_500_000_000;
}

abbrev ada : AuthContext
ada = record { subject = "ada"; role = "operator"; csrf_token = "c1"; token_id = "t1" }

abbrev request : Request Plain
request = record {
  method = "put";
  path = "/api/repos/o/r/collaborators/bob";
  credentials = some (claims, "first", "k1");
  x_csrf_token = some "c1";
}

checked : (get_auth_context backend request).0 ≡ ok ada
unfolding get_auth_context claims decode_plain upper ◌*ℤ◌
checked = refl

get_auth_context_csrf_example : request.x_csrf_token ≡ some "c1"
unfolding csrf_protected upper
get_auth_context_csrf_example = get_auth_context_csrf backend request ada refl checked

demo_or_viewer_context-verified_example :
    (token : Plain) × (c : AuthContext) × (request.credentials ≡ some token)
    × (verify_access_token backend.jwt backend.now token backend.tokens ≡ ok c)
    × (some ada ≡ some c)
unfolding demo_or_viewer_context claims decode_plain upper ◌*ℤ◌
demo_or_viewer_context-verified_example =
    demo_or_viewer_context-verified backend request (some ada) refl refl

require_role_level_example :
    (held needed : ℕ) × (role_level "operator" ≡ some held)
    × (role_level "viewer" ≡ some needed)
    × (needed ≤ held)
unfolding require_role claims decode_plain upper ◌*ℤ◌
require_role_level_example = require_role_level backend request "viewer" ada refl

start_mode_valid_tried :
    (contains "development" ("demo" ∷ "development" ∷ "production" ∷ []) ≡ true)
    × (("development" == "demo" && lower (strip "production") == "production") ≡ false)
unfolding start_mode strip lower
start_mode_valid_tried =
    start_mode_valid (some " ") (some "off") (some "production") "development" refl

resolve_git_provider_name-demo_tried : resolve_git_provider_name true (some " GitHub ") ≢ "github"
resolve_git_provider_name-demo_tried = resolve_git_provider_name-demo (some " GitHub ")

abbrev world : World (Unit {0})
world = record { stores = stores; audit = [] }

abbrev providers : Table (GitProvider (Stores (Unit {0})))
unfolding git_provider_router
providers = git_provider_router silent

abbrev root : AuthContext
root = record ada { role = "admin" }

merge_pull_request-IsEntitled_example :
    IsEntitled "operator" "pull_request_merge_requested"
      (some ada)
      world
      (merge_pull_request false providers none none
        (some ada)
        "o"
        "r"
        (pos 3)
        "squash"
        none
        0
        world).1
unfolding merge_pull_request providers strip lower resolve_oauth_owner
merge_pull_request-IsEntitled_example =
    merge_pull_request-IsEntitled providers none none (some ada) "o" "r" world end (pos 3) "squash"
      none 0 refl

add_or_update_collaborator-IsEntitled_example :
    IsEntitled "admin" "collaborator_upserted"
      (some root)
      world
      (add_or_update_collaborator false providers none none
        (some root)
        "o"
        "r"
        "bob"
        "push"
        world).1
unfolding add_or_update_collaborator providers strip lower resolve_oauth_owner
add_or_update_collaborator-IsEntitled_example =
    add_or_update_collaborator-IsEntitled providers none none (some root) "o" "r" world end "bob"
      "push" refl

remove_collaborator-IsEntitled_tried :
    IsEntitled "admin" "collaborator_removed"
      (some root)
      world
      (remove_collaborator false providers none none (some root) "o" "r" "bob" world).1
unfolding remove_collaborator providers strip lower resolve_oauth_owner
remove_collaborator-IsEntitled_tried =
    remove_collaborator-IsEntitled providers none none (some root) "o" "r" world end "bob" refl

changes_refused_example :
    let guest = some (record ada { role = "viewer" }) in
    let refused : Result Fields × World (Unit {0}) =
      (raised (http 403 "Insufficient role for this action."), world) in
    (merge_pull_request false providers none none guest "o" "r" (pos 3) "squash" none 0 world
      ≡ refused)
    × (add_or_update_collaborator false providers none none guest "o" "r" "bob" "push" world
        ≡ refused)
    × (remove_collaborator false providers none none guest "o" "r" "bob" world ≡ refused)
unfolding role_level
changes_refused_example =
    changes_refused providers none none (record ada { role = "viewer" }) "o" "r" world 10 (pos 3)
      "squash" none 0 "bob" "push" refl (omega arith)

listings-SparesWorld_example :
    SparesWorld (list_repositories true (git_provider_router silent) none (some "github") none 5)
    × SparesWorld (
        list_pull_requests true
          (git_provider_router silent)
          none
          (some "github")
          none
          "o"
          "r"
          5
          "open")
    × SparesWorld
        (list_issues true (git_provider_router silent) none (some "github") none "o" "r" 5 "open")
    × SparesWorld
        (list_collaborators true (git_provider_router silent) none (some "github") none "o" "r" 5)
    × SparesWorld (
        list_pull_requests_legacy true
          (git_provider_router silent)
          none
          (some "github")
          none
          "r"
          (some "o")
          5
          "open")
listings-SparesWorld_example =
    listings-SparesWorld silent none (some "github") none "o" "r" (some "o") 5 "open"

changes-SparesWorld_example :
    SparesWorld (
      merge_pull_request true
        (git_provider_router silent)
        none
        (some "github")
        none
        "o"
        "r"
        (pos 1)
        "merge"
        none
        7)
    × SparesWorld (
        add_or_update_collaborator true
          (git_provider_router silent)
          none
          (some "github")
          none
          "o"
          "r"
          "bob"
          "push")
    × SparesWorld (
        remove_collaborator true
          (git_provider_router silent)
          none
          (some "github")
          none
          "o"
          "r"
          "bob")
changes-SparesWorld_example =
    changes-SparesWorld silent none (some "github") none "o" "r" (pos 1) "merge" "bob" "push" none 7

abbrev oauth_token : OauthTokenStoreRequest
oauth_token = record {
  provider = "GitHub";
  owner = "Ada";
  access_token = "gho_1234567890";
  expires_at = none;
  scopes = "repo" ∷ [];
}

abbrev sessions : Sessions
sessions = record { tokens = service; audit = [] }

abbrev builtins : Builtins
builtins = record { repr = λ v. "?"; parse_float = λ s. none }

oauth_token_metadata-store_oauth_token_example :
    let after = (store_oauth_token (λ t. "0123456789abcdef0123") (ok ada) oauth_token sessions).1 in
    (oauth_token_metadata builtins (ok ada) "github" "ADA" after
      ≡ ok (
          field "provider" (str "GitHub") (
            field "owner" (str "Ada") (
              field "token_fingerprint"
                (str "0123456789abcdef")
                (field "expires_at" null (field "scopes" (arr (cons (str "repo") nil)) end))))))
    × (get signing_state_key after.tokens.vault ≡ get signing_state_key service.vault)
    × (get refresh_state_key after.tokens.vault ≡ get refresh_state_key service.vault)
unfolding lower
oauth_token_metadata-store_oauth_token_example =
    oauth_token_metadata-store_oauth_token (λ t. "0123456789abcdef0123") builtins ada ada
      oauth_token "github" "ADA" sessions refl refl
