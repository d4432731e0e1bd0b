-- ===== src/Github/Tests.antt =====
-- The GitHub service at concrete inputs.
use gitvibe_dev.Prelude.{String, ◌≡◌, refl, none, some, List, [], ◌∷◌, ◌==◌, if◌then◌else◌, All}
use gitvibe_dev.Prelude.Int.{pos}
use gitvibe_dev.Exc.{Result, ok, raised, http}
use gitvibe_dev.Json.{Value, null, int, str, arr, obj, Items, nil, cons, Fields, end, field}
use gitvibe_dev.Json.Convert.{concat, lower, int_of}
use gitvibe_dev.Vault.{read}
use gitvibe_dev.Vault.Sorted.{sorted_fields}
use gitvibe_dev.Vault.Tests.{Blob, toy, toy-CryptoLaws}
use gitvibe_dev.Github.{GithubConfig, HttpRequest, HttpResponse, Outside, GithubService}
use gitvibe_dev.Github.Url.{quote_plus, rstrip_slash, split_commas, parse_scope_text}
use gitvibe_dev.Github.Requests.{get_access_token, api_call}
use gitvibe_dev.Github.Oauth.{create_oauth_start, store_token}
use gitvibe_dev.Github.Callback.{Logged, complete_oauth_callback}
use gitvibe_dev.Github.Calls.{
  list_repositories, list_pull_requests, list_issues, merge_pull_request, list_collaborators,
  add_collaborator, remove_collaborator, get_pull_review_context,
}
use gitvibe_dev.Github.Once.{get_access_token-store_token}
use gitvibe_dev.Github.Replay.{complete_oauth_callback_once}
use gitvibe_dev.Github.Authorized.{IsCareful, calls-IsCareful}
use gitvibe_dev.Github.Issues.{IsIssueOf, IsAnswered, list_issues-All}

abbrev config : GithubConfig
config = record {
  client_id = "id";
  client_secret = "secret";
  app_private_key = "";
  oauth_redirect_uri = "http://localhost/cb";
  api_base_url = "https://api.github.com/";
  oauth_authorize_url = "https://github.com/login/oauth/authorize";
  oauth_token_url = "https://github.com/login/oauth/access_token";
}

abbrev answered : Value → Result HttpResponse
answered v = ok (record { status_code = 200; json = some v; text = "" })

abbrev an_issue : Fields
an_issue = field "number" (int (pos 7)) (field "user" (obj (field "login" (str "ada") end)) end)

abbrev a_pull : Fields
a_pull = field "number" (int (pos 8)) (field "pull_request" (obj end) end)

abbrev two_items : Items
two_items = cons (obj a_pull) (cons (obj an_issue) nil)

abbrev net : List HttpRequest → HttpRequest → Result HttpResponse
net before request =
    if request.url == "https://github.com/login/oauth/access_token"
    then answered
        (obj (field "access_token" (str "t1") (field "scope" (str "repo, read:user") end)))
    else if request.url == "https://api.github.com/user"
    then answered (obj (field "login" (str "Ada") end))
    else answered (arr two_items)

abbrev out : Outside String Fields Blob
out = record {
  py = record { repr = λ v. "?"; parse_float = λ s. none };
  net = net;
  crypto = toy;
  now = 1_000;
  state_draw = "s1";
  seal_draw = "";
  delete_draw = "";
}

texts :
    (quote_plus "a b/é" ≡ "a+b%2F%C3%A9")
    × (rstrip_slash "https://x//" ≡ "https://x")
    × (parse_scope_text "repo, ,read:user" ≡ "repo" ∷ "read:user" ∷ [])
    × (split_commas "" ≡ "" ∷ [])
unfolding quote_plus rstrip_slash parse_scope_text
texts = (refl, refl, refl, refl)

abbrev fresh : GithubService String Blob
fresh = record { vault = record { fernet = "m"; file = none }; sent = [] }

abbrev started : GithubService String Blob
unfolding create_oauth_start
started = (create_oauth_start config out none "repo" "Ada" fresh).1

abbrev signed_in : Logged config out
unfolding complete_oauth_callback started
signed_in = (complete_oauth_callback config out "c" "s1" none (started, [])).1

first_callback :
    (complete_oauth_callback config out "c" "s1" none (started, [])).0
    ≡ ok (
        field "status" (str "connected") (
          field "owner" (str "ada") (
            field "scopes"
              (arr (cons (str "repo") (cons (str "read:user") nil)))
              (field "token_type" (str "bearer") end))))
unfolding complete_oauth_callback started sorted_fields int_of rstrip_slash lower
first_callback = refl

token_found : get_access_token config out "ADA" signed_in.0 ≡ ok "t1"
unfolding get_access_token signed_in sorted_fields int_of rstrip_slash lower
token_found = refl

complete_oauth_callback_once_example :
    (complete_oauth_callback config (record out { now = 1_100 }) "c2" "s1" none signed_in).0
    ≡ raised (http 400 "OAuth state is missing or invalid.")
unfolding signed_in started sorted_fields read
complete_oauth_callback_once_example =
    complete_oauth_callback_once config out (record out { now = 1_100 }) toy-CryptoLaws "c" "c2"
      "s1" none none (started, []) _ refl refl refl

get_access_token-store_token_example :
    get_access_token config out "ADA" (store_token config out "ada" "t2" [] "bearer" fresh).1
    ≡ ok "t2"
unfolding read lower
get_access_token-store_token_example =
    get_access_token-store_token config out toy-CryptoLaws "ada" "ADA" "t2" [] "bearer" fresh end
      refl refl refl

calls-IsCareful_example :
    IsCareful config out "ada" (list_repositories config out "ada" 5)
    × IsCareful config out "ada" (list_pull_requests config out "o" "r" "ada" 5 "open")
    × IsCareful config out "ada" (list_issues config out "o" "r" "ada" 5 "open")
    × IsCareful config out "ada" (merge_pull_request config out "o" "r" (pos 1) "ada" "merge" none)
    × IsCareful config out "ada" (list_collaborators config out "o" "r" "ada" 5)
    × IsCareful config out "ada" (add_collaborator config out "o" "r" "bob" "ada" "push")
    × IsCareful config out "ada" (remove_collaborator config out "o" "r" "bob" "ada")
    × IsCareful config out "ada" (get_pull_review_context config out "o" "r" (pos 1) "ada")
calls-IsCareful_example =
    calls-IsCareful config out "ada" "o" "r" 5 "open" "bob" "push" "merge" (pos 1) none

abbrev listed : List Fields
listed =
    field "number" (int (pos 7)) (
      field "title" null (
        field "status" null
          (field "author" (str "ada") (field "labels" (arr nil) (field "html_url" null end)))))
    ∷ []

list_issues-All_example :
    (vs : Items) × IsAnswered config out "GET"
      (concat ("/repos/" ∷ "o" ∷ "/" ∷ "r" ∷ "/issues" ∷ []))
      (some (field "state" (str "open") (field "per_page" (int (pos 5)) end)))
      none
      "ada"
      signed_in.0
      (arr vs)
    × All (IsIssueOf vs) listed
unfolding list_issues signed_in sorted_fields int_of rstrip_slash lower api_call
list_issues-All_example = list_issues-All config out "o" "r" "ada" 5 "open" signed_in.0 listed refl
