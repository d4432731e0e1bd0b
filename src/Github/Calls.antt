-- ===== src/Github/Calls.antt =====
-- What GitHub is asked about repositories, backend/app/github_service.py.
use gitvibe_dev.Prelude.{
  ℕ, String, true, false, nat_eq, Option, none, some, List, [], ◌∷◌, if◌then◌else◌,
}
use gitvibe_dev.Prelude.Int.{ℤ, pos}
use gitvibe_dev.Exc.{Result, ok, raised, http, type_error, ◌>>=◌}
use gitvibe_dev.Json.{Value, null, bool, int, str, arr, obj, Items, nil, cons, Fields, end, field}
use gitvibe_dev.Json.Dict.{get_or, has}
use gitvibe_dev.Json.Convert.{str_of, truthy, concat}
use gitvibe_dev.Providers
use gitvibe_dev.Providers.{Call}
use gitvibe_dev.Github.{GithubConfig, Outside, GithubService, ◌then_do◌, lift}
use gitvibe_dev.Github.Requests.{github_api_request, github_api_json}

-- `payload.get("login") if isinstance(payload, dict) else ""`
abbrev login_of : Value → Value
login_of (obj d) = get_or "login" null d
login_of _ = str ""

-- What a listing makes of the dicts of a payload; other items are passed over.
unfoldable pub each_dict : (Fields → Result (Option Fields)) → Items → Result (List Fields)
each_dict f nil = ok []
each_dict f (cons (obj d) vs) =
    f d >>= λ made. each_dict f vs >>= λ rest. ok (elim made [ none ↦ rest | some x ↦ x ∷ rest ])
each_dict f (cons _ vs) = each_dict f vs

-- `raise` unless the payload is a list
abbrev pub list_of : String → Value → Result Items
list_of what (arr vs) = ok vs
list_of what _ = raised (http 502 (concat ("Unexpected " ∷ what ∷ " payload from GitHub." ∷ [])))

unfoldable pub repository : Fields → Result (Option Fields)
repository item = ok (
    some (
      field "id" (get_or "id" null item) (
        field "name" (get_or "name" null item) (
          field "full_name" (get_or "full_name" null item) (
            field "owner" (login_of (get_or "owner" null item)) (
              field "private" (bool (truthy (get_or "private" (bool false) item))) (
                field "default_branch" (get_or "default_branch" null item)
                  (field "open_issues" (get_or "open_issues_count" (int (pos 0)) item) end))))))))

unfoldable pub pull_request : Fields → Result (Option Fields)
pull_request item = ok (
    some (
      field "number" (get_or "number" null item) (
        field "title" (get_or "title" null item) (
          field "status" (get_or "state" null item) (
            field "author" (login_of (get_or "user" null item)) (
              field "html_url" (get_or "html_url" null item)
                (field "mergeable_state" (get_or "mergeable_state" null item) end)))))))

abbrev name_onto : Value → Items → Items
name_onto (str name) names = cons (str name) names
name_onto _ names = names

abbrev names_of : Items → Items
names_of nil = nil
names_of (cons (obj label) labels) = name_onto (get_or "name" null label) (names_of labels)
names_of (cons _ labels) = names_of labels

-- The names of the labels; a text or a dict yields texts, which are no labels.
abbrev pub label_names : Value → Result Items
label_names (arr labels) = ok (names_of labels)
label_names (obj d) = ok nil
label_names (str s) = ok nil
label_names _ = raised type_error

abbrev pub issue_dict : Fields → Items → Fields
issue_dict item labels = field "number" (get_or "number" null item) (
    field "title" (get_or "title" null item) (
      field "status" (get_or "state" null item) (
        field "author" (login_of (get_or "user" null item))
          (field "labels" (arr labels) (field "html_url" (get_or "html_url" null item) end)))))

unfoldable pub issue : Fields → Result (Option Fields)
issue item = elim (has "pull_request" item) [
  | true ↦ ok none
  | false ↦
      label_names (get_or "labels" (arr nil) item) >>= λ labels. ok (some (issue_dict item labels))
]

unfoldable pub collaborator : Fields → Result (Option Fields)
collaborator item = ok (
    some (
      field "login" (get_or "login" null item) (
        field "id" (get_or "id" null item) (
          field "type" (get_or "type" null item)
            (field "permissions" (get_or "permissions" (obj end) item) end)))))

abbrev merge_answer : Value → Result Fields
merge_answer (obj payload) = ok (
    field "merged" (bool (truthy (get_or "merged" null payload))) (
      field "message" (get_or "message" null payload)
        (field "sha" (get_or "sha" null payload) end)))
merge_answer _ = raised (http 502 "Unexpected merge payload from GitHub.")

abbrev pull_of : Value → Result Fields
pull_of (obj payload) = ok payload
pull_of _ = raised (http 502 "Unexpected pull request payload from GitHub.")

module _ {Key Text Bytes : Type 0} (config : GithubConfig) (out : Outside Key Text Bytes) where
  abbrev repo_path : String → String → String → String
  repo_path owner repo rest = concat ("/repos/" ∷ owner ∷ "/" ∷ repo ∷ rest ∷ [])

  unfoldable pub listing :
      String
      → (Fields → Result (Option Fields))
      → String
      → Fields
      → String
      → Call (GithubService Key Bytes) (List Fields)
  unfolding github_api_json each_dict
  listing what f path params oauth_owner =
      github_api_json config out "GET" path (some params) none oauth_owner then_do λ payload.
      lift (list_of what payload >>= each_dict f)

  unfoldable pub list_repositories : String → ℕ → Call (GithubService Key Bytes) (List Fields)
  unfolding listing repository
  list_repositories oauth_owner limit =
      listing "repository" repository "/user/repos"
        (field "per_page" (int (pos limit))
          (field "sort" (str "updated") (field "direction" (str "desc") end)))
        oauth_owner

  unfoldable pub list_pull_requests :
      String → String → String → ℕ → String → Call (GithubService Key Bytes) (List Fields)
  unfolding listing pull_request
  list_pull_requests owner repo oauth_owner limit state_filter =
      listing "pull request" pull_request (repo_path owner repo "/pulls")
        (field "state" (str state_filter) (field "per_page" (int (pos limit)) end)) oauth_owner

  unfoldable pub list_issues :
      String → String → String → ℕ → String → Call (GithubService Key Bytes) (List Fields)
  unfolding listing issue
  list_issues owner repo oauth_owner limit state_filter =
      listing "issue" issue (repo_path owner repo "/issues")
        (field "state" (str state_filter) (field "per_page" (int (pos limit)) end)) oauth_owner

  abbrev pull_path : String → String → ℤ → String → String
  pull_path owner repo pull_number rest =
      repo_path owner repo (concat ("/pulls/" ∷ str_of out.py (int pull_number) ∷ rest ∷ []))

  abbrev title_value : Option String → Value
  title_value none = null
  title_value (some title) = str title

  unfoldable pub merge_pull_request :
      String → String → ℤ → String → String → Option String → Call (GithubService Key Bytes) Fields
  unfolding github_api_json
  merge_pull_request owner repo pull_number oauth_owner merge_method commit_title =
      github_api_json config out "PUT" (pull_path owner repo pull_number "/merge") none
        (some (
          field "merge_method" (str merge_method)
            (field "commit_title" (title_value commit_title) end)))
        oauth_owner
      then_do λ payload. lift (merge_answer payload)

  unfoldable pub list_collaborators :
      String → String → String → ℕ → Call (GithubService Key Bytes) (List Fields)
  unfolding listing collaborator
  list_collaborators owner repo oauth_owner limit =
      listing "collaborators" collaborator (repo_path owner repo "/collaborators")
        (field "per_page" (int (pos limit)) end) oauth_owner

  abbrev collaborator_path : String → String → String → String
  collaborator_path owner repo username =
      repo_path owner repo (concat ("/collaborators/" ∷ username ∷ []))

  unfoldable pub add_collaborator :
      String → String → String → String → String → Call (GithubService Key Bytes) Fields
  unfolding github_api_request
  add_collaborator owner repo username oauth_owner permission =
      github_api_request config out "PUT" (collaborator_path owner repo username) none
        (some (field "permission" (str permission) end)) "application/vnd.github+json" oauth_owner
      then_do λ response. lift (
          ok (
            field "status" (str (if nat_eq response.status_code 201 then "invited" else "updated"))
              (field "username" (str username) (field "permission" (str permission) end))))

  unfoldable pub remove_collaborator :
      String → String → String → String → Call (GithubService Key Bytes) Fields
  unfolding github_api_request
  remove_collaborator owner repo username oauth_owner =
      github_api_request config out "DELETE" (collaborator_path owner repo username) none none
        "application/vnd.github+json" oauth_owner
      then_do λ response.
          lift (ok (field "status" (str "removed") (field "username" (str username) end)))

  unfoldable pub get_pull_review_context :
      String → String → ℤ → String → Call (GithubService Key Bytes) Fields
  unfolding github_api_json github_api_request
  get_pull_review_context owner repo pull_number oauth_owner =
      let path = pull_path owner repo pull_number "" in
      github_api_json config out "GET" path none none oauth_owner then_do λ payload.
      lift (pull_of payload) then_do λ pull.
      github_api_request config out "GET" path none none "application/vnd.github.v3.diff"
        oauth_owner
      then_do λ diff_response. lift (
          ok (
            field "owner" (str owner) (
              field "repo" (str repo) (
                field "pull_number" (int pull_number) (
                  field "title" (get_or "title" (str "") pull) (
                    field "body" (get_or "body" (str "") pull) (
                      field "html_url" (get_or "html_url" (str "") pull)
                        (field "diff" (str diff_response.text) end))))))))

  -- The service as the GitHub provider uses it
  abbrev pub github_calls : Providers.GitHub (GithubService Key Bytes)
  github_calls = record {
    list_repositories = list_repositories;
    list_pull_requests = list_pull_requests;
    list_issues = list_issues;
    merge_pull_request = merge_pull_request;
    list_collaborators = list_collaborators;
    add_collaborator = add_collaborator;
    remove_collaborator = remove_collaborator;
  }
