-- ===== src/Providers.antt =====
-- backend/app/platform/git_providers.py: one interface over GitHub, the demo data and GitLab.
-- `now` is the time in millionths of a second that a merge of the demo data reads.
pub mod Listing
pub mod Tests
use gitvibe_dev.Prelude.{
  ℕ, String, Bool, true, false, Option, none, some, List, [], ◌∷◌, map, take, select, ◌==◌,
  if◌then◌else◌,
}
use gitvibe_dev.Prelude.Table.{Table, at, set_at}
use gitvibe_dev.Prelude.Sort.{sort_by, sorted_set}
use gitvibe_dev.Prelude.Int.{ℤ}
use gitvibe_dev.Exc.{Result, ok, raised, provider_error}
use gitvibe_dev.Json.{bool, str, arr, Fields, end, field, of_strings}
use gitvibe_dev.Json.Dict.{get}
use gitvibe_dev.Json.Convert.{is_text, concat}
use gitvibe_dev.Demo
use gitvibe_dev.Demo.{DemoData}

-- What a call does to a state of type `W`.
abbrev pub Call : Type 0 → Type 0 → Type 0
Call W A = W → Result A × W

-- `BaseGitProvider`
pub record GitProvider (W : Type 0) : Type 0 where
  pub name : String
  pub description : String
  pub supported : Bool
  pub capabilities : List String
  pub list_repositories : (oauth_owner : String) (limit : ℕ) → Call W (List Fields)
  pub list_pull_requests :
      (owner repo oauth_owner : String) (limit : ℕ) (state_filter : String) → Call W (List Fields)
  pub list_issues :
      (owner repo oauth_owner : String) (limit : ℕ) (state_filter : String) → Call W (List Fields)
  pub merge_pull_request :
      (owner repo : String) (pull_number : ℤ) (oauth_owner merge_method : String)
      (commit_title : Option String) (actor : String) (now : ℕ)
      → Call W Fields
  pub list_collaborators : (owner repo oauth_owner : String) (limit : ℕ) → Call W (List Fields)
  pub add_collaborator : (owner repo username oauth_owner permission : String) → Call W Fields
  pub remove_collaborator : (owner repo username oauth_owner : String) → Call W Fields

-- What the GitHub provider calls of GitHubService, over the service's own state.
pub record GitHub (G : Type 0) : Type 0 where
  pub list_repositories : (oauth_owner : String) (limit : ℕ) → Call G (List Fields)
  pub list_pull_requests :
      (owner repo oauth_owner : String) (limit : ℕ) (state_filter : String) → Call G (List Fields)
  pub list_issues :
      (owner repo oauth_owner : String) (limit : ℕ) (state_filter : String) → Call G (List Fields)
  pub merge_pull_request :
      (owner repo : String) (pull_number : ℤ) (oauth_owner merge_method : String)
      (commit_title : Option String)
      → Call G Fields
  pub list_collaborators : (owner repo oauth_owner : String) (limit : ℕ) → Call G (List Fields)
  pub add_collaborator : (owner repo username oauth_owner permission : String) → Call G Fields
  pub remove_collaborator : (owner repo username oauth_owner : String) → Call G Fields

-- The states behind the providers.
pub record Stores (G : Type 0) : Type 0 where
  pub demo : DemoData
  pub github : G

abbrev all_capabilities : List String
all_capabilities =
    "repos:list" ∷ "pulls:list" ∷ "issues:list" ∷ "pulls:merge" ∷ "collaborators:list"
    ∷ "collaborators:write" ∷ []

-- The entries of a state, at most `limit` of them
unfoldable pub filtered : String → ℕ → List Fields → List Fields
filtered state_filter limit items = take limit (
    if state_filter == "all"
    then items
    else select (λ item. is_text state_filter (get "status" item)) items)

module _ {G : Type 0} where
  abbrev on_github : {A : Type 0} → Call G A → Call (Stores G) A
  on_github call w = let (r, g) = call w.github in (r, record w { github = g })

  -- `GitHubGitProvider`: `actor` is not passed on.
  abbrev pub github_provider : GitHub G → GitProvider (Stores G)
  github_provider gh = record {
    name = "github";
    description = "GitHub REST API provider";
    supported = true;
    capabilities = all_capabilities;
    list_repositories = λ oauth_owner limit. on_github (gh.list_repositories oauth_owner limit);
    list_pull_requests = λ owner repo oauth_owner limit state_filter.
        on_github (gh.list_pull_requests owner repo oauth_owner limit state_filter);
    list_issues = λ owner repo oauth_owner limit state_filter.
        on_github (gh.list_issues owner repo oauth_owner limit state_filter);
    merge_pull_request = λ owner repo pull_number oauth_owner merge_method commit_title actor now.
        on_github
          (gh.merge_pull_request owner repo pull_number oauth_owner merge_method commit_title);
    list_collaborators = λ owner repo oauth_owner limit.
        on_github (gh.list_collaborators owner repo oauth_owner limit);
    add_collaborator = λ owner repo username oauth_owner permission.
        on_github (gh.add_collaborator owner repo username oauth_owner permission);
    remove_collaborator = λ owner repo username oauth_owner.
        on_github (gh.remove_collaborator owner repo username oauth_owner);
  }

  -- `DemoGitProvider`
  abbrev pub demo_provider : GitProvider (Stores G)
  demo_provider = record {
    name = "demo";
    description = "In-memory demo provider for local workflows";
    supported = true;
    capabilities = all_capabilities;
    list_repositories = λ oauth_owner limit w. (ok (take limit (Demo.list_repositories w.demo)), w);
    list_pull_requests = λ owner repo oauth_owner limit state_filter w.
        (ok (filtered state_filter limit (Demo.list_pull_requests repo w.demo)), w);
    list_issues = λ owner repo oauth_owner limit state_filter w.
        (ok (filtered state_filter limit (Demo.list_issues repo w.demo)), w);
    merge_pull_request = λ owner repo pull_number oauth_owner merge_method commit_title actor now w.
        let (r, demo) = Demo.merge_pull_request repo pull_number actor now w.demo in
        (r, record w { demo = demo });
    list_collaborators = λ owner repo oauth_owner limit w.
        (ok (take limit (Demo.list_collaborators repo w.demo)), w);
    add_collaborator = λ owner repo username oauth_owner permission w.
        let (r, demo) = Demo.upsert_collaborator repo username permission w.demo in
        (ok r, record w { demo = demo });
    remove_collaborator = λ owner repo username oauth_owner w.
        let (r, demo) = Demo.remove_collaborator repo username w.demo in
        (ok r, record w { demo = demo });
  }

module _ {W : Type 0} where
  abbrev not_supported : {A : Type 0} → Call W A
  not_supported w = (raised (provider_error 501 "GitLab provider is not implemented yet."), w)

  -- `GitLabGitProvider`
  abbrev pub gitlab_provider : GitProvider W
  gitlab_provider = record {
    name = "gitlab";
    description = "Reserved provider boundary for future GitLab integration";
    supported = false;
    capabilities = [];
    list_repositories = λ oauth_owner limit. not_supported;
    list_pull_requests = λ owner repo oauth_owner limit state_filter. not_supported;
    list_issues = λ owner repo oauth_owner limit state_filter. not_supported;
    merge_pull_request =
        λ owner repo pull_number oauth_owner merge_method commit_title actor now. not_supported;
    list_collaborators = λ owner repo oauth_owner limit. not_supported;
    add_collaborator = λ owner repo username oauth_owner permission. not_supported;
    remove_collaborator = λ owner repo username oauth_owner. not_supported;
  }

  -- `GitProviderRouter.register`
  unfoldable pub register : GitProvider W → Table (GitProvider W) → Table (GitProvider W)
  register provider providers = set_at provider.name provider providers

  -- `GitProviderRouter.get`
  unfoldable pub get_provider : String → Table (GitProvider W) → Result (GitProvider W)
  get_provider provider_name providers = elim (at provider_name providers) [
    | none ↦
        raised (provider_error 404 (concat ("Unknown git provider '" ∷ provider_name ∷ "'." ∷ [])))
    | some provider ↦ ok provider
  ]

  abbrev pub describe : GitProvider W → Fields
  describe provider = field "name" (str provider.name) (
      field "description" (str provider.description) (
        field "supported" (bool provider.supported)
          (field "capabilities" (arr (of_strings (sorted_set provider.capabilities))) end)))

  unfoldable pub list_providers : Table (GitProvider W) → List Fields
  list_providers providers = map describe (
      sort_by (λ (p : GitProvider W). p.name) (map (λ (e : String × GitProvider W). e.1) providers))

-- The router of backend/app/main.py
unfoldable pub git_provider_router : {G : Type 0} → GitHub G → Table (GitProvider (Stores G))
unfolding register
git_provider_router gh =
    register demo_provider (register gitlab_provider (register (github_provider gh) []))
