-- ===== src/Github/Authorized.antt =====
-- Which requests the calls of backend/app/github_service.py send.
use gitvibe_dev.Prelude.{
  ℕ, String, ◌≡◌, refl, sym, ap, subst, ◌∙◌, Option, none, some, List, [], ◌∷◌, ◌++◌, All,
  All-append, All-weaken, append_assoc, append-nil, inl, inr,
}
use gitvibe_dev.Prelude.Int.{ℤ}
use gitvibe_dev.Exc.{Result, ok, raised, ◌>>=◌, Result-cases}
use gitvibe_dev.Json.{null, str, Fields}
use gitvibe_dev.Json.Dict.{get}
use gitvibe_dev.Json.Convert.{concat}
use gitvibe_dev.Providers.{Call}
use gitvibe_dev.Github.{
  GithubConfig, HttpRequest, Outside, GithubService, oauth_vault_key, ◌then_do◌, continue, lift,
}
use gitvibe_dev.Vault.{get_value}
use gitvibe_dev.Github.Url.{rstrip_slash}
use gitvibe_dev.Github.Requests.{
  get_access_token, github_api_request, github_api_json, api_call, send, stored_token,
}
use gitvibe_dev.Github.Calls.{
  repository, pull_request, issue, collaborator, listing, list_repositories, list_pull_requests,
  list_issues, merge_pull_request, list_collaborators, add_collaborator, remove_collaborator,
  get_pull_review_context,
}

module _ {Key Text Bytes : Type 0} (config : GithubConfig) (out : Outside Key Text Bytes)
    (oauth_owner : String) where
  -- A request to the API of GitHub that carries the token kept for the owner.
  pub record IsAuthorized (s : GithubService Key Bytes) (request : HttpRequest) : Type 0 where
    pub access_token : String
    pub kept : get_access_token config out oauth_owner s ≡ ok access_token
    pub carried :
        get "Authorization" request.headers ≡ some (str (concat ("Bearer " ∷ access_token ∷ [])))
    pub path : String
    pub addressed : request.url ≡ concat (rstrip_slash config.api_base_url ∷ path ∷ [])

  -- From `s` to `s'` only requests with the owner's token were sent, and the vault stayed.
  pub record IsAuthorizedRun (s s' : GithubService Key Bytes) : Type 0 where
    pub requests : List HttpRequest
    pub sent : s'.sent ≡ s.sent ++ requests
    pub vault : s'.vault ≡ s.vault
    pub authorized : All (IsAuthorized s) requests

  pub no_request : (s : GithubService Key Bytes) → IsAuthorizedRun s s
  no_request s = record {
    requests = [];
    sent = sym (append-nil s.sent);
    vault = refl;
    authorized = tt;
  }

  moved :
      (s s' : GithubService Key Bytes)
      → s'.vault ≡ s.vault
      → (request : HttpRequest) → IsAuthorized s' request
      → IsAuthorized s request
  unfolding get_access_token
  moved s s' same request a = record {
    access_token = a.access_token;
    kept =
        subst
          (λ v.
            (get_value out.crypto (oauth_vault_key oauth_owner) null v >>= stored_token)
            ≡ ok a.access_token)
          same a.kept;
    carried = a.carried;
    path = a.path;
    addressed = a.addressed;
  }

  joined :
      (s s₁ s₂ : GithubService Key Bytes)
      → IsAuthorizedRun s s₁
      → IsAuthorizedRun s₁ s₂
      → IsAuthorizedRun s s₂
  joined s s₁ s₂ a b = record {
    requests = a.requests ++ b.requests;
    sent = b.sent ∙ ap (λ xs. xs ++ b.requests) a.sent ∙ append_assoc s.sent a.requests b.requests;
    vault = b.vault ∙ a.vault;
    authorized =
        All-append (IsAuthorized s) a.requests b.requests a.authorized
          (All-weaken b.requests (moved s s₁ a.vault) b.authorized);
  }

  abbrev pub IsCareful : {A : Type 0} → Call (GithubService Key Bytes) A → Type 0
  IsCareful call = (s : GithubService Key Bytes) → IsAuthorizedRun s (call s).1

  continue-IsCareful :
      {A B : Type 0} (next : A → Call (GithubService Key Bytes) B) (s : GithubService Key Bytes)
      (r : Result A × GithubService Key Bytes)
      → ((a : A) → IsCareful (next a))
      → IsAuthorizedRun s r.1
      → IsAuthorizedRun s (continue next r).1
  continue-IsCareful next s (ok a, s₁) rest run = joined s s₁ _ run (rest a s₁)
  continue-IsCareful next s (raised e, s₁) rest run = run

  then-IsCareful :
      {A B : Type 0} (call : Call (GithubService Key Bytes) A)
      (next : A → Call (GithubService Key Bytes) B)
      → IsCareful call
      → ((a : A) → IsCareful (next a))
      → IsCareful (call then_do next)
  then-IsCareful call next first rest s = continue-IsCareful next s (call s) rest (first s)

  request-IsCareful :
      (method path : String) (params json_body : Option Fields) (accept : String)
      → IsCareful (github_api_request config out method path params json_body accept oauth_owner)
  unfolding github_api_request send api_call
  request-IsCareful method path params json_body accept s =
      elim (Result-cases (get_access_token config out oauth_owner s)) [
        | inr (e, missing) ↦ rw (missing, github_api_request) (no_request s)
        | inl (access_token, found) ↦
            rw (found, github_api_request)
              (record {
                requests =
                    api_call config out method path params json_body accept access_token ∷ [];
                sent = refl;
                vault = refl;
                authorized = (
                  record {
                    access_token = access_token;
                    kept = found;
                    carried = refl;
                    path = path;
                    addressed = refl;
                  },
                  tt,
                );
              })
      ]

  json-IsCareful :
      (method path : String) (params json_body : Option Fields)
      → IsCareful (github_api_json config out method path params json_body oauth_owner)
  unfolding github_api_json
  json-IsCareful method path params json_body s =
      request-IsCareful method path params json_body "application/vnd.github+json" s

  listing-IsCareful :
      (what : String) (f : Fields → Result (Option Fields)) (path : String) (params : Fields)
      → IsCareful (listing config out what f path params oauth_owner)
  unfolding listing
  listing-IsCareful what f path params =
      then-IsCareful (github_api_json config out "GET" path (some params) none oauth_owner) _
        (json-IsCareful "GET" path (some params) none) (λ payload. no_request)

  review-IsCareful :
      (owner repo : String) (pull_number : ℤ)
      → IsCareful (get_pull_review_context config out owner repo pull_number oauth_owner)
  unfolding get_pull_review_context
  review-IsCareful owner repo pull_number =
      then-IsCareful (github_api_json config out _ _ _ _ oauth_owner) _ (json-IsCareful _ _ _ _)
        λ payload. then-IsCareful (lift _) _ no_request λ pull.
          then-IsCareful (github_api_request config out _ _ _ _ _ oauth_owner) _
            (request-IsCareful _ _ _ _ _) λ response. no_request

  module _ (owner repo : String) where
    -- Whatever GitHub answers, each of the eight calls for repositories, pull requests, issues and
    -- collaborators sends only requests to the configured API that carry the token kept for the OAuth
    -- owner, and leaves the vault as it is; so without such a token it sends nothing.
    pub calls-IsCareful :
        (limit : ℕ) (state_filter username permission merge_method : String) (pull_number : ℤ)
        (commit_title : Option String)
        → IsCareful (list_repositories config out oauth_owner limit)
          × IsCareful (list_pull_requests config out owner repo oauth_owner limit state_filter)
          × IsCareful (list_issues config out owner repo oauth_owner limit state_filter)
          × IsCareful (
              merge_pull_request config out owner repo pull_number oauth_owner merge_method
                commit_title)
          × IsCareful (list_collaborators config out owner repo oauth_owner limit)
          × IsCareful (add_collaborator config out owner repo username oauth_owner permission)
          × IsCareful (remove_collaborator config out owner repo username oauth_owner)
          × IsCareful (get_pull_review_context config out owner repo pull_number oauth_owner)
    unfolding list_repositories list_pull_requests list_issues merge_pull_request list_collaborators
        add_collaborator remove_collaborator
    calls-IsCareful limit state_filter username permission merge_method pull_number commit_title = (
      listing-IsCareful "repository" repository _ _,
      listing-IsCareful "pull request" pull_request _ _,
      listing-IsCareful "issue" issue _ _,
      then-IsCareful (github_api_json config out _ _ _ _ oauth_owner) _ (json-IsCareful _ _ _ _)
          (λ payload. no_request),
      listing-IsCareful "collaborators" collaborator _ _,
      then-IsCareful (github_api_request config out _ _ _ _ _ oauth_owner) _
          (request-IsCareful _ _ _ _ _) (λ response. no_request),
      then-IsCareful (github_api_request config out _ _ _ _ _ oauth_owner) _
          (request-IsCareful _ _ _ _ _) (λ response. no_request),
      review-IsCareful owner repo pull_number,
    )
