-- ===== src/Api/Repos.antt =====
-- The routes of backend/app/main.py for repositories, pull requests, issues and collaborators.
-- Each is given the context that the checks before it left; a list of dicts is an array.
use gitvibe_dev.Prelude.{
  ℕ, String, Bool, false, not, ◌&&◌, Option, none, some, List, [], ◌∷◌, take, if◌then◌else◌,
}
use gitvibe_dev.Prelude.Int.{ℤ}
use gitvibe_dev.Prelude.Table.{Table}
use gitvibe_dev.Exc.{Result, ok, raised, http}
use gitvibe_dev.Json.{bool, int, str, arr, obj, Items, nil, cons, Fields, end, field}
use gitvibe_dev.Json.Dict.{get, get_or}
use gitvibe_dev.Json.Convert.{truthy, is_text, is_empty}
use gitvibe_dev.Audit.{AuditEvent, security}
use gitvibe_dev.Demo
use gitvibe_dev.Providers.{GitProvider, Stores, Call}
use gitvibe_dev.Tokens.{AuthContext}
use gitvibe_dev.Api.{ensure_role, resolve_oauth_owner, get_git_provider, provider_as_http, env_text}

abbrev pub items : List Fields → Items
items [] = nil
items (d ∷ ds) = cons (obj d) (items ds)

-- The stores behind the providers, and the audit log.
pub record World (G : Type 0) : Type 0 where
  pub stores : Stores G
  pub audit : List AuditEvent

infixr 10 ◌then_call◌
-- A step that may raise, before a call that changes the world
abbrev pub ◌then_call◌ : {W A B : Type 0} → Result A → (A → Call W B) → Call W B
◌then_call◌ (ok a) call w = call a w
◌then_call◌ (raised e) call w = (raised e, w)

module _ {G : Type 0} where
  -- `try: ... = await provider.call(...)` with `except GitProviderError`
  abbrev pub ask : {A : Type 0} → Call (Stores G) A → Call (World G) A
  ask call w = let (r, stores) = call w.stores in (provider_as_http r, record w { stores = stores })

  abbrev pub log : String → String → Fields → World G → World G
  log event actor details w = record w { audit = security event actor details w.audit }

  -- What a route makes of the answer of a provider.
  abbrev pub answer_with :
      {A B : Type 0} → (A → Call (World G) B) → Result A × World G → Result B × World G
  answer_with finish (ok a, w) = finish a w
  answer_with finish (raised e, w) = (raised e, w)

-- `"demo"` in demo mode, and `resolve_oauth_owner` otherwise
unfoldable pub owner_for : Bool → Option String → Option AuthContext → Result String
owner_for demo_mode oauth_owner context =
    if demo_mode then ok "demo" else resolve_oauth_owner oauth_owner context

-- Who a change is made by: outside of demo mode the role is checked.
unfoldable pub actor_for : Bool → String → Option AuthContext → Result String
unfolding ensure_role
actor_for demo_mode required_role context =
    if demo_mode
    then ok (elim context [ none ↦ "demo-anonymous" | some c ↦ c.subject ])
    else elim (ensure_role context required_role) [ raised e ↦ raised e | ok c ↦ ok c.subject ]

module _ {G : Type 0} (demo_mode : Bool) (providers : Table (GitProvider (Stores G)))
    (oauth_owner git_provider : Option String) (context : Option AuthContext) where
  unfoldable pub list_repositories : ℕ → Call (World G) Fields
  unfolding get_git_provider
  list_repositories limit = get_git_provider demo_mode providers git_provider then_call λ provider.
      if demo_mode
      then (λ w.
          answer_with
            (λ repos w. (
              ok (field "provider" (str provider.name) (field "repos" (arr (items repos)) end)),
              w,
            ))
            (ask (provider.list_repositories "demo" limit) w))
      else (resolve_oauth_owner oauth_owner context then_call λ resolved_oauth_owner w.
          answer_with
            (λ repos w. (
              ok (
                  field "provider" (str provider.name) (
                    field "owner" (str resolved_oauth_owner)
                      (field "repos" (arr (items repos)) end))),
              w,
            ))
            (ask (provider.list_repositories resolved_oauth_owner limit) w))

  abbrev pub listing_answer : String → String → String → String → List Fields → Fields
  listing_answer provider owner repo_name key xs =
      field "provider" (str provider)
        (field "owner" (str owner) (field "repo" (str repo_name) (field key (arr (items xs)) end)))

  unfoldable pub list_pull_requests : String → String → ℕ → String → Call (World G) Fields
  unfolding owner_for get_git_provider
  list_pull_requests owner repo_name limit state_filter =
      get_git_provider demo_mode providers git_provider then_call λ provider.
      owner_for demo_mode oauth_owner context then_call λ resolved_oauth_owner w.
      answer_with
        (λ pulls w. (ok (listing_answer provider.name owner repo_name "pull_requests" pulls), w))
        (ask (provider.list_pull_requests owner repo_name resolved_oauth_owner limit state_filter)
          w)

  -- `owner` is a query parameter here.
  unfoldable pub list_pull_requests_legacy :
      String → Option String → ℕ → String → Call (World G) Fields
  unfolding list_pull_requests
  list_pull_requests_legacy repo_name owner limit state_filter w =
      if is_empty (env_text owner)
      then (if demo_mode
          then (
            ok (
                field "repo" (str repo_name) (
                  field "pull_requests"
                    (arr (items (take limit (Demo.list_pull_requests repo_name w.stores.demo))))
                    end)),
            w,
          )
          else (raised (http 400 "owner query parameter is required."), w))
      else list_pull_requests (env_text owner) repo_name limit state_filter w

  unfoldable pub list_issues : String → String → ℕ → String → Call (World G) Fields
  unfolding owner_for get_git_provider
  list_issues owner repo_name limit state_filter =
      get_git_provider demo_mode providers git_provider then_call λ provider.
      owner_for demo_mode oauth_owner context then_call λ resolved_oauth_owner w.
      answer_with
        (λ issues w. (ok (listing_answer provider.name owner repo_name "issues" issues), w))
        (ask (provider.list_issues owner repo_name resolved_oauth_owner limit state_filter) w)

  unfoldable pub list_collaborators : String → String → ℕ → Call (World G) Fields
  unfolding owner_for get_git_provider
  list_collaborators owner repo_name limit =
      get_git_provider demo_mode providers git_provider then_call λ provider.
      owner_for demo_mode oauth_owner context then_call λ resolved_oauth_owner w.
      answer_with
        (λ xs w. (ok (listing_answer provider.name owner repo_name "collaborators" xs), w))
        (ask (provider.list_collaborators owner repo_name resolved_oauth_owner limit) w)

  -- What follows the answer of the provider to a merge
  unfoldable pub merged_answer :
      String → String → String → ℤ → String → Fields → Call (World G) Fields
  merged_answer owner repo_name provider pull_number actor merged w =
      let merged_flag = get_or "merged" (bool false) merged in
      if demo_mode && not (truthy merged_flag)
      then (raised (http 404 "Demo pull request not found."), w)
      else (
        ok merged,
        log "pull_request_merge_requested" actor
            (field "provider" (str provider) (
              field "owner" (str owner) (
                field "repo" (str repo_name)
                  (field "pull_number" (int pull_number) (field "merged" merged_flag end)))))
            w,
      )

  unfoldable pub merge_pull_request :
      String → String → ℤ → String → Option String → ℕ → Call (World G) Fields
  unfolding actor_for owner_for get_git_provider merged_answer
  merge_pull_request owner repo_name pull_number merge_method commit_title now =
      actor_for demo_mode "operator" context then_call λ actor.
      get_git_provider demo_mode providers git_provider then_call λ provider.
      owner_for demo_mode oauth_owner context then_call λ resolved_oauth_owner w.
      answer_with (merged_answer owner repo_name provider.name pull_number actor) (
        ask
          (provider.merge_pull_request owner repo_name pull_number resolved_oauth_owner merge_method
            commit_title actor now)
          w)

  abbrev pub collaborator_details : String → String → String → String → Fields
  collaborator_details provider owner repo_name username = field "provider" (str provider) (
      field "owner" (str owner)
        (field "repo" (str repo_name) (field "username" (str username) end)))

  unfoldable pub add_or_update_collaborator :
      String → String → String → String → Call (World G) Fields
  unfolding actor_for owner_for get_git_provider
  add_or_update_collaborator owner repo_name username permission =
      actor_for demo_mode "admin" context then_call λ actor.
      get_git_provider demo_mode providers git_provider then_call λ provider.
      owner_for demo_mode oauth_owner context then_call λ resolved_oauth_owner w.
      answer_with
        (λ result w. (
          ok result,
          log "collaborator_upserted" actor
              (collaborator_details provider.name owner repo_name username) w,
        ))
        (ask (provider.add_collaborator owner repo_name username resolved_oauth_owner permission) w)

  -- What follows the answer of the provider to a removal
  unfoldable pub removed_answer :
      String → String → String → String → String → Fields → Call (World G) Fields
  removed_answer owner repo_name provider username actor result w =
      if demo_mode && is_text "not_found" (get "status" result)
      then (raised (http 404 "Collaborator not found in demo data."), w)
      else (
        ok result,
        log "collaborator_removed" actor (collaborator_details provider owner repo_name username) w,
      )

  unfoldable pub remove_collaborator : String → String → String → Call (World G) Fields
  unfolding actor_for owner_for get_git_provider removed_answer
  remove_collaborator owner repo_name username =
      actor_for demo_mode "admin" context then_call λ actor.
      get_git_provider demo_mode providers git_provider then_call λ provider.
      owner_for demo_mode oauth_owner context then_call λ resolved_oauth_owner w.
      answer_with (removed_answer owner repo_name provider.name username actor)
        (ask (provider.remove_collaborator owner repo_name username resolved_oauth_owner) w)
