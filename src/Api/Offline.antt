-- ===== src/Api/Offline.antt =====
-- In demo mode backend/app/main.py answers from its own data.
use gitvibe_dev.Prelude.{
  ℕ, String, ◌≡◌, ◌≢◌, refl, sym, ap, subst, ◌∙◌, Bool, true, false, Option, none, some, inl, inr,
  List, ◌==◌, String-cases, if◌then◌else◌, Option-cases,
}
use gitvibe_dev.Prelude.Int.{ℤ}
use gitvibe_dev.Prelude.Table.{at}
use gitvibe_dev.Exc.{Result, ok, raised}
use gitvibe_dev.Json.{Fields, field, end, str, arr}
use gitvibe_dev.Providers.{
  GitProvider, GitHub, Stores, Call, github_provider, demo_provider, gitlab_provider,
  git_provider_router, get_provider,
}
use gitvibe_dev.Tokens.{AuthContext}
use gitvibe_dev.Api.{get_git_provider, resolve_git_provider_name, provider_as_http}
use gitvibe_dev.Api.{env_text}
use gitvibe_dev.Json.Convert.{is_empty}
use gitvibe_dev.Api.Access.{resolve_git_provider_name-demo}
use gitvibe_dev.Api.Repos.{
  World, log, items, listing_answer, collaborator_details, ask, owner_for, actor_for, merged_answer,
  removed_answer, answer_with, ◌then_call◌, list_repositories, list_pull_requests, list_issues,
  list_collaborators, list_pull_requests_legacy, merge_pull_request, add_or_update_collaborator,
  remove_collaborator,
}

some_inj : {A : Type 0} {a b : A} → some a ≡ some b → a ≡ b
some_inj h = cc

ok_inj : {A : Type 0} {a b : A} → ok a ≡ ok b → a ≡ b
ok_inj h = cc

module _ {G : Type 0} where
  -- A call that leaves the state of the GitHub service alone
  abbrev Spares : {A : Type 0} → Call (Stores G) A → Type 0
  Spares call = (w : Stores G) → (call w).1.github ≡ w.github

  -- None of the provider's calls reaches the GitHub service.
  record IsOffline (p : GitProvider (Stores G)) : Type 0 where
    repositories :
        (oauth_owner : String) (limit : ℕ) → Spares (p.list_repositories oauth_owner limit)
    pulls :
        (owner repo oauth_owner : String) (limit : ℕ) (state_filter : String)
        → Spares (p.list_pull_requests owner repo oauth_owner limit state_filter)
    issues :
        (owner repo oauth_owner : String) (limit : ℕ) (state_filter : String)
        → Spares (p.list_issues owner repo oauth_owner limit state_filter)
    merge :
        (owner repo : String) (pull_number : ℤ) (oauth_owner merge_method : String)
        (commit_title : Option String) (actor : String) (now : ℕ)
        → Spares (
            p.merge_pull_request owner repo pull_number oauth_owner merge_method commit_title actor
              now)
    collaborators :
        (owner repo oauth_owner : String) (limit : ℕ)
        → Spares (p.list_collaborators owner repo oauth_owner limit)
    add :
        (owner repo username oauth_owner permission : String)
        → Spares (p.add_collaborator owner repo username oauth_owner permission)
    remove :
        (owner repo username oauth_owner : String)
        → Spares (p.remove_collaborator owner repo username oauth_owner)

  demo-IsOffline : IsOffline demo_provider
  demo-IsOffline = record {
    repositories = λ o l w. refl;
    pulls = λ o r a l f w. refl;
    issues = λ o r a l f w. refl;
    merge = λ o r n a m t b now w. refl;
    collaborators = λ o r a l w. refl;
    add = λ o r u a p w. refl;
    remove = λ o r u a w. refl;
  }

  gitlab-IsOffline : IsOffline gitlab_provider
  gitlab-IsOffline = record {
    repositories = λ o l w. refl;
    pulls = λ o r a l f w. refl;
    issues = λ o r a l f w. refl;
    merge = λ o r n a m t b now w. refl;
    collaborators = λ o r a l w. refl;
    add = λ o r u a p w. refl;
    remove = λ o r u a w. refl;
  }

  chosen-IsOffline :
      (gh : GitProvider (Stores G)) (b c d : Bool) (p : GitProvider (Stores G))
      → b ≡ false
      → (if b
          then some gh
          else if c
          then some gitlab_provider
          else if d
          then some demo_provider
          else none)
        ≡ some p
      → IsOffline p
  chosen-IsOffline gh true c d p other h = absurd cc
  chosen-IsOffline gh false true d p other h = subst IsOffline (some_inj h) gitlab-IsOffline
  chosen-IsOffline gh false false true p other h = subst IsOffline (some_inj h) demo-IsOffline
  chosen-IsOffline gh false false false p other h = absurd cc

  found-IsOffline :
      (gh : GitHub G) (name : String) (p : GitProvider (Stores G))
      → name ≢ "github"
      → at name (git_provider_router gh) ≡ some p
      → IsOffline p
  unfolding git_provider_router
  found-IsOffline gh name p other h = elim (String-cases "github" name) [
    | inl same ↦ absurd (other (sym same))
    | inr differs ↦
        chosen-IsOffline (github_provider gh) ("github" == name) ("gitlab" == name) ("demo" == name)
          p differs h
  ]

  get_git_provider-IsOffline :
      (gh : GitHub G) (hint : Option String) (p : GitProvider (Stores G))
      → get_git_provider true (git_provider_router gh) hint ≡ ok p
      → IsOffline p
  unfolding get_git_provider get_provider
  get_git_provider-IsOffline gh hint p h =
      let name = resolve_git_provider_name true hint in
      elim (Option-cases (at name (git_provider_router gh))) [
        | inl missing ↦ absurd (cc (rw (missing, get_provider) at h))
        | inr (x, there) ↦
            found-IsOffline gh name p (resolve_git_provider_name-demo hint)
              (there ∙ ap some (ok_inj (rw (there, get_provider) at h)))
      ]

  -- A route that leaves the state of the GitHub service alone
  abbrev pub SparesWorld : {A : Type 0} → Call (World G) A → Type 0
  SparesWorld call = (w : World G) → (call w).1.stores.github ≡ w.stores.github

  then_call-SparesWorld :
      {A B : Type 0} (r : Result A) (next : A → Call (World G) B)
      → ((a : A) → r ≡ ok a → SparesWorld (next a))
      → SparesWorld (r then_call next)
  then_call-SparesWorld (ok a) next spares w = spares a refl w
  then_call-SparesWorld (raised e) next spares w = refl

  answer_with-SparesWorld :
      {A B : Type 0} (finish : A → Call (World G) B) (r : Result A) (w : World G)
      → ((a : A) → SparesWorld (finish a))
      → (answer_with finish (r, w)).1.stores.github ≡ w.stores.github
  answer_with-SparesWorld finish (ok a) w spares = spares a w
  answer_with-SparesWorld finish (raised e) w spares = refl

  asked-SparesWorld :
      {A B : Type 0} (call : Call (Stores G) A) (finish : A → Call (World G) B)
      → Spares call
      → ((a : A) → SparesWorld (finish a))
      → SparesWorld (λ w. answer_with finish (ask call w))
  asked-SparesWorld call finish spares rest w =
      answer_with-SparesWorld finish (provider_as_http (call w.stores).0)
        (record w { stores = (call w.stores).1 }) rest
      ∙ spares w.stores

  module _ (gh : GitHub G) (oauth_owner git_provider : Option String)
      (context : Option AuthContext) where
    -- A route that asks the chosen provider
    provided :
        {A : Type 0} (next : GitProvider (Stores G) → Call (World G) A)
        → ((p : GitProvider (Stores G)) → IsOffline p → SparesWorld (next p))
        → SparesWorld (get_git_provider true (git_provider_router gh) git_provider then_call next)
    provided next spares =
        then_call-SparesWorld (get_git_provider true (git_provider_router gh) git_provider) next
          (λ p found. spares p (get_git_provider-IsOffline gh git_provider p found))

    -- A listing of a repository, from the owner of the token on
    listed :
        (call : String → Call (Stores G) (List Fields)) (make : List Fields → Fields)
        → ((resolved : String) → Spares (call resolved))
        → SparesWorld (
            owner_for true oauth_owner context then_call λ resolved w.
            answer_with (λ xs w. (ok (make xs), w)) (ask (call resolved) w))
    listed call make spares =
        then_call-SparesWorld {B = Fields} (owner_for true oauth_owner context)
          (λ resolved w. answer_with (λ xs w. (ok (make xs), w)) (ask (call resolved) w))
          (λ resolved e.
            asked-SparesWorld {B = Fields} (call resolved) (λ xs w. (ok (make xs), w))
              (spares resolved) (λ xs w. refl))

    pulls-SparesWorld :
        (owner repo_name : String) (limit : ℕ) (state_filter : String)
        → SparesWorld (
            list_pull_requests true
              (git_provider_router gh)
              oauth_owner
              git_provider
              context
              owner
              repo_name
              limit
              state_filter)
    unfolding list_pull_requests
    pulls-SparesWorld owner repo_name limit state_filter = provided {A = Fields} _ (λ p off.
        listed (λ o. p.list_pull_requests owner repo_name o limit state_filter)
          (listing_answer true (git_provider_router gh) oauth_owner git_provider context p.name
            owner repo_name "pull_requests")
          (λ o. off.pulls owner repo_name o limit state_filter))

    either-SparesWorld :
        (b : Bool) (found : World G → Result Fields) (call : Call (World G) Fields)
        → SparesWorld call
        → SparesWorld (λ w. if b then (found w, w) else call w)
    either-SparesWorld true found call spares w = refl
    either-SparesWorld false found call spares w = spares w

    legacy-SparesWorld :
        (repo_name : String) (owner : Option String) (limit : ℕ) (state_filter : String)
        → SparesWorld (
            list_pull_requests_legacy true
              (git_provider_router gh)
              oauth_owner
              git_provider
              context
              repo_name
              owner
              limit
              state_filter)
    unfolding list_pull_requests_legacy
    legacy-SparesWorld repo_name owner limit state_filter =
        either-SparesWorld (is_empty (env_text owner)) _ _
          (pulls-SparesWorld (env_text owner) repo_name limit state_filter)

    -- In demo mode none of the five listing routes asks GitHub for anything, whatever provider a
    -- request names.
    pub listings-SparesWorld :
        (owner repo_name : String) (query_owner : Option String) (limit : ℕ) (state_filter : String)
        → SparesWorld
            (list_repositories true (git_provider_router gh) oauth_owner git_provider context limit)
          × SparesWorld (
              list_pull_requests true
                (git_provider_router gh)
                oauth_owner
                git_provider
                context
                owner
                repo_name
                limit
                state_filter)
          × SparesWorld (
              list_issues true
                (git_provider_router gh)
                oauth_owner
                git_provider
                context
                owner
                repo_name
                limit
                state_filter)
          × SparesWorld (
              list_collaborators true
                (git_provider_router gh)
                oauth_owner
                git_provider
                context
                owner
                repo_name
                limit)
          × SparesWorld (
              list_pull_requests_legacy true
                (git_provider_router gh)
                oauth_owner
                git_provider
                context
                repo_name
                query_owner
                limit
                state_filter)
    unfolding list_repositories list_issues list_collaborators
    listings-SparesWorld owner repo_name query_owner limit state_filter =
        let answer = λ (name key : String).
          listing_answer true (git_provider_router gh) oauth_owner git_provider context name owner
            repo_name key in
        (
          provided {A = Fields} _ (λ p off.
              asked-SparesWorld {B = Fields} (p.list_repositories "demo" limit)
                (λ repos w.
                  (ok (field "provider" (str p.name) (field "repos" (arr (items repos)) end)), w))
                (off.repositories "demo" limit) (λ repos w. refl)),
          pulls-SparesWorld owner repo_name limit state_filter,
          provided {A = Fields} _ (λ p off.
              listed (λ o. p.list_issues owner repo_name o limit state_filter)
                (answer p.name "issues") (λ o. off.issues owner repo_name o limit state_filter)),
          provided {A = Fields} _ (λ p off.
              listed (λ o. p.list_collaborators owner repo_name o limit)
                (answer p.name "collaborators") (λ o. off.collaborators owner repo_name o limit)),
          legacy-SparesWorld repo_name query_owner limit state_filter,
        )

    one_of :
        {A : Type 0} (b : Bool) (x y : Result A × World G) (w : World G)
        → x.1.stores.github ≡ w.stores.github
        → y.1.stores.github ≡ w.stores.github
        → (if b then x else y).1.stores.github ≡ w.stores.github
    one_of true x y w h k = h
    one_of false x y w h k = k

    -- A change to a repository, from the choice of the provider on
    changed :
        (required_role : String)
        (call : GitProvider (Stores G) → String → String → Call (Stores G) Fields)
        (finish : GitProvider (Stores G) → String → Fields → Call (World G) Fields)
        → ((p : GitProvider (Stores G))
            → IsOffline p
            → (actor resolved : String) → Spares (call p actor resolved))
        → ((p : GitProvider (Stores G)) (actor : String) (x : Fields)
            → SparesWorld (finish p actor x))
        → SparesWorld (
            actor_for true required_role context then_call λ actor.
            get_git_provider true (git_provider_router gh) git_provider then_call λ p.
            owner_for true oauth_owner context then_call λ resolved w.
            answer_with (finish p actor) (ask (call p actor resolved) w))
    changed required_role call finish spares rest =
        then_call-SparesWorld {B = Fields} (actor_for true required_role context) _ λ actor e.
          provided {A = Fields} _ λ p off.
            then_call-SparesWorld {B = Fields} (owner_for true oauth_owner context)
              (λ resolved w. answer_with (finish p actor) (ask (call p actor resolved) w))
              (λ resolved e'.
                asked-SparesWorld {B = Fields} (call p actor resolved) (finish p actor)
                  (spares p off actor resolved) (rest p actor))

    -- In demo mode no change to a repository reaches GitHub, whatever provider a request names.
    pub changes-SparesWorld :
        (owner repo_name : String) (pull_number : ℤ) (merge_method username permission : String)
        (commit_title : Option String) (now : ℕ)
        → SparesWorld (
            merge_pull_request true
              (git_provider_router gh)
              oauth_owner
              git_provider
              context
              owner
              repo_name
              pull_number
              merge_method
              commit_title
              now)
          × SparesWorld (
              add_or_update_collaborator true
                (git_provider_router gh)
                oauth_owner
                git_provider
                context
                owner
                repo_name
                username
                permission)
          × SparesWorld (
              remove_collaborator true
                (git_provider_router gh)
                oauth_owner
                git_provider
                context
                owner
                repo_name
                username)
    unfolding merge_pull_request add_or_update_collaborator remove_collaborator merged_answer
        removed_answer
    changes-SparesWorld owner repo_name pull_number merge_method username permission commit_title
          now =
        (
          changed "operator"
              (λ p actor resolved.
                p.merge_pull_request owner repo_name pull_number resolved merge_method commit_title
                  actor now)
              (λ p actor.
                merged_answer true (git_provider_router gh) oauth_owner git_provider context owner
                  repo_name p.name pull_number actor)
              (λ p off actor resolved.
                off.merge owner repo_name pull_number resolved merge_method commit_title actor now)
              (λ p actor x w. one_of _ _ _ w refl refl),
          changed "admin"
              (λ p actor resolved. p.add_collaborator owner repo_name username resolved permission)
              (λ p actor result w. (
                ok result,
                log "collaborator_upserted" actor
                    (collaborator_details true (git_provider_router gh) oauth_owner git_provider
                      context p.name owner repo_name username)
                    w,
              ))
              (λ p off actor resolved. off.add owner repo_name username resolved permission)
              (λ p actor x w. refl),
          changed "admin"
              (λ p actor resolved. p.remove_collaborator owner repo_name username resolved)
              (λ p actor.
                removed_answer true (git_provider_router gh) oauth_owner git_provider context owner
                  repo_name p.name username actor)
              (λ p off actor resolved. off.remove owner repo_name username resolved)
              (λ p actor x w. one_of _ _ _ w refl refl),
        )
