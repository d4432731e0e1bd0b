-- ===== src/Providers/Tests.antt =====
-- The providers at concrete inputs.
use gitvibe_dev.Prelude.{◌≤◌, ◌≡◌, refl, true, List, [], All, length}
use gitvibe_dev.Exc.{ok}
use gitvibe_dev.Json.{Fields, end}
use gitvibe_dev.Json.Dict.{get}
use gitvibe_dev.Json.Convert.{is_text}
use gitvibe_dev.Demo.{no_data}
use gitvibe_dev.Demo.Seed.{seed}
use gitvibe_dev.Providers.{
  GitHub, Stores, demo_provider, gitlab_provider, get_provider, register, git_provider_router,
  list_providers,
}
use gitvibe_dev.Providers.Listing.{demo_listing, get_provider-register}

-- A GitHub service without state that knows of nothing.
abbrev pub silent : GitHub (Unit {0})
silent = record {
  list_repositories = λ oauth_owner limit g. (ok [], g);
  list_pull_requests = λ owner repo oauth_owner limit state_filter g. (ok [], g);
  list_issues = λ owner repo oauth_owner limit state_filter g. (ok [], g);
  merge_pull_request = λ owner repo n oauth_owner merge_method commit_title g. (ok end, g);
  list_collaborators = λ owner repo oauth_owner limit g. (ok [], g);
  add_collaborator = λ owner repo username oauth_owner permission g. (ok end, g);
  remove_collaborator = λ owner repo username oauth_owner g. (ok end, g);
}

abbrev pub stores : Stores (Unit {0})
unfolding seed
stores = record { demo = seed no_data; github = tt }

three_providers : length (list_providers (git_provider_router silent)) ≡ 3
unfolding list_providers git_provider_router
three_providers = refl

demo_listing_tried :
    let pulls = demo_provider.list_pull_requests "demo-org" "platform-api" "demo" 1 "open" stores in
    let issues = demo_provider.list_issues "demo-org" "platform-api" "demo" 1 "open" stores in
    (xs : List Fields) × (ys : List Fields) × (pulls ≡ (ok xs, stores))
    × (issues ≡ (ok ys, stores))
    × (length xs ≤ 1)
    × (length ys ≤ 1)
    × All (λ item. is_text "open" (get "status" item) ≡ true) xs
    × All (λ item. is_text "open" (get "status" item) ≡ true) ys
demo_listing_tried = demo_listing "demo-org" "platform-api" "demo" "open" 1 stores refl

get_provider-register_tried :
    get_provider {W = Stores (Unit {0})} "gitlab" (register gitlab_provider []) ≡ ok gitlab_provider
get_provider-register_tried = get_provider-register gitlab_provider "gitlab" []
