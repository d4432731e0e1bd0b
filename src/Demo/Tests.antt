-- ===== src/Demo/Tests.antt =====
-- The demo data at concrete inputs.
use gitvibe_dev.Prelude.{◌≡◌, refl, none, some, true, false}
use gitvibe_dev.Prelude.Int.{pos}
use gitvibe_dev.Exc.{ok}
use gitvibe_dev.Json.{str}
use gitvibe_dev.Json.Dict.{get}
use gitvibe_dev.Json.Convert.{int_of}
use gitvibe_dev.Demo.{
  DemoData, no_data, already_merged, merge_answer, merge_pull_request, upsert_collaborator,
  remove_collaborator,
}
use gitvibe_dev.Demo.Seed.{seed}
use gitvibe_dev.Demo.Merge.{merge_pull_request_twice}
use gitvibe_dev.Demo.Collaborators.{
  permission_of, permission_of-upsert_collaborator, permission_of-remove_collaborator,
}

abbrev pub seeded : DemoData
unfolding seed
seeded = seed no_data

merge_missing :
    (merge_pull_request "platform-api" (pos 13) "ada" 5_000_000 seeded).0
    ≡ ok (merge_answer false "Pull request not found.")
unfolding merge_pull_request seeded int_of
merge_missing = refl

removed_unknown :
    get "status" (remove_collaborator "platform-api" "ada" seeded).0 ≡ some (str "not_found")
unfolding remove_collaborator seeded
removed_unknown = refl

merge_pull_request_twice_example :
    merge_pull_request "platform-api"
      (pos 44)
      "bob"
      9_000_000
      (merge_pull_request "platform-api" (pos 44) "ada" 5_000_000 seeded).1
    ≡ (ok already_merged, (merge_pull_request "platform-api" (pos 44) "ada" 5_000_000 seeded).1)
unfolding merge_pull_request seeded int_of
merge_pull_request_twice_example =
    merge_pull_request_twice "platform-api" (pos 44) "ada" "bob" 5_000_000 9_000_000 seeded
      (merge_answer true "Pull request merged in demo mode.") refl refl

permission_of-upsert_collaborator_tried :
    permission_of "platform-api" "ada" (upsert_collaborator "platform-api" "ada" "push" seeded).1
    ≡ some (str "push")
permission_of-upsert_collaborator_tried =
    permission_of-upsert_collaborator "platform-api" "platform-api" "ada" "ada" "push" seeded

permission_of-remove_collaborator_tried :
    permission_of "platform-api" "maintainer"
      (remove_collaborator "platform-api" "maintainer" seeded).1
    ≡ none
permission_of-remove_collaborator_tried =
    permission_of-remove_collaborator "platform-api" "platform-api" "maintainer" "maintainer" seeded
