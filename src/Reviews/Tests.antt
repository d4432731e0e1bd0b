-- ===== src/Reviews/Tests.antt =====
-- Reviews at concrete inputs.
use Prim.Native.String.{count}
use gitvibe_dev.Prelude.{String, ◌≡◌, ◌≤◌, refl, false, true, none, some, inr, [], ◌∷◌}
use gitvibe_dev.Prelude.Int.{pos}
use gitvibe_dev.Exc.{ok, raised, value_error}
use gitvibe_dev.Json.{Value, str, obj, Fields, end, field, int}
use gitvibe_dev.Json.Convert.{strip, lower, is_empty, int_of, concat}
use gitvibe_dev.Providers.{Stores}
use gitvibe_dev.Demo.{no_data}
use gitvibe_dev.Demo.Tests.{seeded}
use gitvibe_dev.Github.{HttpRequest}
use gitvibe_dev.Reviews.{clip, clip_diff}
use gitvibe_dev.Reviews.Models.{
  AiProvider, ollama, AiClient, answered, content_of, fetch, review, choose_provider,
}
use gitvibe_dev.Reviews.Jobs.{
  ReviewSource, review_owner, run_ai_review_job, review_pull_request_with_ai,
}
use gitvibe_dev.Reviews.Answers.{clip_diff_bounded, review_nonblank}
use gitvibe_dev.Reviews.Payloads.{review_pull_request_with_ai-job, reviews_stay}

abbrev answer : Value
answer = obj (field "message" (obj (field "content" (str "Looks right.") end)) end)

abbrev client : AiClient
client = record {
  py = record { repr = λ v. "7"; parse_float = λ s. none };
  request = λ r. answered (record { status_code = 200; json = some answer; text = "" });
  raise_for_status = λ r. none;
  json_error = λ r. "no JSON";
}

abbrev model : AiProvider
model = ollama "http://ollama:11434" "llama3.2"

chosen :
    (choose_provider " Ollama" "http://ollama:11434/" "llama3.2" "" "" "" ≡ ok model)
    × (choose_provider "other" "" "" "" "" "" ≡ raised value_error)
unfolding choose_provider lower strip
chosen = (refl, refl)

cut : clip 3 "3" " abcd " ≡ "abc\n\n[diff truncated to 3 chars]"
unfolding clip strip
cut = refl

clip_diff_bounded_tried : count (clip_diff "+ one line") ≤ 30_033
clip_diff_bounded_tried = clip_diff_bounded "+ one line"

review_nonblank_tried :
    (is_empty (strip "Looks right.") ≡ false)
    × ((request : HttpRequest) × (body : Value) × (fetch client request ≡ inr body)
        × (content_of model body ≡ ok "Looks right."))
unfolding review strip
review_nonblank_tried = review_nonblank client model "s" "u" "Looks right." refl

abbrev source : ReviewSource String
source = λ owner repo n oauth_owner g.
    (ok (field "title" (str "A change") end), concat (g ∷ oauth_owner ∷ []))

abbrev stores : Stores String
stores = record { demo = no_data; github = "asked for: " }

abbrev made : Fields
made = field "provider" (str "ollama") (
    field "model" (str "llama3.2") (
      field "review" (str "Looks right.")
        (field "repo" (str "org/api") (field "pull_number" (int (pos 7)) end))))

review_pull_request_with_ai-job_example :
    review_pull_request_with_ai false client source model "Org" "api"
      (pos 7)
      (some "Ada ")
      "github"
      none
      none
      stores
    ≡ (
      ok (field "status" (str "completed") (field "review" (obj made) end)),
      record { demo = no_data; github = "asked for: ada" },
    )
unfolding lower strip run_ai_review_job int_of review_owner
review_pull_request_with_ai-job_example =
    review_pull_request_with_ai-job false client source model "Org" "api" (pos 7) "ada" "github"
      none refl refl refl refl refl (some "Ada ") none stores made refl refl refl

abbrev demo_stores : Stores String
demo_stores = record { demo = seeded; github = "" }

reviews_stay_tried :
    ((run_ai_review_job true client source model end demo_stores).1 ≡ demo_stores)
    × ((review_pull_request_with_ai true client source model "o" "platform-api"
          (pos 44)
          none
          "github"
          none
          none
          demo_stores).1
        ≡ demo_stores)
reviews_stay_tried =
    reviews_stay client source model end "o" "platform-api" (pos 44) none "github" none none
      demo_stores
