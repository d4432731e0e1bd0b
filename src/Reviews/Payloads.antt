-- ===== src/Reviews/Payloads.antt =====
-- The job for a review against the route that reviews at once, and what either does in demo mode,
-- backend/app/main.py.
use gitvibe_dev.Prelude.{String, ◌≡◌, refl, sym, ap, ◌∙◌, Bool, true, Option, if◌then◌else◌}
use gitvibe_dev.Prelude.Int.{ℤ, pos}
use gitvibe_dev.Exc.{Result, ok, raised}
use gitvibe_dev.Json.{int, str, obj, Fields, end, field}
use gitvibe_dev.Json.Dict.{get_or}
use gitvibe_dev.Json.Convert.{strip, lower, int_of, truthy, str_of}
use gitvibe_dev.Providers.{Call, Stores}
use gitvibe_dev.Tokens.{AuthContext}
use gitvibe_dev.Api.{env_text}
use gitvibe_dev.Github.{◌then_do◌, continue, lift}
use gitvibe_dev.Reviews.{AiReviewRequestContext}
use gitvibe_dev.Reviews.Models.{AiProvider, AiClient, review_pull_request}
use gitvibe_dev.Reviews.Jobs.{
  ReviewSource, build_review_context, check_job, run_ai_review_job, review_pull_request_with_ai,
  run_entries, review_for, review_owner, ai_as_http, job_payload,
}

abbrev done_with : Fields → Fields
done_with review = field "status" (str "completed") (field "review" (obj review) end)

or_empty_text : (s : String) → (if truthy (str s) then str s else str "") ≡ str s
or_empty_text String.[] = refl
or_empty_text (String.◌∷◌ c s) = refl

module _ {G : Type 0} (demo_mode : Bool) (client : AiClient) (source : ReviewSource G)
    (provider : AiProvider) where
  -- The review of a context, for the job and for the route
  abbrev reviewed : AiReviewRequestContext → Call (Stores G) Fields
  reviewed context = lift (review_pull_request client provider context)

  abbrev reviewed_at_once : AiReviewRequestContext → Call (Stores G) Fields
  reviewed_at_once context =
      lift
        (ai_as_http demo_mode client source provider (review_pull_request client provider context))
      then_do λ review. lift (ok (done_with review))

  completes :
      (r : Result Fields) (w : Stores G) (review : Fields)
      → r ≡ ok review
      → (lift (ai_as_http demo_mode client source provider r) then_do λ x. lift (ok (done_with x)))
          w
        ≡ (ok (done_with review), w)
  completes (ok x) w review h = cc
  completes (raised e) w review h = absurd cc

  same_review :
      (r : Result AiReviewRequestContext × Stores G) (review : Fields)
      → (continue reviewed r).0 ≡ ok review
      → continue reviewed_at_once r ≡ (ok (done_with review), (continue reviewed r).1)
  same_review (ok context, w) review h =
      completes (review_pull_request client provider context) w review h
  same_review (raised e, w) review h = absurd cc

  module _ (owner repo : String) (pull_number : ℤ) (resolved git_provider : String)
      (focus : Option String) (owner_is_trimmed : strip (lower owner) ≡ lower owner)
      (owner_is_lower : lower (lower owner) ≡ lower owner) (repo_is_trimmed : strip repo ≡ repo)
      (resolved_is_plain : lower (strip resolved) ≡ resolved)
      (provider_is_plain : lower (strip git_provider) ≡ git_provider) where
    job_runs :
        (w : Stores G)
        → check_job demo_mode client source provider (lower owner) repo pull_number resolved ≡ ok tt
        → run_ai_review_job demo_mode client source provider
            (job_payload owner repo pull_number resolved git_provider focus)
            w
          ≡ continue reviewed (
              build_review_context demo_mode client source provider
                (lower owner)
                repo
                pull_number
                resolved
                (env_text focus)
                git_provider
                w)
    unfolding run_ai_review_job run_entries int_of
    job_runs w valid =
        rw
          (
            owner_is_trimmed, owner_is_lower, repo_is_trimmed, resolved_is_plain, provider_is_plain,
            or_empty_text, valid, run_ai_review_job,
          )
          refl

    route_runs :
        (oauth_owner : Option String) (context : Option AuthContext) (w : Stores G)
        → review_owner demo_mode client source provider oauth_owner context ≡ ok resolved
        → review_pull_request_with_ai demo_mode client source provider owner repo pull_number
            oauth_owner git_provider focus context w
          ≡ continue reviewed_at_once (
              build_review_context demo_mode client source provider
                (lower owner)
                repo
                pull_number
                resolved
                (env_text focus)
                git_provider
                w)
    unfolding review_pull_request_with_ai review_for
    route_runs oauth_owner context w known = rw (known, review_pull_request_with_ai) refl

    -- A job with the payload that the route for jobs queues makes the review that the route for a
    -- review makes at once, and leaves the stores as that route does: whenever the job returns a
    -- review, the route returns it too. The names are without blanks around them, the owners and the
    -- provider in lower case, and the payload passes the checks of the job.
    pub review_pull_request_with_ai-job :
        (oauth_owner : Option String) (context : Option AuthContext) (w : Stores G)
        (review : Fields)
        → review_owner demo_mode client source provider oauth_owner context ≡ ok resolved
        → check_job demo_mode client source provider (lower owner) repo pull_number resolved ≡ ok tt
        → (run_ai_review_job demo_mode client source provider
            (job_payload owner repo pull_number resolved git_provider focus)
            w).0
          ≡ ok review
        → review_pull_request_with_ai demo_mode client source provider owner repo pull_number
            oauth_owner git_provider focus context w
          ≡ (
            ok (done_with review),
            (run_ai_review_job demo_mode client source provider
                (job_payload owner repo pull_number resolved git_provider focus)
                w).1,
          )
    review_pull_request_with_ai-job oauth_owner context w review known valid h =
        let built =
          build_review_context demo_mode client source provider (lower owner) repo pull_number
            resolved (env_text focus) git_provider w in
        route_runs oauth_owner context w known
        ∙ same_review built review (ap (λ x. x.0) (sym (job_runs w valid)) ∙ h)
        ∙ ap (λ x. (ok (done_with review), x.1)) (sym (job_runs w valid))

module _ {W : Type 0} where
  -- A call that leaves the state as it is
  abbrev Stays : {A : Type 0} → Call W A → Type 0
  Stays call = (w : W) → (call w).1 ≡ w

  continue-Stays :
      {A B : Type 0} (next : A → Call W B) (r : Result A × W)
      → ((a : A) → Stays (next a))
      → (continue next r).1 ≡ r.1
  continue-Stays next (ok a, w) stays = stays a w
  continue-Stays next (raised e, w) stays = refl

  then-Stays :
      {A B : Type 0} (call : Call W A) (next : A → Call W B)
      → Stays call
      → ((a : A) → Stays (next a))
      → Stays (call then_do next)
  then-Stays call next first rest w = continue-Stays next (call w) rest ∙ first w

module _ {G : Type 0} (client : AiClient) (source : ReviewSource G) (provider : AiProvider) where
  context-Stays :
      (owner repo : String) (pull_number : ℤ) (oauth_owner focus git_provider : String)
      → Stays (
          build_review_context true client source provider owner repo pull_number oauth_owner focus
            git_provider)
  unfolding build_review_context
  context-Stays owner repo pull_number oauth_owner focus git_provider w = refl

  run_entries-Stays :
      (owner repo focus oauth_owner git_provider : String) (pull_number : ℤ)
      → Stays (
          run_entries true client source provider owner repo focus oauth_owner git_provider
            pull_number)
  unfolding run_entries
  run_entries-Stays owner repo focus oauth_owner git_provider pull_number =
      then-Stays (lift (check_job true client source provider owner repo pull_number oauth_owner))
        (λ _.
          build_review_context true client source provider owner repo pull_number oauth_owner focus
            git_provider
          then_do reviewed true client source provider)
        (λ w. refl)
        (λ _.
          then-Stays
            (build_review_context true client source provider owner repo pull_number oauth_owner
              focus git_provider)
            (reviewed true client source provider)
            (context-Stays owner repo pull_number oauth_owner focus git_provider) (λ c w. refl))

  review_for-Stays :
      (owner repo : String) (pull_number : ℤ) (git_provider : String) (focus : Option String)
      (oauth_owner : String)
      → Stays (
          review_for true client source provider owner repo pull_number git_provider focus
            oauth_owner)
  unfolding review_for
  review_for-Stays owner repo pull_number git_provider focus oauth_owner =
      then-Stays
        (build_review_context true client source provider (lower owner) repo pull_number oauth_owner
          (env_text focus) git_provider)
        (reviewed_at_once true client source provider)
        (context-Stays (lower owner) repo pull_number oauth_owner (env_text focus) git_provider)
        (λ c.
          then-Stays
            (lift (ai_as_http true client source provider (review_pull_request client provider c)))
            (λ review. lift (ok (done_with review))) (λ w. refl) (λ review w. refl))

  -- In demo mode no review asks GitHub for anything: the job, whatever its payload, and the route
  -- leave the stores behind the providers as they are.
  pub reviews_stay :
      (payload : Fields) (owner repo : String) (pull_number : ℤ) (oauth_owner : Option String)
      (git_provider : String) (focus : Option String) (context : Option AuthContext) (w : Stores G)
      → ((run_ai_review_job true client source provider payload w).1 ≡ w)
        × ((review_pull_request_with_ai true client source provider owner repo pull_number
              oauth_owner git_provider focus context w).1
            ≡ w)
  unfolding run_ai_review_job review_pull_request_with_ai
  reviews_stay payload owner repo pull_number oauth_owner git_provider focus context w =
      let plain = λ (key default : String).
        lower (strip (str_of client.py (get_or key (str default) payload))) in
      (
        continue-Stays
            (run_entries true client source provider _ _ _ (plain "oauth_owner" "")
              (plain "git_provider" "github"))
            (int_of (get_or "pull_number" (int (pos 0)) payload), w)
            (run_entries-Stays _ _ _ (plain "oauth_owner" "") (plain "git_provider" "github")),
        continue-Stays
            (review_for true client source provider owner repo pull_number git_provider focus)
            (review_owner true client source provider oauth_owner context, w)
            (review_for-Stays owner repo pull_number git_provider focus),
      )
