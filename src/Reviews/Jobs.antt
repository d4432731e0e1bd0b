-- ===== src/Reviews/Jobs.antt =====
-- Reviews as backend/app/main.py asks for them: the context of a pull request, the job, the agent
-- and the routes.
use gitvibe_dev.Prelude.{
  ℕ, String, Bool, not, ◌&&◌, ◌||◌, Option, none, some, [], ◌∷◌, ◌==◌, if◌then◌else◌,
}
use gitvibe_dev.Prelude.Int.{ℤ, pos, ltb_ℤ}
use gitvibe_dev.Exc.{Result, ok, raised, http, ai_error, value_error, ◌>>=◌}
use gitvibe_dev.Json.{Value, int, str, obj, Fields, end, field}
use gitvibe_dev.Json.Dict.{get_or, put}
use gitvibe_dev.Json.Convert.{str_of, int_of, truthy, strip, lower, is_empty, concat}
use gitvibe_dev.Agents.{AgentContext}
use gitvibe_dev.Demo
use gitvibe_dev.JobQueue.{Queue, enqueue, get_job}
use gitvibe_dev.Providers.{Call, Stores}
use gitvibe_dev.Tokens.{AuthContext}
use gitvibe_dev.Api.{resolve_git_provider_name, resolve_oauth_owner, env_text}
use gitvibe_dev.Github.{◌then_do◌, lift}
use gitvibe_dev.Reviews.{AiReviewRequestContext}
use gitvibe_dev.Reviews.Models.{AiProvider, AiClient, review_pull_request}

-- `get_pull_review_context` of the GitHub service, over its state
abbrev pub ReviewSource : Type 0 → Type 0
ReviewSource G = (owner repo : String) (pull_number : ℤ) (oauth_owner : String) → Call G Fields

module _ {G : Type 0} (demo_mode : Bool) (client : AiClient) (source : ReviewSource G)
    (provider : AiProvider) where
  abbrev pub context_from : String → String → ℤ → String → Fields → AiReviewRequestContext
  context_from owner repo pull_number focus raw = record {
    owner = owner;
    repo = repo;
    pull_number = pull_number;
    title = str_of client.py (get_or "title" (str "") raw);
    body = str_of client.py (get_or "body" (str "") raw);
    diff = str_of client.py (get_or "diff" (str "") raw);
    focus = focus;
  }

  abbrev demo_context : String → String → ℤ → String → Fields → Result AiReviewRequestContext
  demo_context owner repo pull_number focus raw =
      let resolved_owner =
        if is_empty owner then str_of client.py (get_or "owner" (str "demo-org") raw) else owner in
      if truthy (obj raw)
      then ok (context_from resolved_owner repo pull_number focus raw)
      else raised (http 404 "Demo pull request not found.")

  abbrev pub from_github : String → String → ℤ → String → Call (Stores G) Fields
  from_github owner repo pull_number oauth_owner w =
      let (r, g) = source owner repo pull_number oauth_owner w.github in
      (r, record w { github = g })

  -- `build_review_context`
  unfoldable pub build_review_context :
      (owner repo : String) (pull_number : ℤ) (oauth_owner focus git_provider : String)
      → Call (Stores G) AiReviewRequestContext
  unfolding resolve_git_provider_name
  build_review_context owner repo pull_number oauth_owner focus git_provider w =
      let resolved_provider = resolve_git_provider_name demo_mode (some git_provider) in
      if demo_mode || resolved_provider == "demo"
      then (
        Demo.pull_review_context client.py repo pull_number w.demo
            >>= demo_context owner repo pull_number focus,
        w,
      )
      else if not (resolved_provider == "github")
      then (
        raised (
            http 501 (
              concat (
                "AI review context is not implemented for git provider '" ∷ resolved_provider ∷ "'."
                ∷ []))),
        w,
      )
      else (from_github owner repo pull_number oauth_owner then_do λ raw.
            lift (ok (context_from owner repo pull_number focus raw)))
          w

  -- The checks of `run_ai_review_job`
  unfoldable pub check_job : String → String → ℤ → String → Result (Unit {0})
  check_job owner repo pull_number oauth_owner =
      if is_empty owner || is_empty repo || ltb_ℤ pull_number (pos 1)
      then raised value_error
      else if not demo_mode && is_empty oauth_owner
      then raised value_error
      else ok tt

  -- `payload.get("focus", "") or ""`
  abbrev or_empty : Value → Value
  or_empty v = if truthy v then v else str ""

  -- What the job does with the entries of its payload
  unfoldable pub run_entries :
      (owner repo focus oauth_owner git_provider : String) (pull_number : ℤ)
      → Call (Stores G) Fields
  unfolding check_job build_review_context review_pull_request
  run_entries owner repo focus oauth_owner git_provider pull_number =
      lift (check_job owner repo pull_number oauth_owner) then_do λ _.
      build_review_context owner repo pull_number oauth_owner focus git_provider then_do λ context.
      lift (review_pull_request client provider context)

  -- `run_ai_review_job`
  unfoldable pub run_ai_review_job : Fields → Call (Stores G) Fields
  unfolding run_entries
  run_ai_review_job payload =
      let text = λ (key default : String). str_of client.py (get_or key (str default) payload) in
      let owner = lower (strip (text "owner" "")) in
      let repo = strip (text "repo" "") in
      let focus = str_of client.py (or_empty (get_or "focus" (str "") payload)) in
      let oauth_owner = lower (strip (text "oauth_owner" "")) in
      let git_provider = lower (strip (text "git_provider" "github")) in
      lift (int_of (get_or "pull_number" (int (pos 0)) payload))
      then_do run_entries owner repo focus oauth_owner git_provider

  abbrev lacks : String → Fields → Bool
  lacks key d = not (truthy (get_or key (str "") d))

  -- The payload that the agent hands to the job
  unfoldable pub prepared : Fields → AgentContext → Fields
  prepared payload context =
      let owner = env_text context.oauth_owner in
      let with_owner =
        if not (is_empty owner) && lacks "oauth_owner" payload
        then put "oauth_owner" (str owner) payload
        else payload in
      if lacks "git_provider" with_owner
      then put "git_provider" (str context.git_provider) with_owner
      else with_owner

  -- `run_ai_review_agent`
  unfoldable pub run_ai_review_agent : Fields → AgentContext → Call (Stores G) Fields
  unfolding run_ai_review_job prepared
  run_ai_review_agent payload context = run_ai_review_job (prepared payload context)

  -- The owner of the token for a review: none in demo mode
  unfoldable pub review_owner : Option String → Option AuthContext → Result String
  unfolding resolve_oauth_owner
  review_owner oauth_owner context =
      if demo_mode then ok "" else resolve_oauth_owner oauth_owner context

  abbrev pub ai_as_http : {A : Type 0} → Result A → Result A
  ai_as_http (raised (ai_error message)) =
      raised (http 502 (concat ("AI provider error: " ∷ message ∷ [])))
  ai_as_http r = r

  -- What the route does for the owner of a token
  unfoldable pub review_for :
      (owner repo : String) (pull_number : ℤ) (git_provider : String) (focus : Option String)
      (oauth_owner : String)
      → Call (Stores G) Fields
  unfolding build_review_context review_pull_request
  review_for owner repo pull_number git_provider focus oauth_owner =
      build_review_context (lower owner) repo pull_number oauth_owner (env_text focus) git_provider
      then_do λ review_context.
          lift (ai_as_http (review_pull_request client provider review_context)) then_do λ review.
          lift (ok (field "status" (str "completed") (field "review" (obj review) end)))

  -- `review_pull_request_with_ai`
  unfoldable pub review_pull_request_with_ai :
      (owner repo : String) (pull_number : ℤ) (oauth_owner : Option String) (git_provider : String)
      (focus : Option String) (context : Option AuthContext)
      → Call (Stores G) Fields
  unfolding review_owner review_for
  review_pull_request_with_ai owner repo pull_number oauth_owner git_provider focus context =
      lift (review_owner oauth_owner context)
      then_do review_for owner repo pull_number git_provider focus

-- The payload of the job that `enqueue_ai_review_job` queues
abbrev pub job_payload :
    (owner repo : String) (pull_number : ℤ) (oauth_owner git_provider : String)
    (focus : Option String)
    → Fields
job_payload owner repo pull_number oauth_owner git_provider focus =
    field "owner" (str (lower owner)) (
      field "repo" (str repo) (
        field "pull_number" (int pull_number) (
          field "oauth_owner" (str oauth_owner)
            (field "git_provider" (str git_provider) (field "focus" (str (env_text focus)) end)))))

-- `enqueue_ai_review_job`; `job_id` and the clock are those of `enqueue`.
unfoldable pub enqueue_ai_review_job :
    (demo_mode : Bool) (owner repo : String) (pull_number : ℤ) (oauth_owner : Option String)
    (git_provider : String) (focus : Option String) (max_retries : ℤ) (context : Option AuthContext)
    (now : ℕ) (job_id : String)
    → Queue
    → Result Fields × Queue
unfolding resolve_oauth_owner enqueue
enqueue_ai_review_job demo_mode owner repo pull_number oauth_owner git_provider focus max_retries
      context now job_id q =
    elim (if demo_mode then ok "" else resolve_oauth_owner oauth_owner context) [
      | raised e ↦ (raised e, q)
      | ok resolved ↦
          let (job, q') =
            enqueue "ai_review" (job_payload owner repo pull_number resolved git_provider focus)
              max_retries now job_id q in
          (ok (field "job" (obj job) end), q')
    ]

-- `get_job_status`
unfoldable pub get_job_status : String → Queue → Result Fields
get_job_status job_id q = elim (get_job job_id q) [
  | none ↦ raised (http 404 "Job not found.")
  | some job ↦ ok (field "job" (obj job) end)
]
