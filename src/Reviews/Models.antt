-- ===== src/Reviews/Models.antt =====
-- The providers of backend/app/ai_service.py: Ollama and the OpenAI-compatible services.
use gitvibe_dev.Prelude.{
  String, Bool, true, false, ◌⊎◌, inl, inr, Option, none, some, [], ◌∷◌, contains, ◌==◌,
  if◌then◌else◌,
}
use gitvibe_dev.Prelude.Int.{pos}
use gitvibe_dev.Exc.{Result, ok, raised, ai_error, value_error, ◌>>=◌}
use gitvibe_dev.Json.{Value, bool, int, float, str, arr, obj, nil, cons, Fields, end, field}
use gitvibe_dev.Json.Dict.{get}
use gitvibe_dev.Json.Convert.{Builtins, strip, lower, is_empty, concat}
use gitvibe_dev.Github.{HttpRequest, HttpResponse}
use gitvibe_dev.Github.Url.{rstrip_slash}
use gitvibe_dev.Reviews.{AiReviewRequestContext, system_prompt, build_user_prompt}

pub data AiProvider : Type 0 where
  ollama : (base_url model_name : String) → AiProvider
  openai_compatible : (base_url api_key model_name : String) → AiProvider

-- The HTTP client. `raise_for_status` is the text of the HTTPStatusError, if there is one, and
-- `json_error` that of the ValueError of a body that is no JSON.
pub data Answer : Type 0 where
  answered : HttpResponse → Answer
  request_error : (message : String) → Answer

pub record AiClient : Type 0 where
  pub py : Builtins
  pub request : HttpRequest → Answer
  pub raise_for_status : HttpResponse → Option String
  pub json_error : HttpResponse → String

-- What the constructors keep, `base_url.rstrip("/")` included
unfoldable pub choose_provider :
    (provider_name ollama_base_url ollama_model openai_base_url openai_api_key
      openai_model : String)
    → Result AiProvider
unfolding rstrip_slash
choose_provider provider_name ollama_base_url ollama_model openai_base_url openai_api_key
      openai_model =
    let resolved = lower (strip provider_name) in
    if resolved == "ollama"
    then ok (ollama (rstrip_slash ollama_base_url) ollama_model)
    else if contains resolved ("openai" ∷ "openai-compatible" ∷ "openai_compatible" ∷ [])
    then ok (openai_compatible (rstrip_slash openai_base_url) openai_api_key openai_model)
    else raised value_error

abbrev pub provider_name : AiProvider → String
provider_name (ollama base_url model) = "ollama"
provider_name (openai_compatible base_url api_key model) = "openai_compatible"

abbrev pub model_name : AiProvider → String
model_name (ollama base_url model) = model
model_name (openai_compatible base_url api_key model) = model

abbrev messages : String → String → Value
messages system user = arr (
    cons (obj (field "role" (str "system") (field "content" (str system) end)))
      (cons (obj (field "role" (str "user") (field "content" (str user) end))) nil))

-- `_headers`, or the text of the AIProviderError
abbrev pub openai_headers : String → String ⊎ Fields
openai_headers api_key =
    if is_empty api_key
    then inl "OPENAI_API_KEY is required for OpenAI-compatible provider."
    else inr (
        field "Authorization" (str (concat ("Bearer " ∷ api_key ∷ [])))
          (field "Content-Type" (str "application/json") end))

abbrev pub asked : String → String → Fields → Option Fields → HttpRequest
asked method url headers json_body = record {
  method = method;
  url = url;
  headers = headers;
  params = none;
  json_body = json_body;
  data_body = none;
}

abbrev pub entry_of : String → Option Value → Option Value
entry_of key (some (obj d)) = get key d
entry_of key _ = none

-- The text of a review, which must not be blank
abbrev pub review_text : String → Option Value → Result String
review_text missing (some (str content)) =
    if is_empty (strip content) then raised (ai_error missing) else ok content
review_text missing _ = raised (ai_error missing)

abbrev pub ollama_content : Value → Result String
ollama_content body =
    review_text "Ollama response is missing review content."
      (entry_of "content" (entry_of "message" (some body)))

abbrev pub first_choice : Option Value → Result String
first_choice (some (arr (cons (obj choice) choices))) =
    review_text "OpenAI-compatible response is missing review content."
      (entry_of "content" (entry_of "message" (some (obj choice))))
first_choice (some (arr (cons _ choices))) =
    raised (ai_error "OpenAI-compatible response choice is invalid.")
first_choice _ = raised (ai_error "OpenAI-compatible response has no choices.")

abbrev pub openai_content : Value → Result String
openai_content body = first_choice (entry_of "choices" (some body))

-- What a provider finds in the body of an answer
abbrev pub content_of : AiProvider → Value → Result String
content_of (ollama base_url model) = ollama_content
content_of (openai_compatible base_url api_key model) = openai_content

module _ (client : AiClient) where
  -- A request of which the JSON is wanted: the text of what it raises, or the body
  unfoldable pub fetch : HttpRequest → String ⊎ Value
  fetch request = elim (client.request request) [
    | request_error message ↦ inl message
    | answered response ↦ elim (client.raise_for_status response) [
      | some message ↦ inl message
      | none ↦ elim response.json [ none ↦ inl (client.json_error response) | some body ↦ inr body ]
    ]
  ]

  -- A request of which only the status is wanted
  unfoldable pub probe : HttpRequest → Bool × String
  probe request = elim (client.request request) [
    | request_error message ↦ (false, message)
    | answered response ↦ elim (client.raise_for_status response) [
      | some message ↦ (false, message)
      | none ↦ (true, "ok")
    ]
  ]

  -- `health` of either provider
  unfoldable pub health : AiProvider → Bool × String
  unfolding probe
  health (ollama base_url model) =
      probe (asked "GET" (concat (base_url ∷ "/api/tags" ∷ [])) end none)
  health (openai_compatible base_url api_key model) = elim (openai_headers api_key) [
    | inl message ↦ (false, message)
    | inr headers ↦ probe (asked "GET" (concat (base_url ∷ "/models" ∷ [])) headers none)
  ]

  abbrev pub answer_of : String → (Value → Result String) → String ⊎ Value → Result String
  answer_of prefix content (inl message) = raised (ai_error (concat (prefix ∷ message ∷ [])))
  answer_of prefix content (inr body) = content body

  abbrev pub ollama_payload : String → String → String → Fields
  ollama_payload model system user =
      field "model" (str model)
        (field "stream" (bool false) (field "messages" (messages system user) end))

  abbrev pub openai_payload : String → String → String → Fields
  openai_payload model system user =
      field "model" (str model)
        (field "messages" (messages system user) (field "temperature" (float (pos 200_000)) end))

  -- `review` of either provider
  unfoldable pub review : AiProvider → String → String → Result String
  unfolding fetch
  review (ollama base_url model) system user =
      answer_of "Ollama request failed: " (content_of (ollama base_url model)) (
        fetch (
          asked "POST" (concat (base_url ∷ "/api/chat" ∷ [])) end
            (some (ollama_payload model system user))))
  review (openai_compatible base_url api_key model) system user = elim (openai_headers api_key) [
    | inl message ↦ raised (ai_error (concat ("OpenAI-compatible request failed: " ∷ message ∷ [])))
    | inr headers ↦
        answer_of "OpenAI-compatible request failed: "
          (content_of (openai_compatible base_url api_key model))
          (fetch (
            asked "POST" (concat (base_url ∷ "/chat/completions" ∷ [])) headers
              (some (openai_payload model system user))))
  ]

  -- `review_pull_request`
  unfoldable pub review_pull_request : AiProvider → AiReviewRequestContext → Result Fields
  unfolding review build_user_prompt
  review_pull_request provider c =
      review provider system_prompt (build_user_prompt client.py c) >>= λ text. ok (
        field "provider" (str (provider_name provider)) (
          field "model" (str (model_name provider)) (
            field "review" (str text) (
              field "repo" (str (concat (c.owner ∷ "/" ∷ c.repo ∷ [])))
                (field "pull_number" (int c.pull_number) end)))))
