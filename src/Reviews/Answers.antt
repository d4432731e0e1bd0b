-- ===== src/Reviews/Answers.antt =====
-- What a review sends and what it returns, backend/app/ai_service.py.
use Prim.Native.String.{count}
use text.Mathlib.TextLemmas.{length-append, length-nil, length-cons}
use gitvibe_dev.Prelude.{
  ℕ, zero, suc, ◌+◌, ◌≤◌, String, ◌≡◌, refl, subst, true, false, Bool-cases, Option, none, some,
  inl, inr, ◌⊎◌, List, [], ◌∷◌, arith, leb,
}
use gitvibe_dev.Exc.{Result, ok, ai_error, passed_test}
use gitvibe_dev.Json.{Value, null, bool, int, float, str, arr, obj, nil, cons}
use gitvibe_dev.Json.Convert.{strip, is_empty, concat}
use gitvibe_dev.Github.{HttpRequest}
use gitvibe_dev.Reviews.{first_chars, clip, clip_diff}
use gitvibe_dev.Reviews.Models.{
  AiProvider, ollama, openai_compatible, AiClient, ollama_content, openai_content, openai_headers,
  content_of, review_text, first_choice, entry_of, answer_of, fetch, review,
}

within : (n a b : ℕ) → leb a n ≡ true → a ≤ n + 28 + b
within n a b h = ground arith

first_chars-count : (n : ℕ) (s : String) → count (first_chars n s) ≤ n
first_chars-count zero s = rw length-nil (omega arith)
first_chars-count (suc n) String.[] = rw length-nil (omega arith)
first_chars-count (suc n) (String.◌∷◌ c s) =
    let h = first_chars-count n s in rw length-cons (omega (arith, h))

count-concat :
    (s : String) (ss : List String) → count (concat (s ∷ ss)) ≡ count s + count (concat ss)
count-concat s ss = length-append s (concat ss)

clip_bounded : (n : ℕ) (shown diff : String) → count (clip n shown diff) ≤ n + 28 + count shown
unfolding clip
clip_bounded n shown diff = elim (Bool-cases (leb (count (strip diff)) n)) [
  | inl short ↦ rw (short, clip) (within n (count (strip diff)) (count shown) short)
  | inr long ↦
      let text = first_chars n (strip diff) in
      let note = "\n\n[diff truncated to " ∷ shown ∷ " chars]" ∷ [] in
      rw (long, clip)
        (omega (
          arith,
          first_chars-count n (strip diff),
          count-concat text note,
          count-concat "\n\n[diff truncated to " (shown ∷ " chars]" ∷ []),
          count-concat shown (" chars]" ∷ []),
        ))
]

-- The diff in a prompt has at most 30033 characters: 30000 of the diff, and the note that follows
-- a diff that was cut.
pub clip_diff_bounded : (diff : String) → count (clip_diff diff) ≤ 30_033
unfolding clip_diff
clip_diff_bounded diff = clip_bounded 30_000 "30000" diff

review_text_nonblank :
    (missing : String) (o : Option Value) (text : String)
    → review_text missing o ≡ ok text
    → is_empty (strip text) ≡ false
review_text_nonblank missing none text h = absurd cc
review_text_nonblank missing (some (str content)) text h =
    let (filled, same) = passed_test (is_empty (strip content)) (ai_error missing) content text h in
    subst (λ t. is_empty (strip t) ≡ false) same filled
review_text_nonblank missing (some null) text h = absurd cc
review_text_nonblank missing (some (bool b)) text h = absurd cc
review_text_nonblank missing (some (int n)) text h = absurd cc
review_text_nonblank missing (some (float n)) text h = absurd cc
review_text_nonblank missing (some (arr vs)) text h = absurd cc
review_text_nonblank missing (some (obj d)) text h = absurd cc

first_choice_nonblank :
    (o : Option Value) (text : String) → first_choice o ≡ ok text → is_empty (strip text) ≡ false
first_choice_nonblank (some (arr (cons (obj choice) choices))) text h =
    review_text_nonblank _ (entry_of "content" (entry_of "message" (some (obj choice)))) text h
first_choice_nonblank none text h = absurd cc
first_choice_nonblank (some null) text h = absurd cc
first_choice_nonblank (some (bool b)) text h = absurd cc
first_choice_nonblank (some (int n)) text h = absurd cc
first_choice_nonblank (some (float n)) text h = absurd cc
first_choice_nonblank (some (str s)) text h = absurd cc
first_choice_nonblank (some (obj d)) text h = absurd cc
first_choice_nonblank (some (arr nil)) text h = absurd cc
first_choice_nonblank (some (arr (cons null vs))) text h = absurd cc
first_choice_nonblank (some (arr (cons (bool b) vs))) text h = absurd cc
first_choice_nonblank (some (arr (cons (int n) vs))) text h = absurd cc
first_choice_nonblank (some (arr (cons (float n) vs))) text h = absurd cc
first_choice_nonblank (some (arr (cons (str s) vs))) text h = absurd cc
first_choice_nonblank (some (arr (cons (arr xs) vs))) text h = absurd cc

sum_cases : {A B : Type 0} (x : A ⊎ B) → ((a : A) × (x ≡ inl a)) ⊎ ((b : B) × (x ≡ inr b))
sum_cases (inl a) = inl (a, refl)
sum_cases (inr b) = inr (b, refl)

module _ (client : AiClient) where
  content_nonblank :
      (provider : AiProvider) (body : Value) (text : String)
      → content_of provider body ≡ ok text
      → is_empty (strip text) ≡ false
  content_nonblank (ollama base_url model) body text h =
      review_text_nonblank _ (entry_of "content" (entry_of "message" (some body))) text h
  content_nonblank (openai_compatible base_url api_key model) body text h =
      first_choice_nonblank (entry_of "choices" (some body)) text h

  answer_of-ok :
      (prefix : String) (content : Value → Result String) (fetched : String ⊎ Value) (text : String)
      → answer_of client prefix content fetched ≡ ok text
      → (body : Value) × (fetched ≡ inr body) × (content body ≡ ok text)
  answer_of-ok prefix content (inl message) text h = absurd cc
  answer_of-ok prefix content (inr body) text h = (body, refl, h)

  -- A review that a provider returns is not blank, and comes from the body of an answer to one
  -- request.
  pub review_nonblank :
      (provider : AiProvider) (system user text : String)
      → review client provider system user ≡ ok text
      → (is_empty (strip text) ≡ false)
        × ((request : HttpRequest) × (body : Value) × (fetch client request ≡ inr body)
            × (content_of provider body ≡ ok text))
  unfolding review
  review_nonblank (ollama base_url model) system user text h =
      let (body, fetched, read) = answer_of-ok _ ollama_content _ text h in
      (content_nonblank (ollama base_url model) body text read, (_, body, fetched, read))
  review_nonblank (openai_compatible base_url api_key model) system user text h =
      elim (sum_cases (openai_headers api_key)) [
        | inl (message, e) ↦ absurd (cc (rw (e, review) at h))
        | inr (headers, e) ↦
            let (body, fetched, read) =
              answer_of-ok _ openai_content _ text (rw (e, review) at h) in
            (
              content_nonblank (openai_compatible base_url api_key model) body text read,
              (_, body, fetched, read),
            )
      ]
