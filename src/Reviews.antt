-- ===== src/Reviews.antt =====
-- backend/app/ai_service.py: reviews of pull requests by a language model behind HTTP.
pub mod Models
pub mod Jobs
pub mod Answers
pub mod Payloads
pub mod Tests
use Prim.Native.Char.{Char}
use Prim.Native.String
use Prim.Native.String.{count}
use gitvibe_dev.Prelude.{ℕ, zero, suc, String, List, [], ◌∷◌, leb, if◌then◌else◌}
use gitvibe_dev.Prelude.Int.{ℤ}
use gitvibe_dev.Json.{int}
use gitvibe_dev.Json.Convert.{Builtins, str_of, strip, is_empty, concat}

pub record AiReviewRequestContext : Type 0 where
  pub owner : String
  pub repo : String
  pub pull_number : ℤ
  pub title : String
  pub body : String
  pub diff : String
  pub focus : String

-- `SYSTEM_PROMPT`
abbrev pub system_prompt : String
system_prompt =
    "You are a strict senior code reviewer. Focus on correctness, security, and maintainability. Return concise markdown with sections: Summary, Critical Issues, Improvements."

-- `text[:n]`, by characters
abbrev pub first_chars : ℕ → String → String
first_chars zero s = ""
first_chars (suc n) String.[] = ""
first_chars (suc n) (String.◌∷◌ c s) = String.◌∷◌ c (first_chars n s)

-- `_clip_diff`; `shown` is the text of `max_chars`.
unfoldable pub clip : (max_chars : ℕ) (shown : String) → String → String
clip max_chars shown diff =
    let text = strip diff in
    if leb (count text) max_chars
    then text
    else concat (first_chars max_chars text ∷ "\n\n[diff truncated to " ∷ shown ∷ " chars]" ∷ [])

-- `_clip_diff` at the default of `max_chars`, which no call changes
unfoldable pub clip_diff : String → String
unfolding clip
clip_diff diff = clip 30_000 "30000" diff

-- `_build_user_prompt`
unfoldable pub build_user_prompt : Builtins → AiReviewRequestContext → String
unfolding clip_diff
build_user_prompt py c =
    let focus_line = if is_empty c.focus then "General quality review." else strip c.focus in
    let body = if is_empty c.body then "(no description)" else c.body in
    concat (
      "Repository: "
      ∷ c.owner
      ∷ "/"
      ∷ c.repo
      ∷ "\nPR: #"
      ∷ str_of py (int c.pull_number)
      ∷ "\nTitle: "
      ∷ c.title
      ∷ "\nFocus: "
      ∷ focus_line
      ∷ "\nDescription:\n"
      ∷ body
      ∷ "\n\nUnified diff:\n"
      ∷ clip_diff c.diff
      ∷ "\n"
      ∷ [])
