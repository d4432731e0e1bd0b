-- ===== src/Api/Access.antt =====
-- What the checks of backend/app/main.py let through.
use gitvibe_dev.Prelude.{
  ℕ, ◌≤◌, String, ◌≡◌, ◌≢◌, refl, sym, ap, subst, ◌∙◌, inl, inr, Bool, true, false, not, ◌&&◌, ◌||◌,
  Option, none, some, Bool-cases, Option-cases, List, [], ◌∷◌, arith, contains, ltb, ◌==◌, eq_iff,
  ne_of_eq_false, if◌then◌else◌, String-cases,
}
use gitvibe_dev.Exc.{Exc, Result, ok, raised, http, other, key_error, ◌>>=◌, bind_ok, passed_test}
use gitvibe_dev.Json.Convert.{strip, lower, is_empty}
use gitvibe_dev.Tokens.{AuthContext, role_level, verify_access_token}
use gitvibe_dev.Api.{
  Backend, Request, env_text, env_bool, resolve_app_mode, start_mode, level_of, check_level,
  resolve_git_provider_name, csrf_protected, check_csrf, mark_checked, get_auth_context,
  require_role, demo_or_viewer_context,
}

from_option :
    (o : Option ℕ) (level : ℕ)
    → elim o as (λ _. Result ℕ) [ none ↦ raised key_error | some n ↦ ok n ] ≡ ok level
    → o ≡ some level
from_option none level h = cc
from_option (some n) level h = cc

level_of-ok : (role : String) (level : ℕ) → level_of role ≡ ok level → role_level role ≡ some level
unfolding level_of
level_of-ok role level h = from_option (role_level role) level h

not_less : (a b : ℕ) → ltb a b ≡ false → b ≤ a
not_less a b h = ground arith

pub check_level-ok :
    (detail required_role : String) (c c' : AuthContext)
    → check_level detail required_role c ≡ ok c'
    → (held needed : ℕ) × (role_level c.role ≡ some held)
      × (role_level required_role ≡ some needed)
      × (needed ≤ held)
      × (c ≡ c')
unfolding check_level
check_level-ok detail required_role c c' h =
    let (held, e, h₁) = bind_ok (level_of c.role) _ h in
    let (needed, e', h₂) = bind_ok (level_of required_role) _ h₁ in
    let (enough, same) = passed_test (ltb held needed) (http 403 detail) c c' h₂ in
    (
      held,
      needed,
      level_of-ok c.role held e,
      level_of-ok required_role needed e',
      not_less held needed enough,
      same,
    )

ok_inj : {A : Type 0} {a b : A} → ok a ≡ ok b → a ≡ b
ok_inj h = cc

unwrap : {A : Type 0} (a : A) (b : Option A) → ok (some a) ≡ ok b → b ≡ some a
unwrap a b h = cc

module _ {Token : Type 0} (backend : Backend Token) (request : Request Token) where
  header_matches :
      (header : Option String) (token : String)
      → (is_empty (env_text header) || not (env_text header == token)) ≡ false
      → header ≡ some token
  header_matches none token h = cc
  header_matches (some text) token h = ground (arith, eq_iff text token)

  mark_checked-ok :
      (r : Result AuthContext) (c : AuthContext)
      → (mark_checked backend request r).0 ≡ ok c
      → (r ≡ ok c) × (check_csrf backend request c ≡ ok c)
  unfolding mark_checked check_csrf
  mark_checked-ok (raised e) c h = cc
  mark_checked-ok (ok c') c h =
      let (passed, same) = passed_test _ (http 403 "CSRF token is missing or invalid.") c' c h in
      (ap ok same, subst (λ x. check_csrf backend request x ≡ ok c) same h)

  -- Where a context comes from.
  get_auth_context-ok :
      (c : AuthContext)
      → (get_auth_context backend request).0 ≡ ok c
      → (token : Token) × (request.credentials ≡ some token)
        × (verify_access_token backend.jwt backend.now token backend.tokens ≡ ok c)
        × (check_csrf backend request c ≡ ok c)
  unfolding get_auth_context
  get_auth_context-ok c h = elim (Option-cases request.credentials) [
    | inl missing ↦ absurd (cc (rw (missing, get_auth_context) at h))
    | inr (token, given) ↦
        let (e, e') =
          mark_checked-ok (verify_access_token backend.jwt backend.now token backend.tokens) c
            (rw (given, get_auth_context) at h) in
        (token, given, e, e')
  ]

  -- Where the CSRF check applies, `get_auth_context` returns a context only for a request whose
  -- x-csrf-token header is the CSRF token of that context.
  pub get_auth_context_csrf :
      (c : AuthContext)
      → csrf_protected backend request ≡ true
      → (get_auth_context backend request).0 ≡ ok c
      → request.x_csrf_token ≡ some c.csrf_token
  unfolding check_csrf
  get_auth_context_csrf c protected h =
      let (token, given, e, checked) = get_auth_context-ok c h in
      let (passed, same) =
        passed_test _ (http 403 "CSRF token is missing or invalid.") c c checked in
      header_matches request.x_csrf_token c.csrf_token (rw protected at passed)

  -- Outside of demo mode the routes for viewers are reached only with a token that verifies, and
  -- they are given its context.
  pub demo_or_viewer_context-verified :
      (context : Option AuthContext)
      → backend.demo_mode ≡ false
      → (demo_or_viewer_context backend request).0 ≡ ok context
      → (token : Token) × (c : AuthContext) × (request.credentials ≡ some token)
        × (verify_access_token backend.jwt backend.now token backend.tokens ≡ ok c)
        × (context ≡ some c)
  unfolding demo_or_viewer_context
  demo_or_viewer_context-verified context real h = elim (Option-cases request.credentials) [
    | inl missing ↦ absurd (cc (rw (missing, real, demo_or_viewer_context) at h))
    | inr (token, given) ↦
        let (c, checked, wrapped) =
          bind_ok
            ((get_auth_context backend request).0
              >>= check_level "Viewer role is required." "viewer")
            _ (rw (given, demo_or_viewer_context) at h) in
        let (c', e, e') = bind_ok (get_auth_context backend request).0 _ checked in
        let (held, needed, k, k', le, same) = check_level-ok _ "viewer" c' c e' in
        let (token', given', verified, csrf) = get_auth_context-ok c' e in
        (token', c, given', verified ∙ ap ok same, unwrap c context wrapped)
  ]

  -- `require_role` lets a context through only if its role and the required one are known and its
  -- level is at least the required one.
  pub require_role_level :
      (required_role : String) (c : AuthContext)
      → (require_role backend request required_role).0 ≡ ok c
      → (held needed : ℕ) × (role_level c.role ≡ some held)
        × (role_level required_role ≡ some needed)
        × (needed ≤ held)
  unfolding require_role
  require_role_level required_role c h =
      let (c', e, h₁) = bind_ok (get_auth_context backend request).0 _ h in
      let (held, needed, k, k', le, same) = check_level-ok _ required_role c' c h₁ in
      (held, needed, subst (λ x. role_level x.role ≡ some held) same k, k', le)

abbrev modes : List String
modes = "demo" ∷ "development" ∷ "production" ∷ []

valid_mode :
    (configured : String) (empty demo : Bool) (e : Exc) (mode : String)
    → (if empty
        then ok (if demo then "demo" else "development")
        else if contains configured modes
        then ok configured
        else raised e)
      ≡ ok mode
    → contains mode modes ≡ true
valid_mode configured true true e mode h = subst (λ x. contains x modes ≡ true) (ok_inj h) refl
valid_mode configured true false e mode h = subst (λ x. contains x modes ≡ true) (ok_inj h) refl
valid_mode configured false demo e mode h = elim (Bool-cases (contains configured modes)) [
  | inl among ↦ subst (λ x. contains x modes ≡ true) (ok_inj (rw among at h)) among
  | inr not_among ↦ absurd (cc (rw not_among at h))
]

resolve_app_mode_valid :
    (app_mode demo_mode : Option String) (mode : String)
    → resolve_app_mode app_mode demo_mode ≡ ok mode
    → contains mode modes ≡ true
unfolding resolve_app_mode
resolve_app_mode_valid app_mode demo_mode mode h =
    valid_mode (lower (strip (env_text app_mode))) (is_empty (lower (strip (env_text app_mode))))
      (env_bool demo_mode true) _ mode h

-- The program starts only in one of its three modes, and not in demo mode if DEPLOY_ENV says
-- production.
pub start_mode_valid :
    (app_mode demo_mode deploy_env : Option String) (mode : String)
    → start_mode app_mode demo_mode deploy_env ≡ ok mode
    → (contains mode ("demo" ∷ "development" ∷ "production" ∷ []) ≡ true)
      × ((mode == "demo" && lower (strip (env_text deploy_env)) == "production") ≡ false)
unfolding start_mode resolve_app_mode
start_mode_valid app_mode demo_mode deploy_env mode h =
    let (m, e, h₁) = bind_ok (resolve_app_mode app_mode demo_mode) _ h in
    let (passed, same) =
      passed_test _ (other "APP_MODE=demo is blocked when DEPLOY_ENV=production.") m mode h₁ in
    (
      subst (λ x. contains x modes ≡ true) same (resolve_app_mode_valid app_mode demo_mode m e),
      subst (λ x. (x == "demo" && lower (strip (env_text deploy_env)) == "production") ≡ false) same
          passed,
    )

choice :
    (candidate : String)
    → (if contains candidate ("" ∷ "github" ∷ "auto" ∷ [])
        then "demo"
        else if is_empty candidate
        then "github"
        else candidate)
      ≢ "github"
choice String.[] h = cc
choice (String.◌∷◌ x s) h = elim (String-cases "github" (String.◌∷◌ x s)) [
  | inl e ↦ cc (
      subst
        (λ x.
          (if contains x ("" ∷ "github" ∷ "auto" ∷ [])
            then "demo"
            else if is_empty x
            then "github"
            else x)
          ≡ "github")
        (sym e) h)
  | inr ne ↦ elim (Bool-cases (contains (String.◌∷◌ x s) ("" ∷ "github" ∷ "auto" ∷ []))) [
    | inl among ↦ cc (rw among at h)
    | inr not_among ↦ ne_of_eq_false "github" (String.◌∷◌ x s) ne (sym (rw not_among at h))
  ]
]

-- In demo mode no hint makes the router choose the GitHub provider.
pub resolve_git_provider_name-demo :
    (provider_hint : Option String) → resolve_git_provider_name true provider_hint ≢ "github"
unfolding resolve_git_provider_name
resolve_git_provider_name-demo provider_hint h =
    choice
      (lower
        (strip (if is_empty (env_text provider_hint) then "github" else env_text provider_hint)))
      h
