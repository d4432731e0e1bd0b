-- ===== src/Tokens/Refresh.antt =====
-- Refresh tokens of backend/app/security.py: each is good for one rotation.
use gitvibe_dev.Prelude.{
  ℕ, ◌/◌, String, ◌≡◌, ◌≢◌, refl, sym, ap, ◌∙◌, inl, inr, none, Option-cases, arith, eq_iff,
  eq_refl, String-cases,
}
use gitvibe_dev.Exc.{Result, ok, raised, bind_ok}
use gitvibe_dev.Json.{obj, Fields, end, field}
use gitvibe_dev.Json.Dict.{get, del, get-put, get-put_self, get-del}
use gitvibe_dev.Json.Convert.{Builtins}
use gitvibe_dev.Tokens.Codec.{Jwt}
use gitvibe_dev.Tokens.{
  Service, Draws, Issued, decode_token, rotate_refresh_token, take_session, rotate_decoded, reissue,
  reissue_for, required, keep_live, issue_token_pair, save_pair, load_refresh_sessions,
  save_refresh_sessions, stored_sessions, live_sessions, is_live, new_refresh_token, role_level,
  refresh_state_key,
}

-- What survives the filter was there before.
get-live_sessions :
    (ts : ℕ) (d filtered : Fields) (k : String)
    → live_sessions ts d ≡ ok filtered
    → get k d ≡ none
    → get k filtered ≡ none
unfolding live_sessions
get-live_sessions ts end filtered k e h = ground arith
get-live_sessions ts (field j v d) filtered k e h =
    let (live, _, e₁) = bind_ok (is_live ts v) _ e in
    let (rest, e₂, e₃) = bind_ok (live_sessions ts d) _ e₁ in
    elim (String-cases j k) [
      | inl same ↦ cc (rw (same, eq_refl) at h)
      | inr ne ↦
          let ih : get k rest ≡ none = get-live_sessions ts d rest k e₂ (rw ne at h) in
          ground (arith, eq_iff j k)
    ]

stored-save : (d : Fields) (s : Service) → stored_sessions (save_refresh_sessions d s) ≡ d
stored-save d s = rw (get-put_self refresh_state_key (obj d) s.vault, stored_sessions)

-- What `_load_refresh_sessions` returns has no key that was not there.
load-absent :
    (now : ℕ) (s : Service) (k : String) (filtered : Fields)
    → get k (stored_sessions s) ≡ none
    → (load_refresh_sessions now s).0 ≡ ok filtered
    → get k filtered ≡ none
unfolding load_refresh_sessions
load-absent now s k filtered h e =
    get-live_sessions (now / 1_000_000) (stored_sessions s) filtered k
      (sym (result_keep_live (live_sessions (now / 1_000_000) (stored_sessions s))) ∙ e) h
  where
    result_keep_live : (x : Result Fields) → (keep_live x s).0 ≡ x
    result_keep_live (raised e) = refl
    result_keep_live (ok d) = refl

module _ {Token : Type 0} (jwt : Jwt Token) (hash : Token → String) where
  -- With no entry for the token, none is made but for the new token.
  save_pair-absent :
      (subject role k : String) (now : ℕ) (d : Draws) (x : Result Fields) (s : Service)
      (r : Issued Token)
      → ((f : Fields) → x ≡ ok f → get k f ≡ none)
      → (save_pair jwt hash subject role now d x s).0 ≡ ok r
      → hash r.refresh_token ≢ k
      → get k (stored_sessions (save_pair jwt hash subject role now d x s).1) ≡ none
  unfolding save_pair
  save_pair-absent subject role k now d (raised e) s r absent h ne = cc
  save_pair-absent subject role k now d (ok f) s r absent h ne =
      let new = new_refresh_token jwt subject role now d s in
      let same : new ≡ r.refresh_token = ground arith in
      rw stored-save (elim (String-cases (hash new) k) [
        | inl clash ↦ absurd (ne (ap hash (sym same) ∙ clash))
        | inr differs ↦ rw (get-put, differs) (absent f refl)
      ])

  issue-absent :
      (subject role k : String) (now : ℕ) (d : Draws) (s : Service) (r : Issued Token)
      → get k (stored_sessions s) ≡ none
      → (issue_token_pair jwt hash subject role now d s).0 ≡ ok r
      → hash r.refresh_token ≢ k
      → get k (stored_sessions (issue_token_pair jwt hash subject role now d s).1) ≡ none
  unfolding issue_token_pair
  issue-absent subject role k now d s r absent = elim (Option-cases (role_level role)) [
    | inl unknown ↦ rw (unknown, issue_token_pair) (λ h ne. cc)
    | inr (level, known) ↦
        rw (known, issue_token_pair)
          (save_pair-absent subject role k now d (load_refresh_sessions now s).0
            (load_refresh_sessions now s).1 r (λ f e. load-absent now s k f absent e))
  ]

  reissue_for-absent :
      (subject role : Result String) (k : String) (now : ℕ) (d : Draws) (s : Service)
      (r : Issued Token)
      → get k (stored_sessions s) ≡ none
      → (reissue_for jwt hash subject role now d s).0 ≡ ok r
      → hash r.refresh_token ≢ k
      → get k (stored_sessions (reissue_for jwt hash subject role now d s).1) ≡ none
  unfolding reissue_for
  reissue_for-absent (ok subject) (ok role) k now d s r absent h ne =
      issue-absent subject role k now d s r absent h ne
  reissue_for-absent (ok subject) (raised e) k now d s r absent h ne = cc
  reissue_for-absent (raised x) role k now d s r absent h ne = cc

  module _ (py : Builtins) where
    -- The session of a token is gone once the token was rotated.
    take_session-removes :
        (p : Fields) (k : String) (now : ℕ) (d : Draws) (x : Result Fields) (s : Service)
        (r : Issued Token)
        → (take_session jwt hash py p k now d x s).0 ≡ ok r
        → hash r.refresh_token ≢ k
        → get k (stored_sessions (take_session jwt hash py p k now d x s).1) ≡ none
    unfolding take_session reissue
    take_session-removes p k now d (raised e) s r h ne = cc
    take_session-removes p k now d (ok f) s r h ne = found h ne
      where
        found :
            (take_session jwt hash py p k now d (ok f) s).0 ≡ ok r
            → hash r.refresh_token ≢ k
            → get k (stored_sessions (take_session jwt hash py p k now d (ok f) s).1) ≡ none
        found = elim (Option-cases (get k f)) [
          | inl none_there ↦ rw (none_there, take_session) (λ h ne. cc)
          | inr (v, there) ↦
              rw (there, take_session)
                (reissue_for-absent (required jwt hash py "sub" p) (required jwt hash py "role" p) k
                  now d (save_refresh_sessions (del k f) s) r (rw (stored-save, get-del, eq_refl)))
        ]

    take_session-absent :
        (p : Fields) (k : String) (now : ℕ) (d : Draws) (x : Result Fields) (s : Service)
        (r : Issued Token)
        → ((f : Fields) → x ≡ ok f → get k f ≡ none)
        → (take_session jwt hash py p k now d x s).0 ≢ ok r
    unfolding take_session
    take_session-absent p k now d (raised e) s r absent h = cc
    take_session-absent p k now d (ok f) s r absent h = cc (rw (absent f refl, take_session) at h)

    rotate_decoded-absent :
        (now : ℕ) (d : Draws) (token : Token) (p : Result Fields) (s : Service) (r : Issued Token)
        → get (hash token) (stored_sessions s) ≡ none
        → (rotate_decoded jwt hash py now d token p s).0 ≢ ok r
    unfolding rotate_decoded
    rotate_decoded-absent now d token (raised e) s r absent h = cc
    rotate_decoded-absent now d token (ok p) s r absent h =
        take_session-absent p (hash token) now d (load_refresh_sessions now s).0
          (load_refresh_sessions now s).1 r (λ f e. load-absent now s (hash token) f absent e) h

    rotate_decoded-removes :
        (now : ℕ) (d : Draws) (token : Token) (p : Result Fields) (s : Service) (r : Issued Token)
        → (rotate_decoded jwt hash py now d token p s).0 ≡ ok r
        → hash r.refresh_token ≢ hash token
        → get (hash token) (stored_sessions (rotate_decoded jwt hash py now d token p s).1) ≡ none
    unfolding rotate_decoded
    rotate_decoded-removes now d token (raised e) s r h ne = cc
    rotate_decoded-removes now d token (ok p) s r h ne =
        take_session-removes p (hash token) now d (load_refresh_sessions now s).0
          (load_refresh_sessions now s).1 r h ne

    -- A refresh token is good for one rotation: once it was rotated, and if the new token has
    -- another hash, a second rotation of it raises, at any time and whatever ids it draws.
    pub rotate_refresh_token_once :
        (now later : ℕ) (d d' : Draws) (token : Token) (s : Service) (r r' : Issued Token)
        → (rotate_refresh_token jwt hash py now d token s).0 ≡ ok r
        → hash r.refresh_token ≢ hash token
        → (rotate_refresh_token jwt hash py later d' token
            (rotate_refresh_token jwt hash py now d token s).1).0
          ≢ ok r'
    unfolding rotate_refresh_token
    rotate_refresh_token_once now later d d' token s r r' h ne =
        let s' = (rotate_refresh_token jwt hash py now d token s).1 in
        rotate_decoded-absent later d' token (decode_token jwt later token "refresh" s') s' r'
          (rotate_decoded-removes now d token (decode_token jwt now token "refresh" s) s r h ne)
