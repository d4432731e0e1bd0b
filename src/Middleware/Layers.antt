-- ===== src/Middleware/Layers.antt =====
-- What every answer of the program carries, and which requests reach no route.
use gitvibe_dev.Prelude.{
  Bool, ℕ, String, ◌≡◌, refl, sym, ap, subst, ◌∙◌, true, some, List, [], ◌∷◌, ◌++◌, ◌⊎◌, inl, inr,
}
use gitvibe_dev.Exc.{Result, ok, raised}
use gitvibe_dev.Json.{str, Fields}
use gitvibe_dev.Json.Dict.{get, put, get-put}
use gitvibe_dev.Providers.{Call}
use gitvibe_dev.RateLimit.{Verdict, pass_on, answer, retry_later, Limiter, check_size, dispatch}
use gitvibe_dev.Middleware.{
  HttpRequest, Draws, Answered, Server, secure_headers, text_or_default, request_entry, sized,
  limited_by, limited, with_headers, secured, logged, serve,
}

-- The seven headers that a browser is to keep to
pub record IsHardened (headers : Fields) : Type 0 where
  pub options : get "X-Content-Type-Options" headers ≡ some (str "nosniff")
  pub frames : get "X-Frame-Options" headers ≡ some (str "DENY")
  pub referrer : get "Referrer-Policy" headers ≡ some (str "no-referrer")
  pub transport :
      get "Strict-Transport-Security" headers ≡ some (str "max-age=31536000; includeSubDomains")
  pub permissions :
      get "Permissions-Policy" headers ≡ some (str "camera=(), microphone=(), geolocation=()")
  pub xss : get "X-XSS-Protection" headers ≡ some (str "0")
  pub sources :
      get "Content-Security-Policy" headers
      ≡ some (
          str
            "default-src 'self'; frame-ancestors 'none'; base-uri 'self'; object-src 'none'; form-action 'self'")

secure_headers-IsHardened :
    (value : String) (headers : Fields)
    → IsHardened (put "X-Request-ID" (str value) (secure_headers true headers))
unfolding secure_headers
secure_headers-IsHardened value headers = record {
  options = simp get-put;
  frames = simp get-put;
  referrer = simp get-put;
  transport = simp get-put;
  permissions = simp get-put;
  xss = simp get-put;
  sources = simp get-put;
}

ok_inj : {A : Type 0} {a b : A} → ok a ≡ ok b → a ≡ b
ok_inj h = cc

module _ {W : Type 0} (d : Draws) (max_bytes : ℕ) (request : HttpRequest)
    (route : Call W Answered) where
  abbrev request_id : String
  request_id = text_or_default d.fresh_id request.x_request_id

  -- The answer `a` carries the secure headers and its request id, and is the one new entry of the
  -- request log, with its status and the subject that the route left.
  pub record IsServed (before : List Fields) (a : Answered) (s' : Server W) : Type 0 where
    pub hardened : IsHardened a.response.headers
    pub identified : get "X-Request-ID" a.response.headers ≡ some (str request_id)
    pub log : s'.log ≡ before ++ request_entry d request request_id a ∷ []

  layered :
      (r : Result Answered × Server W) (a : Answered) (s' : Server W)
      → logged d max_bytes true request route (with_headers d max_bytes true request route r)
        ≡ (ok a, s')
      → IsServed r.1.log a s'
  unfolding request_entry
  layered (raised e, s) a s' h = absurd (cc (ap (λ x. x.0) h))
  layered (ok b, s) a s' h =
      let same = ok_inj (ap (λ x. x.0) h) in
      let put_id = put "X-Request-ID" (str request_id) (secure_headers true b.response.headers) in
      record {
        hardened =
            subst (λ x. IsHardened x.response.headers) same
              (secure_headers-IsHardened request_id b.response.headers);
        identified =
            subst (λ x. get "X-Request-ID" x.response.headers ≡ some (str request_id)) same
              (simp get-put);
        log =
            subst (λ x. s'.log ≡ s.log ++ request_entry d request request_id x ∷ []) same
              (ap (λ x. x.1.log) (sym h));
      }

  sized_log :
      (v : Verdict) (s : Server W)
      → check_size max_bytes request.content_length ≡ v
      → (sized d max_bytes true request route s).1.log ≡ s.log
  unfolding sized
  sized_log (answer code text) s h = rw (h, sized)
  sized_log (retry_later k) s h = rw (h, sized)
  sized_log pass_on s h = rw (h, sized)

  limited_log :
      (r : Result Verdict × Limiter) (s : Server W)
      → (limited_by d max_bytes true request route r s).1.log ≡ s.log
  limited_log (raised e, limiter) s = refl
  limited_log (ok pass_on, limiter) s = sized_log _ (record s { limiter = limiter }) refl
  limited_log (ok (retry_later k), limiter) s = refl
  limited_log (ok (answer code text), limiter) s = refl

  -- Every answer, be it a route's or a refusal by a limit, carries the secure headers and a request
  -- id and is written to the request log, once, if the secure headers are enabled.
  pub serve-IsServed :
      (s s' : Server W) (a : Answered)
      → serve d max_bytes true request route s ≡ (ok a, s')
      → IsServed s.log a s'
  unfolding serve secured limited
  serve-IsServed s s' a h =
      let r = limited d max_bytes true request route s in
      subst (λ before. IsServed before a s')
        (limited_log (dispatch d.now request.ip request.path s.limiter) s) (layered r a s' h)

module _ {W : Type 0} (d : Draws) (max_bytes : ℕ) (headers_enabled : Bool) (request : HttpRequest)
    (route : Call W Answered) where
  abbrev finished : Result Answered × Server W → Result Answered × Server W
  finished r =
      logged d max_bytes headers_enabled request route
        (with_headers d max_bytes headers_enabled request route r)

  finished_world : (r : Result Answered × Server W) → (finished r).1.world ≡ r.1.world
  finished_world (raised e, s) = refl
  finished_world (ok a, s) = refl

  late_untouched :
      (k : ℕ) (r : Result Verdict × Limiter) (s : Server W)
      → r.0 ≡ ok (retry_later k)
      → (limited_by d max_bytes headers_enabled request route r s).1.world ≡ s.world
  late_untouched k (ok (retry_later j), limiter) s h = refl
  late_untouched k (raised e, limiter) s h = absurd (cc h)
  late_untouched k (ok pass_on, limiter) s h = absurd (cc h)
  late_untouched k (ok (answer code text), limiter) s h = absurd (cc h)

  large_untouched :
      (code : ℕ) (text : String) (r : Result Verdict × Limiter) (s : Server W)
      → check_size max_bytes request.content_length ≡ answer code text
      → (limited_by d max_bytes headers_enabled request route r s).1.world ≡ s.world
  unfolding sized
  large_untouched code text (ok pass_on, limiter) s h = rw (h, sized)
  large_untouched code text (raised e, limiter) s h = refl
  large_untouched code text (ok (retry_later j), limiter) s h = refl
  large_untouched code text (ok (answer c t), limiter) s h = refl

  -- A request that the payload limit refuses reaches no route, nor does one that the rate limit
  -- refuses: what is behind the middlewares stays as it is.
  pub refused_untouched :
      (s : Server W) (k code : ℕ) (text : String)
      → ((dispatch d.now request.ip request.path s.limiter).0 ≡ ok (retry_later k))
        ⊎ (check_size max_bytes request.content_length ≡ answer code text)
      → (serve d max_bytes headers_enabled request route s).1.world ≡ s.world
  unfolding serve secured limited
  refused_untouched s k code text (inl late) =
      finished_world (limited d max_bytes headers_enabled request route s)
      ∙ late_untouched k (dispatch d.now request.ip request.path s.limiter) s late
  refused_untouched s k code text (inr large) =
      finished_world (limited d max_bytes headers_enabled request route s)
      ∙ large_untouched code text (dispatch d.now request.ip request.path s.limiter) s large
