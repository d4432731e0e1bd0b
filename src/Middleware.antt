-- ===== src/Middleware.antt =====
-- The middlewares around the routes, backend/app/security.py and backend/app/main.py: the request
-- log, the secure headers, the rate limit and the payload limit, from the outside in.
-- What a route raises that FastAPI does not answer passes through all of them.
-- A header has one value, and the routes spell the names of headers as the middlewares do. The
-- security events of the limiter are in its `audit`, apart from the request log.
pub mod Layers
pub mod Tests
use gitvibe_dev.Prelude.{ℕ, String, Bool, Option, none, some, List, [], ◌∷◌, ◌++◌, if◌then◌else◌}
use gitvibe_dev.Prelude.Int.{pos}
use gitvibe_dev.Exc.{Result, ok, raised}
use gitvibe_dev.Json.{Value, int, str, obj, Fields, end, field}
use gitvibe_dev.Json.Dict.{put}
use gitvibe_dev.Json.Convert.{Builtins, str_of}
use gitvibe_dev.Providers.{Call}
use gitvibe_dev.RateLimit.{Verdict, pass_on, answer, retry_later, Limiter, check_size, dispatch}

pub record HttpResponse : Type 0 where
  pub status_code : ℕ
  pub headers : Fields
  pub content : Value

-- `ip` is "unknown" for a request without a client.
pub record HttpRequest : Type 0 where
  pub method : String
  pub path : String
  pub ip : String
  pub content_length : Option String
  pub x_request_id : Option String
  pub user_agent : Option String

-- What a request meets outside: the clock of the limiter, the id that is drawn for a request
-- without one, and how long the request took.
pub record Draws : Type 0 where
  pub py : Builtins
  pub now : ℕ
  pub fresh_id : String
  pub duration_ms : ℕ

-- `request.state.auth_subject` is what a route leaves for the request log.
pub record Answered : Type 0 where
  pub response : HttpResponse
  pub auth_subject : Option String

-- The state of the middlewares and, behind them, of the routes
pub record Server (W : Type 0) : Type 0 where
  pub limiter : Limiter
  pub log : List Fields
  pub world : W

abbrev detail : ℕ → Fields → String → Answered
detail status_code headers text = record {
  response = record {
    status_code = status_code;
    headers = headers;
    content = obj (field "detail" (str text) end);
  };
  auth_subject = none;
}

-- `SecureHeadersMiddleware.dispatch`, on the headers of the response
unfoldable pub secure_headers : Bool → Fields → Fields
secure_headers enabled headers =
    if enabled
    then put "Strict-Transport-Security" (str "max-age=31536000; includeSubDomains") (
        put "Content-Security-Policy"
          (str
            "default-src 'self'; frame-ancestors 'none'; base-uri 'self'; object-src 'none'; form-action 'self'")
          (put "X-XSS-Protection" (str "0") (
            put "Permissions-Policy" (str "camera=(), microphone=(), geolocation=()") (
              put "Referrer-Policy" (str "no-referrer") (
                put "X-Frame-Options" (str "DENY")
                  (put "X-Content-Type-Options" (str "nosniff") headers))))))
    else headers

abbrev pub text_or_default : String → Option String → String
text_or_default default none = default
text_or_default default (some text) = text

-- `AuditLogger.request`, less its time stamp
unfoldable pub request_entry : Draws → HttpRequest → String → Answered → Fields
request_entry d request request_id a = field "event" (str "request") (
    field "request_id" (str request_id) (
      field "method" (str request.method) (
        field "path" (str request.path) (
          field "status_code" (int (pos a.response.status_code)) (
            field "duration_ms" (int (pos d.duration_ms)) (
              field "ip" (str request.ip) (
                field "user_agent" (str (text_or_default "" request.user_agent))
                  (field "actor" (str (text_or_default "anonymous" a.auth_subject)) end))))))))

module _ {W : Type 0} (d : Draws) (max_bytes : ℕ) (headers_enabled : Bool) (request : HttpRequest)
    (route : Call W Answered) where
  -- The routes behind the payload limit
  unfoldable pub sized : Call (Server W) Answered
  unfolding check_size
  sized s = elim (check_size max_bytes request.content_length) [
    | answer status_code text ↦ (ok (detail status_code end text), s)
    | retry_later k ↦ (ok (detail 429 end ""), s)
    | pass_on ↦ let (r, world) = route s.world in (r, record s { world = world })
  ]

  abbrev limited_by : Result Verdict × Limiter → Call (Server W) Answered
  limited_by (raised e, limiter) s = (raised e, record s { limiter = limiter })
  limited_by (ok pass_on, limiter) s = sized (record s { limiter = limiter })
  limited_by (ok (retry_later k), limiter) s = (
    ok (
        detail 429 (field "Retry-After" (str (str_of d.py (int (pos k)))) end)
          "Rate limit exceeded."),
    record s { limiter = limiter },
  )
  limited_by (ok (answer status_code text), limiter) s =
      (ok (detail status_code end text), record s { limiter = limiter })

  -- `RateLimitMiddleware.dispatch` around them
  unfoldable pub limited : Call (Server W) Answered
  unfolding dispatch sized
  limited s = limited_by (dispatch d.now request.ip request.path s.limiter) s

  abbrev with_headers : Result Answered × Server W → Result Answered × Server W
  with_headers (raised e, s) = (raised e, s)
  with_headers (ok a, s) = (
    ok (record a {
      response = record a.response { headers = secure_headers headers_enabled a.response.headers };
    }),
    s,
  )

  -- `SecureHeadersMiddleware.dispatch`
  unfoldable pub secured : Call (Server W) Answered
  unfolding limited secure_headers
  secured s = with_headers (limited s)

  abbrev logged : Result Answered × Server W → Result Answered × Server W
  logged (raised e, s) = (raised e, s)
  logged (ok a, s) =
      let request_id = text_or_default d.fresh_id request.x_request_id in
      (
        ok (record a {
          response = record a.response {
            headers = put "X-Request-ID" (str request_id) a.response.headers;
          };
        }),
        record s { log = s.log ++ request_entry d request request_id a ∷ [] },
      )

  -- `AuditLogMiddleware.dispatch`, the outermost
  unfoldable pub serve : Call (Server W) Answered
  unfolding secured request_entry
  serve s = logged (secured s)
