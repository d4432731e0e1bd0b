-- ===== src/Middleware/Tests.antt =====
-- The middlewares around a route, at concrete inputs.
use gitvibe_dev.Prelude.{false, String, ◌≡◌, refl, true, none, some, [], inr}
use gitvibe_dev.Exc.{ok, raised}
use gitvibe_dev.Json.{null, end}
use gitvibe_dev.Json.Convert.{parse_int}
use gitvibe_dev.Providers.{Call}
use gitvibe_dev.RateLimit.{check_size, dispatch}
use gitvibe_dev.Middleware.{HttpRequest, Draws, Answered, Server, serve}
use gitvibe_dev.Middleware.Layers.{IsServed, serve-IsServed, refused_untouched}

abbrev d : Draws
d = record {
  py = record { repr = λ v. "?"; parse_float = λ s. none };
  now = 5_000_000;
  fresh_id = "r1";
  duration_ms = 3;
}

abbrev request : HttpRequest
request = record {
  method = "POST";
  path = "/api/repos";
  ip = "10.0.0.1";
  content_length = some "99";
  x_request_id = none;
  user_agent = none;
}

abbrev route : Call String Answered
route w = (
  ok (record {
    response = record { status_code = 200; headers = end; content = null };
    auth_subject = some "ada";
  }),
  "called",
)

abbrev server : Server String
server = record {
  limiter = record { rate_limit_per_minute = 20; burst = 0; requests = []; audit = [] };
  log = [];
  world = "";
}

answered : Answered
unfolding serve check_size parse_int dispatch
answered = elim (serve d 1_024 true request route server).0 [
  | ok a ↦ a
  | raised e ↦ record {
    response = record { status_code = 500; headers = end; content = null };
    auth_subject = none;
  }
]

serve-IsServed_example :
    IsServed d 1_024 request route [] answered (serve d 1_024 true request route server).1
unfolding answered serve parse_int check_size dispatch
serve-IsServed_example =
    serve-IsServed d 1_024 request route server (serve d 1_024 true request route server).1 answered
      refl

refused_untouched_example : (serve d 10 false request route server).1.world ≡ ""
unfolding check_size parse_int
refused_untouched_example =
    refused_untouched d 10 false request route server 1 413 "Request payload too large." (inr refl)
