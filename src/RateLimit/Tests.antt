-- ===== src/RateLimit/Tests.antt =====
-- The rate limit at concrete inputs.
use gitvibe_dev.Prelude.{ℕ, ◌≤◌, ◌≡◌, refl, String, some, List, [], ◌∷◌, ◌++◌, arith}
use gitvibe_dev.Exc.{ok}
use gitvibe_dev.Json.Convert.{parse_int}
use gitvibe_dev.RateLimit.{
  Limiter, pass_on, answer, retry_later, check_size, dispatch, limit_for, bucket_of,
}
use gitvibe_dev.RateLimit.Window.{Tracks, dispatch-passes, dispatch-refuses}

sizes :
    (check_size 2048 (some " 2_048 ") ≡ pass_on)
    × (check_size 2048 (some "2049") ≡ answer 413 "Request payload too large.")
    × (check_size 2048 (some "2k") ≡ answer 400 "Invalid Content-Length header.")
    × (check_size 2048 (some "") ≡ pass_on)
unfolding check_size parse_int
sizes = (refl, refl, refl, refl)

abbrev limiter : List (String × List ℕ) → Limiter
limiter requests = record { rate_limit_per_minute = 1; burst = 1; requests = requests; audit = [] }

tracked : Tracks "1.2.3.4" (1 ∷ 2 ∷ []) 2 (limiter (("1.2.3.4", 1 ∷ 2 ∷ []) ∷ []))
unfolding bucket_of
tracked = record { ordered = omega arith; before = omega arith; same = λ now h. refl }

dispatch-refuses_example :
    let (r, s') = dispatch 9 "1.2.3.4" "/api/repos" (limiter (("1.2.3.4", 1 ∷ 2 ∷ []) ∷ [])) in
    (k : ℕ) × (r ≡ ok (retry_later k)) × (1 ≤ k) × (k ≤ 60) × Tracks "1.2.3.4" (1 ∷ 2 ∷ []) 9 s'
unfolding limit_for
dispatch-refuses_example =
    dispatch-refuses 9 "1.2.3.4" "/api/repos" (limiter (("1.2.3.4", 1 ∷ 2 ∷ []) ∷ [])) (1 ∷ 2 ∷ [])
      2 tracked (omega arith) (omega arith) (omega arith)

-- A minute after the first request there is room for one more.
dispatch-passes_example :
    let (r, s') =
      dispatch 60_000_002 "1.2.3.4" "/api/repos" (limiter (("1.2.3.4", 1 ∷ 2 ∷ []) ∷ [])) in
    (r ≡ ok pass_on) × Tracks "1.2.3.4" ((1 ∷ 2 ∷ []) ++ 60_000_002 ∷ []) 60_000_002 s'
unfolding limit_for
dispatch-passes_example =
    dispatch-passes 60_000_002 "1.2.3.4" "/api/repos" (limiter (("1.2.3.4", 1 ∷ 2 ∷ []) ∷ []))
      (1 ∷ 2 ∷ []) 2 tracked (omega arith) (omega arith)
