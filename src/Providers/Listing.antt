-- ===== src/Providers/Listing.antt =====
-- What the demo provider lists, and what the router finds, backend/app/platform/git_providers.py.
use gitvibe_dev.Prelude.{
  ℕ, ◌≤◌, String, ◌≡◌, refl, true, false, List, [], ◌∷◌, All, All-select, length, length-take, take,
  arith, ◌==◌, if◌then◌else◌, zero, suc,
}
use gitvibe_dev.Prelude.Table.{Table, at-set_at}
use gitvibe_dev.Exc.{ok}
use gitvibe_dev.Json.{Fields}
use gitvibe_dev.Json.Dict.{get}
use gitvibe_dev.Json.Convert.{is_text}
use gitvibe_dev.Demo
use gitvibe_dev.Providers.{GitProvider, Stores, demo_provider, filtered, register, get_provider}

All-take {ℓ κ} : {A : Type ℓ} (P : A → Type κ) (n : ℕ) (xs : List A) → All P xs → All P (take n xs)
All-take P zero xs h = tt
All-take P (suc n) [] h = tt
All-take P (suc n) (x ∷ xs) h = (h.0, All-take P n xs h.1)

filtered-All :
    (state_filter : String) (limit : ℕ) (items : List Fields)
    → (state_filter == "all") ≡ false
    → All
        (λ item. is_text state_filter (get "status" item) ≡ true)
        (filtered state_filter limit items)
unfolding filtered
filtered-All state_filter limit items h = rw h (
    All-take (λ item. is_text state_filter (get "status" item) ≡ true) limit _
      (All-select (λ item. is_text state_filter (get "status" item)) items))

filtered-length :
    (state_filter : String) (limit : ℕ) (items : List Fields)
    → length (filtered state_filter limit items) ≤ limit
unfolding filtered
filtered-length state_filter limit items = rw length-take (omega arith)

-- In demo mode the listings of pulls and of issues by a state other than "all" return at most
-- `limit` entries, each in that state, and change nothing.
pub demo_listing :
    {G : Type 0} (owner repo oauth_owner state_filter : String) (limit : ℕ) (w : Stores G)
    → (state_filter == "all") ≡ false
    → let pulls = demo_provider.list_pull_requests owner repo oauth_owner limit state_filter w in
      let issues = demo_provider.list_issues owner repo oauth_owner limit state_filter w in
      (xs : List Fields) × (ys : List Fields) × (pulls ≡ (ok xs, w))
      × (issues ≡ (ok ys, w))
      × (length xs ≤ limit)
      × (length ys ≤ limit)
      × All (λ item. is_text state_filter (get "status" item) ≡ true) xs
      × All (λ item. is_text state_filter (get "status" item) ≡ true) ys
demo_listing owner repo oauth_owner state_filter limit w h =
    let xs = Demo.list_pull_requests repo w.demo in
    let ys = Demo.list_issues repo w.demo in
    (
      filtered state_filter limit xs,
      filtered state_filter limit ys,
      refl,
      refl,
      filtered-length state_filter limit xs,
      filtered-length state_filter limit ys,
      filtered-All state_filter limit xs h,
      filtered-All state_filter limit ys h,
    )

-- The router finds the provider that was registered last under a name, and under another name
-- what it found before.
pub get_provider-register :
    {W : Type 0} (provider : GitProvider W) (name : String) (providers : Table (GitProvider W))
    → get_provider name (register provider providers)
      ≡ (if provider.name == name then ok provider else get_provider name providers)
unfolding get_provider register
get_provider-register provider name providers =
    ground (arith, at-set_at provider.name name provider providers)
