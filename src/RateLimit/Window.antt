-- ===== src/RateLimit/Window.antt =====
-- The rate limit of backend/app/security.py against its meaning: how many requests of a client
-- were let through in the last minute.
use gitvibe_dev.Prelude.{
  ℕ, ◌-◌, ◌≤◌, ◌<◌, ◌≡◌, refl, ap, ◌∙◌, inl, inr, String, true, false, List, [], ◌∷◌, ◌++◌, length,
  max, ◌/◌, select, select-append, All, All-append, arith, le→leb, lt→leb, ltb, leb, Bool-cases,
  ◌==◌, eq_iff, eq_refl, if◌then◌else◌,
}
use gitvibe_dev.Audit.{AuditEvent}
use gitvibe_dev.Exc.{ok}
use gitvibe_dev.RateLimit.{
  Limiter, pass_on, retry_later, dispatch, prune, window, bucket_of, set_bucket, retry_after,
  limit_for,
}

-- Times in the order of the clock.
abbrev pub IsOrdered : List ℕ → Type 0
IsOrdered [] = Unit
IsOrdered (t ∷ ts) = All (λ u. t ≤ u) ts × IsOrdered ts

-- Those of the times that lie in the minute before `now`.
abbrev pub in_window : ℕ → List ℕ → List ℕ
in_window now = select (λ t. leb (now - t) window)

keeps_every :
    (now t : ℕ) (ts : List ℕ) → now - t ≤ window → All (λ u. t ≤ u) ts → in_window now ts ≡ ts
keeps_every now t [] h a = refl
keeps_every now t (u ∷ ts) h a =
    let fits : leb (now - u) window ≡ true = ground (arith, a.0) in
    rw (fits, keeps_every now t ts h a.1)

prune-eq-in_window : (now : ℕ) (ts : List ℕ) → IsOrdered ts → prune now ts ≡ in_window now ts
unfolding prune
prune-eq-in_window now [] o = refl
prune-eq-in_window now (t ∷ ts) o = elim (Bool-cases (ltb window (now - t))) [
  | inl old ↦
      let out : leb (now - t) window ≡ false = ground arith in
      rw (old, out) (prune-eq-in_window now ts o.1)
  | inr new ↦
      let fits : leb (now - t) window ≡ true = ground arith in
      rw (new, fits, keeps_every now t ts (ground arith) o.0)
]

All-in_window : (P : ℕ → Type 0) (now : ℕ) (ts : List ℕ) → All P ts → All P (in_window now ts)
All-in_window P now [] a = tt
All-in_window P now (t ∷ ts) a = elim (Bool-cases (leb (now - t) window)) [
  | inl e ↦ rw e (a.0, All-in_window P now ts a.1)
  | inr e ↦ rw e (All-in_window P now ts a.1)
]

in_window-IsOrdered : (now : ℕ) (ts : List ℕ) → IsOrdered ts → IsOrdered (in_window now ts)
in_window-IsOrdered now [] o = tt
in_window-IsOrdered now (t ∷ ts) o = elim (Bool-cases (leb (now - t) window)) [
  | inl e ↦ rw e (All-in_window (λ u. t ≤ u) now ts o.0, in_window-IsOrdered now ts o.1)
  | inr e ↦ rw e (in_window-IsOrdered now ts o.1)
]

IsOrdered-append_last :
    (now : ℕ) (ts : List ℕ) → IsOrdered ts → All (λ t. t ≤ now) ts → IsOrdered (ts ++ now ∷ [])
IsOrdered-append_last now [] o a = (tt, tt)
IsOrdered-append_last now (t ∷ ts) o a =
    (All-append (λ u. t ≤ u) ts (now ∷ []) o.0 (a.0, tt), IsOrdered-append_last now ts o.1 a.1)

-- What has left the window stays out.
in_window-in_window :
    (now later : ℕ) (ts : List ℕ)
    → now ≤ later
    → in_window later (in_window now ts) ≡ in_window later ts
in_window-in_window now later [] h = refl
in_window-in_window now later (t ∷ ts) h = elim (Bool-cases (leb (now - t) window)) [
  | inl e ↦ rw (e, in_window-in_window now later ts h)
  | inr e ↦
      let out : leb (later - t) window ≡ false = ground arith in
      rw (e, out) (in_window-in_window now later ts h)
]

All-mono : (a b : ℕ) (ts : List ℕ) → a ≤ b → All (λ t. t ≤ a) ts → All (λ t. t ≤ b) ts
All-mono a b [] h x = tt
All-mono a b (t ∷ ts) h x = (omega (arith, x.0), All-mono a b ts h x.1)

bucket_of-set_bucket :
    (k j : String) (b : List ℕ) (m : List (String × List ℕ))
    → bucket_of j (set_bucket k b m) ≡ (if k == j then b else bucket_of j m)
unfolding bucket_of set_bucket
bucket_of-set_bucket k j b [] = refl
bucket_of-set_bucket k j b ((i, c) ∷ m) =
    ground (arith, eq_iff k j, eq_iff i k, eq_iff i j, bucket_of-set_bucket k j b m)

-- `history` holds the times, up to `last`, of all requests of the client that were let through:
-- the bucket tells as much of them as any later minute can ask for.
pub record Tracks (ip : String) (history : List ℕ) (last : ℕ) (s : Limiter) : Type 0 where
  pub ordered : IsOrdered (bucket_of ip s.requests)
  pub before : All (λ t. t ≤ last) (bucket_of ip s.requests)
  pub same :
      (now : ℕ) → last ≤ now → in_window now (bucket_of ip s.requests) ≡ in_window now history

module _ (now : ℕ) (ip path : String) (s : Limiter) where
  -- The limit for this path.
  abbrev pub limit : ℕ
  limit = limit_for s.rate_limit_per_minute s.burst path

  abbrev bucket : List ℕ
  bucket = in_window now (bucket_of ip s.requests)

  refused_verdict :
      (b : List ℕ)
      → 1 ≤ length b
      → (k : ℕ) × (retry_after now b ≡ ok (retry_later k)) × (1 ≤ k) × (k ≤ 60)
  unfolding retry_after
  refused_verdict [] h = elim h [ ]
  refused_verdict (t ∷ ts) h =
      (max 1 ((window - (now - t)) / 1_000_000), refl, omega arith, omega arith)

  kept-Tracks :
      (history : List ℕ) (last : ℕ) (audit : List AuditEvent)
      → Tracks ip history last s
      → last ≤ now
      → Tracks ip history now
          (record s { requests = set_bucket ip bucket s.requests; audit = audit })
  kept-Tracks history last audit t le =
      let at : bucket_of ip (set_bucket ip bucket s.requests) ≡ bucket =
        rw (bucket_of-set_bucket, eq_refl) in
      record {
        ordered = rw at (in_window-IsOrdered now _ t.ordered);
        before = rw at (All-mono last now bucket le (All-in_window _ now _ t.before));
        same = λ later h. rw at (in_window-in_window now later _ h ∙ t.same later (omega arith));
      }

  added-Tracks :
      (history : List ℕ) (last : ℕ)
      → Tracks ip history last s
      → last ≤ now
      → Tracks ip
          (history ++ now ∷ [])
          now
          (record s { requests = set_bucket ip (bucket ++ now ∷ []) s.requests })
  added-Tracks history last t le =
      let at : bucket_of ip (set_bucket ip (bucket ++ now ∷ []) s.requests) ≡ bucket ++ now ∷ [] =
        rw (bucket_of-set_bucket, eq_refl) in
      let past : All (λ u. u ≤ now) bucket =
        All-mono last now bucket le (All-in_window _ now _ t.before) in
      record {
        ordered =
            rw at (IsOrdered-append_last now bucket (in_window-IsOrdered now _ t.ordered) past);
        before = rw at (All-append _ bucket (now ∷ []) past (omega arith, tt));
        same = λ later h.
            rw (at, select-append, select-append)
              (ap (λ b. b ++ in_window later (now ∷ []))
                (in_window-in_window now later _ h ∙ t.same later (omega arith)));
      }

  -- A request of a client is let through and noted if fewer than `limit` requests of the client
  -- were let through in the minute before it, and the clock does not go back.
  pub dispatch-passes :
      (history : List ℕ) (last : ℕ)
      → Tracks ip history last s
      → last ≤ now
      → length (in_window now history) < limit
      → let (r, s') = dispatch now ip path s in
        (r ≡ ok pass_on) × Tracks ip (history ++ now ∷ []) now s'
  unfolding dispatch
  dispatch-passes history last t le few =
      let pruned : prune now (bucket_of ip s.requests) ≡ bucket =
        prune-eq-in_window now (bucket_of ip s.requests) t.ordered in
      let room : leb limit (length bucket) ≡ false = rw (t.same now le) (lt→leb _ _ few) in
      rw (pruned, room) (refl, added-Tracks history last t le)

  -- If `limit` requests of the client, and at least one, were let through in the minute before, a
  -- further one is refused and not noted, and the client is told to wait for 1 to 60 seconds.
  pub dispatch-refuses :
      (history : List ℕ) (last : ℕ)
      → Tracks ip history last s
      → last ≤ now
      → 1 ≤ limit
      → limit ≤ length (in_window now history)
      → let (r, s') = dispatch now ip path s in
        (k : ℕ) × (r ≡ ok (retry_later k)) × (1 ≤ k) × (k ≤ 60) × Tracks ip history now s'
  unfolding dispatch
  dispatch-refuses history last t le pos full =
      let pruned : prune now (bucket_of ip s.requests) ≡ bucket =
        prune-eq-in_window now (bucket_of ip s.requests) t.ordered in
      let over : leb limit (length bucket) ≡ true = rw (t.same now le) (le→leb _ _ full) in
      let (k, e, low, high) = refused_verdict bucket (rw (t.same now le) (omega arith)) in
      rw (pruned, over) (k, e, low, high, kept-Tracks history last _ t le)
