-- ===== src/JobQueue/Places.antt =====
-- Where an id stands on the queue of backend/app/job_queue.py.
use gitvibe_dev.Prelude.{ℕ, suc, ◌<◌, String, ◌≡◌, sym, ap, List, [], ◌∷◌, ◌++◌, arith, length, All}

cons_inj : {x y : String} {xs ys : List String} → x ∷ xs ≡ y ∷ ys → (x ≡ y) × (xs ≡ ys)
cons_inj h = (cc, cc)

-- Where `j` stands in a list that has `i` behind `before`: ahead of it, at its place or behind it.
pub data Place (before after : List String) (i : String) (pre post : List String) (j : String)
    : Type 0 where
  ahead :
      (mid : List String)
      → before ≡ pre ++ j ∷ mid
      → post ≡ mid ++ i ∷ after
      → Place before after i pre post j
  same : j ≡ i → Place before after i pre post j
  behind : (mid : List String) → pre ≡ before ++ i ∷ mid → Place before after i pre post j

push :
    {before after pre post : List String} {i j : String} (x y : String)
    → x ≡ y
    → Place before after i pre post j
    → Place (x ∷ before) after i (y ∷ pre) post j
push x y e (ahead mid h k) = ahead mid (cc (e, h)) k
push x y e (same h) = same h
push x y e (behind mid h) = behind mid cc

pub place :
    (before after pre post : List String) (i j : String)
    → before ++ i ∷ after ≡ pre ++ j ∷ post
    → Place before after i pre post j
place [] after [] post i j h = same (sym (cons_inj h).0)
place [] after (y ∷ pre) post i j h = behind pre (ap (λ x. x ∷ pre) (sym (cons_inj h).0))
place (x ∷ before) after [] post i j h =
    ahead before (ap (λ t. t ∷ before) (cons_inj h).0) (sym (cons_inj h).1)
place (x ∷ before) after (y ∷ pre) post i j h =
    push x y (cons_inj h).0 (place before after pre post i j (cons_inj h).1)

pub All-middle :
    (P : String → Type 0) (xs : List String) (i : String) (ys : List String)
    → All P (xs ++ i ∷ ys)
    → P i
All-middle P [] i ys h = h.0
All-middle P (x ∷ xs) i ys h = All-middle P xs i ys h.1

length-before : (pre mid : List String) (j : String) → length mid < length (pre ++ j ∷ mid)
length-before [] mid j = omega arith
length-before (x ∷ pre) mid j = omega (arith, length-before pre mid j)

pub shorter :
    (before pre mid : List String) (j : String) (m : ℕ)
    → before ≡ pre ++ j ∷ mid
    → length before < suc m
    → length mid < m
shorter before pre mid j m h lt = omega (arith, length-before pre mid j, ap length h, lt)
