-- ===== src/JobQueue/Frame.antt =====
-- What the calls of backend/app/job_queue.py leave to a job that they are not about.
use gitvibe_dev.Prelude.{
  ℕ, String, ◌≡◌, ◌≢◌, refl, sym, ap, subst, ◌∙◌, ◌⊎◌, inl, inr, Bool, true, false, Option, none,
  some, List, [], ◌∷◌, ◌++◌, append-nil, append_assoc, arith, contains, contains-append, select,
  All, Bool-cases, String-cases, ◌==◌, eq_refl, if◌then◌else◌,
}
use gitvibe_dev.Prelude.Int.{ℤ, pos, ltb_ℤ, ◌+ℤ◌, ◌*ℤ◌}
use gitvibe_dev.Exc.{Exc, Result, ok, raised}
use gitvibe_dev.Json.{str, obj, Fields}
use gitvibe_dev.Json.Dict.{get, put, get-put}
use gitvibe_dev.Json.Convert.{Builtins}
use gitvibe_dev.JobQueue.{
  Queue, enqueue, claim, claimed, settle, Outcome, returned, failed, mark_completed,
  mark_failed_or_retry, retry, rescheduled, give_up, noted, completed, on_job_ind, failed_again,
  status_is, new_job,
}
use gitvibe_dev.JobQueue.Dequeue.{
  Standing, broken, standing, is_later, is_passed, timed, Explains, waiting,
}

-- A job that waits and is passed over is put back.
timed-is_later :
    (py : Builtins) (now : ℕ) (job : Fields) (r : Result ℤ)
    → is_passed (timed py now job r) ≡ true
    → is_later (timed py now job r) ≡ true
timed-is_later py now job (raised e) h = ground arith
timed-is_later py now job (ok t) h = ground arith

standing-is_later :
    (py : Builtins) (now : ℕ) (job : Fields)
    → get "status" job ≡ some (str "queued")
    → is_passed (standing py now (some (obj job))) ≡ true
    → is_later (standing py now (some (obj job))) ≡ true
standing-is_later py now job e h =
    let queued : status_is "queued" job ≡ true = rw (e, status_is) in
    rw queued (timed-is_later py now job _ (rw queued at h))

module _ (p : String → Bool) (j : String) where
  contains-select :
      (xs : List String) → contains j xs ≡ true → p j ≡ true → contains j (select p xs) ≡ true
  contains-select [] h e = h
  contains-select (x ∷ xs) h e = elim (String-cases x j) [
    | inl same ↦ rw (same, e) (rw eq_refl)
    | inr ne ↦
        let rest = contains-select xs (rw ne at h) e in
        elim (Bool-cases (p x)) [ inl t ↦ rw t (rw (ne, rest)) | inr f ↦ rw f rest ]
  ]

  All-contains : (xs : List String) → All (λ x. p x ≡ true) xs → contains j xs ≡ true → p j ≡ true
  All-contains [] a h = cc
  All-contains (x ∷ xs) a h = elim (String-cases x j) [
    | inl same ↦ rw same at a.0
    | inr ne ↦ All-contains xs a.1 (rw ne at h)
  ]

module _ (py : Builtins) (now : ℕ) (s : Queue) where
  abbrev st : String → Standing
  st job_id = standing py now (get job_id s.jobs)

  pub waits :
      (j : String) (job : Fields) (xs : List String)
      → get j s.jobs ≡ some (obj job)
      → get "status" job ≡ some (str "queued")
      → All (λ i. is_passed (st i) ≡ true) xs
      → contains j xs ≡ true
      → contains j (select (λ i. is_later (st i)) xs) ≡ true
  waits j job xs e q passed h =
      let known : standing py now (get j s.jobs) ≡ standing py now (some (obj job)) =
        ap (standing py now) e in
      let passes : is_passed (st j) ≡ true = All-contains (λ i. is_passed (st i)) j xs passed h in
      contains-select (λ i. is_later (st i)) j xs h
        (rw known (standing-is_later py now job q (rw known at passes)))

  pub contains-split :
      (j k : String) (pre post : List String)
      → (k == j) ≡ false
      → contains j (pre ++ k ∷ post) ≡ true
      → (contains j pre ≡ true) ⊎ (contains j post ≡ true)
  contains-split j k pre post ne h = ground (arith, contains-append j pre (k ∷ post))

  -- A job that waits is on the queue after a call that gives another job, or none, or raises what
  -- the time of another job raises.
  pub contains-explained :
      (j : String) (job : Fields) (r : Result (Option String)) (q : Queue)
      → get j s.jobs ≡ some (obj job)
      → get "status" job ≡ some (str "queued")
      → ((e : Exc) → st j ≢ broken e)
      → contains j s.queue ≡ true
      → r ≢ ok (some j)
      → Explains py now s s.queue [] r q
      → contains j q.queue ≡ true
  unfolding claim
  contains-explained j job (ok none) q found queued sane on other (passed, e) =
      rw e (waits j job s.queue found queued passed on)
  contains-explained j job (ok (some k)) q found queued sane on other
        (pre, post, taken, split, passed, d, e) =
      elim (String-cases k j) [
        | inl same ↦ absurd (other (ap (λ i. ok (some i)) same))
        | inr ne ↦ rw e (behind_or_before k ne pre post split passed)
      ]
    where
      behind_or_before :
          (k : String)
          → (k == j) ≡ false
          → (pre post : List String) → s.queue ≡ pre ++ k ∷ post
          → All (λ i. is_passed (st i) ≡ true) pre
          → contains j (post ++ ([] ++ waiting py now s pre)) ≡ true
      behind_or_before k ne pre post split passed =
          rw contains-append (elim (contains-split j k pre post ne (rw split at on)) [
            | inl before ↦
                let listed = waits j job pre found queued passed before in ground (arith, listed)
            | inr behind ↦ rw behind
          ])
  contains-explained j job (raised x) q found queued sane on other
        (pre, k, post, split, passed, b, e) =
      elim (String-cases k j) [
        | inl same ↦ absurd (sane x (subst (λ i. st i ≡ broken x) same b))
        | inr ne ↦
            rw (e, contains-append)
              (elim (contains-split j k pre post ne (rw split at on)) [
                | inl before ↦
                    let listed = waits j job pre found queued passed before in
                    ground (arith, listed)
                | inr behind ↦ rw behind
              ])
      ]

  -- Such a call leaves the job as it is.
  pub get-explained :
      (j : String) (r : Result (Option String)) (q : Queue)
      → r ≢ ok (some j)
      → Explains py now s s.queue [] r q
      → get j q.jobs ≡ get j s.jobs
  unfolding claim
  get-explained j (ok none) q other (passed, e) = ap (λ (t : Queue). get j t.jobs) e
  get-explained j (raised x) q other (pre, k, post, split, passed, b, e) =
      ap (λ (t : Queue). get j t.jobs) e
  get-explained j (ok (some k)) q other (pre, post, taken, split, passed, d, e) =
      ap (λ (t : Queue). get j t.jobs) e
      ∙ get-put k j (obj (claimed py now taken)) s.jobs
      ∙ elim (String-cases k j) [
        | inl same ↦ absurd (other (ap (λ i. ok (some i)) same))
        | inr ne ↦ rw ne
      ]

-- The job `j` is as it was, and ids are only put behind the queue.
pub record Leaves (j : String) (s s' : Queue) : Type 0 where
  pub job : get j s'.jobs ≡ get j s.jobs
  pub tail : List String
  pub queue : s'.queue ≡ s.queue ++ tail

pub Leaves-refl : (j : String) (s : Queue) → Leaves j s s
Leaves-refl j s = record { job = refl; tail = []; queue = sym (append-nil s.queue) }

pub Leaves-trans : (j : String) (s t u : Queue) → Leaves j s t → Leaves j t u → Leaves j s u
Leaves-trans j s t u h k = record {
  job = k.job ∙ h.job;
  tail = h.tail ++ k.tail;
  queue = k.queue ∙ ap (λ q. q ++ k.tail) h.queue ∙ append_assoc s.queue h.tail k.tail;
}

pub contains-Leaves :
    (j : String) (s s' : Queue)
    → Leaves j s s'
    → contains j s.queue ≡ true
    → contains j s'.queue ≡ true
contains-Leaves j s s' h on = rw (h.queue, contains-append, on)

module _ (j k : String) (ne : (k == j) ≡ false) where
  get_other : (job d : Fields) → get j (put k (obj job) d) ≡ get j d
  get_other job d = get-put k j (obj job) d ∙ rw ne

  pub enqueue-Leaves :
      (job_type : String) (payload : Fields) (max_retries : ℤ) (now : ℕ) (s : Queue)
      → Leaves j s (enqueue job_type payload max_retries now k s).1
  unfolding enqueue
  enqueue-Leaves job_type payload max_retries now s = record {
    job = get_other (new_job job_type payload max_retries now k) s.jobs;
    tail = k ∷ [];
    queue = refl;
  }

  module _ (now : ℕ) where
    mark_completed-Leaves :
        (result : Fields) (s : Queue) → Leaves j s (mark_completed now k result s)
    unfolding mark_completed
    mark_completed-Leaves result s =
        on_job_ind (Leaves j s) (get k s.jobs) _ s
          (λ job _. record {
            job = get_other (completed now result job) s.jobs;
            tail = [];
            queue = sym (append-nil s.queue);
          })
          (Leaves-refl j s)

    branch-Leaves :
        (retry_base : ℕ) (error : String) (b : Bool) (a : ℤ) (job : Fields) (s : Queue)
        → Leaves j s (
            if b
            then give_up retry_base now k error a job s
            else retry retry_base now k error a job s)
    unfolding give_up retry
    branch-Leaves retry_base error true a job s = record {
      job = get_other (put "status" (str "failed") job) s.jobs;
      tail = [];
      queue = sym (append-nil s.queue);
    }
    branch-Leaves retry_base error false a job s = record {
      job = get_other (rescheduled retry_base now k error (pos retry_base *ℤ a) job) s.jobs;
      tail = k ∷ [];
      queue = refl;
    }

    failed_again-Leaves :
        (retry_base : ℕ) (error : String) (failures limit : Result ℤ) (job : Fields) (s : Queue)
        → Leaves j s (failed_again retry_base now k error failures limit job s).1
    unfolding failed_again
    failed_again-Leaves retry_base error (raised e) limit job s = Leaves-refl j s
    failed_again-Leaves retry_base error (ok n) (raised e) job s = record {
      job = get_other (noted retry_base now k error (n +ℤ pos 1) job) s.jobs;
      tail = [];
      queue = sym (append-nil s.queue);
    }
    failed_again-Leaves retry_base error (ok n) (ok m) job s =
        branch-Leaves retry_base error (ltb_ℤ m (n +ℤ pos 1)) (n +ℤ pos 1)
          (noted retry_base now k error (n +ℤ pos 1) job) s

    pub settle-Leaves :
        (py : Builtins) (retry_base : ℕ) (outcome : Outcome) (s : Queue)
        → Leaves j s (settle py retry_base now k outcome s).1
    unfolding settle mark_failed_or_retry
    settle-Leaves py retry_base (returned result) s = mark_completed-Leaves result s
    settle-Leaves py retry_base (failed error) s =
        on_job_ind (λ (r : Result Unit × Queue). Leaves j s r.1) (get k s.jobs) _ (ok tt, s)
          (λ job found. failed_again-Leaves retry_base error _ _ job s) (Leaves-refl j s)
