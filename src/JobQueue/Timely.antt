-- ===== src/JobQueue/Timely.antt =====
-- The times of the jobs of backend/app/job_queue.py: `run_after` of a job can be read at any moment,
-- in memory and in the vault, so that no call of `_dequeue_next_job_id` raises.
use gitvibe_dev.Prelude.{
  ℕ, String, ◌≡◌, refl, sym, ap, subst, ◌∙◌, inl, inr, Bool, true, false, Bool-cases, Option, none,
  some, List, [], arith, ◌==◌, if◌then◌else◌,
}
use gitvibe_dev.Prelude.Int.{ℤ, pos, ltb_ℤ, ◌+ℤ◌, ◌*ℤ◌}
use gitvibe_dev.Exc.{Exc, Result, ok, raised}
use gitvibe_dev.Json.{Value, null, bool, int, float, str, arr, obj, Fields, end, field}
use gitvibe_dev.Json.Dict.{get, get_or, put, del, get_or-put}
use gitvibe_dev.Json.Convert.{Builtins, float_of}
use gitvibe_dev.JobQueue.{
  Queue, persist, enqueue, dequeue, claim, claimed, settle, Outcome, returned, failed,
  mark_completed, mark_failed_or_retry, failed_again, retry, rescheduled, give_up, noted, completed,
  new_job, on_job_ind, state_key, status_is,
}
use gitvibe_dev.JobQueue.Loading.{stored_jobs}
use gitvibe_dev.JobQueue.Dequeue.{due, broken, standing, timed, Explains, dequeue-Explains}

module _ (py : Builtins) where
  abbrev pub ReadsTime : Fields → Type 0
  ReadsTime job = (t : ℤ) × (float_of py (get_or "run_after" (float (pos 0)) job) ≡ ok t)

  abbrev pub ReadsValue : Value → Type 0
  ReadsValue (obj job) = ReadsTime job
  ReadsValue _ = Unit

  -- The time of every job of a dict can be read.
  abbrev pub IsReadable : Fields → Type 0
  IsReadable end = Unit
  IsReadable (field k v d) = ReadsValue v × IsReadable d

  -- In memory and in the vault
  pub record IsTimely (s : Queue) : Type 0 where
    pub jobs : IsReadable s.jobs
    pub stored : IsReadable (stored_jobs (get_or state_key (obj end) s.vault))

  pub put-IsReadable :
      (k : String) (job d : Fields) → ReadsTime job → IsReadable d → IsReadable (put k (obj job) d)
  put-IsReadable k job end t h = (t, tt)
  put-IsReadable k job (field j w d) t h = elim (Bool-cases (j == k)) [
    | inl e ↦ rw e (t, h.1)
    | inr e ↦ rw e (h.0, put-IsReadable k job d t h.1)
  ]

  pub del-IsReadable : (k : String) (d : Fields) → IsReadable d → IsReadable (del k d)
  del-IsReadable k end h = tt
  del-IsReadable k (field j w d) h = elim (Bool-cases (j == k)) [
    | inl e ↦ rw e (del-IsReadable k d h.1)
    | inr e ↦ rw e (h.0, del-IsReadable k d h.1)
  ]

  value_inj : {v w : Value} → some v ≡ some w → v ≡ w
  value_inj h = cc

  pub get-ReadsTime :
      (k : String) (d job : Fields) → IsReadable d → get k d ≡ some (obj job) → ReadsTime job
  get-ReadsTime k end job h e = absurd cc
  get-ReadsTime k (field j w d) job h e = elim (Bool-cases (j == k)) [
    | inl same ↦ subst ReadsValue (value_inj (rw same at e)) h.0
    | inr other ↦ get-ReadsTime k d job h.1 (rw other at e)
  ]

  -- A job that is written with the time that it had
  pub same_time :
      (old new : Fields)
      → get_or "run_after" (float (pos 0)) new ≡ get_or "run_after" (float (pos 0)) old
      → ReadsTime old
      → ReadsTime new
  same_time old new e (t, h) = (t, ap (float_of py) e ∙ h)

  reschedule-ReadsTime :
      (retry_base now : ℕ) (job_id error : String) (delay : ℤ) (job : Fields)
      → ReadsTime (rescheduled retry_base now job_id error delay job)
  unfolding rescheduled float_of
  reschedule-ReadsTime retry_base now job_id error delay job =
      let time = pos now +ℤ delay *ℤ pos 1_000_000 in
      (
        time,
        ap (float_of py) (
            get_or-put "run_after" "run_after" (float time) (float (pos 0))
              (put "status" (str "queued") job)),
      )

  module _ (now : ℕ) where
    timed-unbroken :
        (job : Fields) (r : Result ℤ) (t : ℤ) (x : Exc)
        → r ≡ ok t
        → timed py now job r ≡ broken x
        → ⊥
    timed-unbroken job (raised e) t x h b = cc
    timed-unbroken job (ok u) t x h b = ground arith

    pub standing-unbroken :
        (o : Option Value) (x : Exc)
        → ((job : Fields) → o ≡ some (obj job) → ReadsTime job)
        → standing py now o ≡ broken x
        → ⊥
    standing-unbroken (some (obj job)) x reads b = elim (Bool-cases (status_is "queued" job)) [
      | inl e ↦ timed-unbroken job _ (reads job refl).0 x (reads job refl).1 (rw e at b)
      | inr e ↦ cc (rw e at b)
    ]
    standing-unbroken none x reads b = cc
    standing-unbroken (some null) x reads b = cc
    standing-unbroken (some (bool c)) x reads b = cc
    standing-unbroken (some (int n)) x reads b = cc
    standing-unbroken (some (float n)) x reads b = cc
    standing-unbroken (some (str t)) x reads b = cc
    standing-unbroken (some (arr vs)) x reads b = cc

    timed-due :
        (job taken : Fields) (r : Result ℤ)
        → timed py now job r ≡ due taken
        → (job ≡ taken) × ((t : ℤ) × (r ≡ ok t))
    timed-due job taken (raised e) h = absurd cc
    timed-due job taken (ok t) h = elim (Bool-cases (ltb_ℤ (pos now) t)) [
      | inl e ↦ absurd (cc (rw e at h))
      | inr e ↦ (cc (rw e at h), (t, refl))
    ]

    -- A job that is due is the job of its id, waits, and has a time.
    pub standing-due :
        (o : Option Value) (taken : Fields)
        → standing py now o ≡ due taken
        → (o ≡ some (obj taken)) × ReadsTime taken
    standing-due (some (obj job)) taken h = elim (Bool-cases (status_is "queued" job)) [
      | inl e ↦
          let (same, (t, reads)) = timed-due job taken _ (rw e at h) in
          (ap (λ d. some (obj d)) same, subst ReadsTime same (t, reads))
      | inr e ↦ absurd (cc (rw e at h))
    ]
    standing-due none taken h = absurd cc
    standing-due (some null) taken h = absurd cc
    standing-due (some (bool c)) taken h = absurd cc
    standing-due (some (int n)) taken h = absurd cc
    standing-due (some (float n)) taken h = absurd cc
    standing-due (some (str t)) taken h = absurd cc
    standing-due (some (arr vs)) taken h = absurd cc

    pub persist-IsTimely : (s : Queue) → IsReadable s.jobs → IsTimely (persist now s)
    unfolding persist
    persist-IsTimely s h = record { jobs = h; stored = rw get_or-put h }

    pub enqueue-IsTimely :
        (job_type : String) (payload : Fields) (max_retries : ℤ) (job_id : String) (s : Queue)
        → IsTimely s
        → IsTimely (enqueue job_type payload max_retries now job_id s).1
    unfolding enqueue new_job persist float_of
    enqueue-IsTimely job_type payload max_retries job_id s h =
        let job = new_job job_type payload max_retries now job_id in
        let new = put-IsReadable job_id job s.jobs (_, refl) h.jobs in
        record { jobs = new; stored = rw get_or-put new }

    claim-IsTimely :
        (job_id : String) (job : Fields) (s : Queue)
        → ReadsTime job
        → IsTimely s
        → IsTimely (claim py now job_id job s)
    unfolding claim claimed
    claim-IsTimely job_id job s t h =
        persist-IsTimely (record s { jobs = put job_id (obj (claimed py now job)) s.jobs })
          (put-IsReadable job_id (claimed py now job) s.jobs
            (same_time job (claimed py now job) (simp get_or-put) t) h.jobs)

    queue-IsTimely :
        (queue : List String) (s : Queue) → IsTimely s → IsTimely (record s { queue = queue })
    queue-IsTimely queue s h = record { jobs = h.jobs; stored = h.stored }

    explained-IsTimely :
        (s : Queue) (r : Result (Option String)) (q : Queue)
        → IsTimely s
        → Explains py now s s.queue [] r q
        → IsTimely q
    explained-IsTimely s (ok none) q h (passed, e) = subst IsTimely (sym e) (queue-IsTimely _ s h)
    explained-IsTimely s (raised x) q h (pre, j, post, split, passed, b, e) =
        subst IsTimely (sym e) (queue-IsTimely _ s h)
    explained-IsTimely s (ok (some j)) q h (pre, post, job, split, passed, d, e) =
        subst IsTimely (sym e)
          (claim-IsTimely j job _ (standing-due (get j s.jobs) job d).1 (queue-IsTimely _ s h))

    pub dequeue-IsTimely : (s : Queue) → IsTimely s → IsTimely (dequeue py now s).1
    dequeue-IsTimely s h = explained-IsTimely s _ _ h (dequeue-Explains py now s)

    -- A timely queue is never broken off.
    pub dequeue-unbroken : (s : Queue) (x : Exc) → IsTimely s → (dequeue py now s).0 ≡ raised x → ⊥
    dequeue-unbroken s x h e =
        let (pre, j, post, split, passed, b, same) = rw e at (dequeue-Explains py now s) in
        standing-unbroken (get j s.jobs) x (λ job at. get-ReadsTime j s.jobs job h.jobs at) b

    mark_completed-IsTimely :
        (job_id : String) (result : Fields) (s : Queue)
        → IsTimely s
        → IsTimely (mark_completed now job_id result s)
    unfolding mark_completed persist
    mark_completed-IsTimely job_id result s h =
        on_job_ind IsTimely (get job_id s.jobs) _ s
          (λ job found.
            let new =
              put-IsReadable job_id (completed now result job) s.jobs
                (same_time job (completed now result job) (unfold completed in simp get_or-put)
                  (get-ReadsTime job_id s.jobs job h.jobs found))
                h.jobs in
            record { jobs = new; stored = rw get_or-put new })
          h

    module _ (retry_base : ℕ) (job_id error : String) where
      branch-IsTimely :
          (b : Bool) (a : ℤ) (job : Fields) (s : Queue)
          → ReadsTime job
          → IsTimely s
          → IsTimely (
              if b
              then give_up retry_base now job_id error a job s
              else retry retry_base now job_id error a job s)
      unfolding give_up retry persist float_of
      branch-IsTimely true a job s t h =
          let new =
            put-IsReadable job_id (put "status" (str "failed") job) s.jobs
              (same_time job (put "status" (str "failed") job) (simp get_or-put) t) h.jobs in
          record { jobs = new; stored = rw get_or-put new }
      branch-IsTimely false a job s t h =
          let job' = rescheduled retry_base now job_id error (pos retry_base *ℤ a) job in
          let new =
            put-IsReadable job_id job' s.jobs
              (reschedule-ReadsTime retry_base now job_id error (pos retry_base *ℤ a) job) h.jobs in
          record { jobs = new; stored = rw get_or-put new }

      failed_again-IsTimely :
          (failures limit : Result ℤ) (job : Fields) (s : Queue)
          → ReadsTime job
          → IsTimely s
          → IsTimely (failed_again retry_base now job_id error failures limit job s).1
      unfolding failed_again
      failed_again-IsTimely (raised e) limit job s t h = h
      failed_again-IsTimely (ok n) (raised e) job s t h = record {
        jobs =
            put-IsReadable job_id (noted retry_base now job_id error (n +ℤ pos 1) job) s.jobs
              (same_time job (noted retry_base now job_id error (n +ℤ pos 1) job)
                (unfold noted in simp get_or-put) t)
              h.jobs;
        stored = h.stored;
      }
      failed_again-IsTimely (ok n) (ok m) job s t h =
          branch-IsTimely (ltb_ℤ m (n +ℤ pos 1)) (n +ℤ pos 1)
            (noted retry_base now job_id error (n +ℤ pos 1) job) s
            (same_time job (noted retry_base now job_id error (n +ℤ pos 1) job)
              (unfold noted in simp get_or-put) t)
            h

      mark_failed-IsTimely :
          (s : Queue) → IsTimely s → IsTimely (mark_failed_or_retry retry_base now job_id error s).1
      unfolding mark_failed_or_retry
      mark_failed-IsTimely s h =
          on_job_ind (λ (r : Result Unit × Queue). IsTimely r.1) (get job_id s.jobs) _ (ok tt, s)
            (λ job found.
              failed_again-IsTimely _ _ job s (get-ReadsTime job_id s.jobs job h.jobs found) h)
            h

    pub settle-IsTimely :
        (retry_base : ℕ) (job_id : String) (outcome : Outcome) (s : Queue)
        → IsTimely s
        → IsTimely (settle py retry_base now job_id outcome s).1
    unfolding settle
    settle-IsTimely retry_base job_id (returned result) s = mark_completed-IsTimely job_id result s
    settle-IsTimely retry_base job_id (failed error) s =
        mark_failed-IsTimely retry_base job_id error s
