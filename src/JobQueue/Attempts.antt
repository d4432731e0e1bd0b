-- ===== src/JobQueue/Attempts.antt =====
-- One failure of a job, `_mark_failed_or_retry` of backend/app/job_queue.py.
use gitvibe_dev.Prelude.{
  ℕ, ◌+◌, String, ◌≡◌, refl, Bool, true, false, some, arith, ltb, contains, contains-append_last,
  eq_iff, if◌then◌else◌,
}
use gitvibe_dev.Prelude.Int.{ℤ, pos, ltb_ℤ, ◌+ℤ◌, ◌*ℤ◌}
use gitvibe_dev.Exc.{ok}
use gitvibe_dev.Json.{Value, int, str, obj, Fields}
use gitvibe_dev.Json.Dict.{get, get_or, put, get-put, get-put_self}
use gitvibe_dev.Json.Convert.{int_of}
use gitvibe_dev.JobQueue.{
  Queue, retry, rescheduled, give_up, noted, mark_failed_or_retry, enqueue, new_job, at_least_zero,
}

-- The job `job_id` of `s`: how often it has failed, how often it may be retried, and its status.
pub record JobAt (s : Queue) (job_id : String) (attempts max_retries : ℤ) (status : String)
    : Type 0 where
  pub job : Fields
  pub found : get job_id s.jobs ≡ some (obj job)
  pub failures : get "attempts" job ≡ some (int attempts)
  pub limit : get "max_retries" job ≡ some (int max_retries)
  pub state : get "status" job ≡ some (str status)

abbrev pub after_failure : ℤ → ℤ → String
after_failure attempts max_retries = if ltb_ℤ max_retries attempts then "failed" else "queued"

module _ (retry_base now : ℕ) (job_id error : String) where
  noted_fields :
      (a m : ℤ) (job : Fields)
      → get "max_retries" job ≡ some (int m)
      → (get "attempts" (noted retry_base now job_id error a job) ≡ some (int a))
        × (get "max_retries" (noted retry_base now job_id error a job) ≡ some (int m))
  unfolding noted
  noted_fields a m job e = (simp get-put, simp get-put e)

  retry-JobAt :
      (a m : ℤ) (job : Fields) (s : Queue)
      → get "attempts" job ≡ some (int a)
      → get "max_retries" job ≡ some (int m)
      → JobAt (retry retry_base now job_id error a job s) job_id a m "queued"
  unfolding retry
  retry-JobAt a m job s ha hm = record {
    job = rescheduled retry_base now job_id error (pos retry_base *ℤ a) job;
    found = get-put_self job_id _ s.jobs;
    failures = simp get-put ha;
    limit = simp get-put hm;
    state = simp get-put;
  }

  give_up-JobAt :
      (a m : ℤ) (job : Fields) (s : Queue)
      → get "attempts" job ≡ some (int a)
      → get "max_retries" job ≡ some (int m)
      → JobAt (give_up retry_base now job_id error a job s) job_id a m "failed"
  unfolding give_up
  give_up-JobAt a m job s ha hm = record {
    job = put "status" (str "failed") job;
    found = get-put_self job_id _ s.jobs;
    failures = simp get-put ha;
    limit = simp get-put hm;
    state = simp get-put;
  }

  branch-JobAt :
      (b : Bool) (a m : ℤ) (job : Fields) (s : Queue)
      → get "attempts" job ≡ some (int a)
      → get "max_retries" job ≡ some (int m)
      → JobAt
          (if b
            then give_up retry_base now job_id error a job s
            else retry retry_base now job_id error a job s)
          job_id
          a
          m
          (if b then "failed" else "queued")
  branch-JobAt true = give_up-JobAt
  branch-JobAt false = retry-JobAt

  branch-listed :
      (b : Bool) (a : ℤ) (job : Fields) (s : Queue)
      → ◌≡◌ {A = String} (if b then "failed" else "queued") "queued"
      → contains job_id
          (if b
            then give_up retry_base now job_id error a job s
            else retry retry_base now job_id error a job s).queue
        ≡ true
  unfolding retry
  branch-listed true a job s e = absurd (ground (arith, eq_iff "failed" "queued"))
  branch-listed false a job s e = contains-append_last job_id s.queue

  int_of-get :
      (k : String) (d : Value) (n : ℤ) (job : Fields)
      → get k job ≡ some (int n)
      → int_of (get_or k d job) ≡ ok n
  unfolding int_of
  int_of-get k d n job e = rw (e, get_or)

  -- One more failure: the count goes up by one, and the job fails for good exactly if that is
  -- more than the retries it has; otherwise it waits again, on the queue.
  pub mark_failed-JobAt :
      (s : Queue) (a m : ℤ) (status : String)
      → JobAt s job_id a m status
      → let (r, s') = mark_failed_or_retry retry_base now job_id error s in
        (r ≡ ok tt)
        × JobAt s' job_id (a +ℤ pos 1) m (after_failure (a +ℤ pos 1) m)
        × (after_failure (a +ℤ pos 1) m ≡ "queued" → contains job_id s'.queue ≡ true)
  unfolding mark_failed_or_retry
  mark_failed-JobAt s a m status at =
      let (ha, hm) = noted_fields (a +ℤ pos 1) m at.job at.limit in
      rw
        (
          at.found,
          int_of-get "attempts" (int (pos 0)) a at.job at.failures,
          int_of-get "max_retries" (int (pos 0)) m at.job at.limit,
          mark_failed_or_retry,
        )
        (
          refl,
          branch-JobAt (ltb_ℤ m (a +ℤ pos 1)) (a +ℤ pos 1) m
              (noted retry_base now job_id error (a +ℤ pos 1) at.job) s ha hm,
          branch-listed (ltb_ℤ m (a +ℤ pos 1)) (a +ℤ pos 1)
              (noted retry_base now job_id error (a +ℤ pos 1) at.job) s,
        )

pub enqueue-JobAt :
    (job_type : String) (payload : Fields) (max_retries : ℤ) (now : ℕ) (job_id : String) (s : Queue)
    → JobAt
        (enqueue job_type payload max_retries now job_id s).1
        job_id
        (pos 0)
        (at_least_zero max_retries)
        "queued"
unfolding enqueue
enqueue-JobAt job_type payload max_retries now job_id s = record {
  job = new_job job_type payload max_retries now job_id;
  found = get-put_self job_id _ s.jobs;
  failures = refl;
  limit = refl;
  state = refl;
}

pub add_one : (a n : ℕ) → pos a +ℤ pos n ≡ pos (a + n)
unfolding ◌+ℤ◌
add_one a n = ground arith

abbrev pub status_after : ℕ → ℕ → String
status_after failures max_retries = if ltb max_retries failures then "failed" else "queued"

pub after_failure_pos : (a m : ℕ) → after_failure (pos a) (pos m) ≡ status_after a m
after_failure_pos a m = ground arith
