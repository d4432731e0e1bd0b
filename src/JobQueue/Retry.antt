-- ===== src/JobQueue/Retry.antt =====
-- `_mark_failed_or_retry` of backend/app/job_queue.py: how often a job that fails is run.
use gitvibe_dev.Prelude.{
  ℕ, suc, ◌≤◌, String, ◌≡◌, ◌≢◌, sym, ap, ◌∙◌, Bool, true, false, Bool-cases, inl, inr, some, arith,
  subst, ltb, contains, contains-append_last, ◌==◌, eq_iff, if◌then◌else◌,
}
use gitvibe_dev.Prelude.Int.{ℤ, pos, ◌+ℤ◌}
use gitvibe_dev.Exc.{ok}
use gitvibe_dev.Json.{str, obj, Fields}
use gitvibe_dev.Json.Dict.{get, get-put, get-put_self}
use gitvibe_dev.Json.Convert.{Builtins}
use gitvibe_dev.JobQueue.{
  Queue, mark_failed_or_retry, enqueue, dequeue, settle, Outcome, failed, claim, claimed, status_is,
}
use gitvibe_dev.JobQueue.Dequeue.{standing, due, dequeue-Explains}
use gitvibe_dev.JobQueue.Timely.{
  IsTimely, enqueue-IsTimely, dequeue-IsTimely, settle-IsTimely, standing-unbroken, standing-due,
  get-ReadsTime,
}
use gitvibe_dev.JobQueue.Frame.{
  Leaves, contains-Leaves, enqueue-Leaves, settle-Leaves, contains-explained, get-explained,
}
use gitvibe_dev.JobQueue.Attempts.{
  JobAt, after_failure, mark_failed-JobAt, enqueue-JobAt, add_one, status_after, after_failure_pos,
}

-- The status of a job after `n` failures, of which none was followed by a success
abbrev pub phase : ℕ → ℕ → Bool → String
phase n m running = if running then "running" else status_after n m

module _ (py : Builtins) (retry_base : ℕ) (j : String) where
  -- What happens around a job from the moment that it is enqueued: other requests, calls that give
  -- the worker another job, none or raise, the ends of the runs of other jobs, and its own runs,
  -- which all fail. `n` counts the failures, and the Boolean says whether the job runs.
  pub data Runs (start : Queue) : ℕ → Bool → Queue → Type 0 where
    here : Runs start 0 false start
    requested :
        {n : ℕ} {b : Bool} {q : Queue} (job_type : String) (payload : Fields) (max_retries : ℤ)
        (now : ℕ) (k : String)
        → Runs start n b q
        → (k == j) ≡ false
        → Runs start n b (enqueue job_type payload max_retries now k q).1
    passed :
        {n : ℕ} {b : Bool} {q : Queue} (now : ℕ)
        → Runs start n b q
        → (dequeue py now q).0 ≢ ok (some j)
        → Runs start n b (dequeue py now q).1
    settled :
        {n : ℕ} {b : Bool} {q : Queue} (now : ℕ) (k : String) (outcome : Outcome)
        → Runs start n b q
        → (k == j) ≡ false
        → Runs start n b (settle py retry_base now k outcome q).1
    started :
        {n : ℕ} {q : Queue} (now : ℕ)
        → Runs start n false q
        → (dequeue py now q).0 ≡ ok (some j)
        → Runs start n true (dequeue py now q).1
    failing :
        {n : ℕ} {q : Queue} (now : ℕ) (error : String)
        → Runs start n true q
        → Runs start (suc n) false (settle py retry_base now j (failed error) q).1

  -- How the job stands: its count of failures, and its status. If it waits, it is on the queue; it
  -- has failed at most `m + 1` times, and runs only if it has failed at most `m` times.
  pub record IsTried (m n : ℕ) (running : Bool) (q : Queue) : Type 0 where
    pub at : JobAt q j (pos n) (pos m) (phase n m running)
    pub timely : IsTimely py q
    pub listed : phase n m running ≡ "queued" → contains j q.queue ≡ true
    pub count : (if running then suc n else n) ≤ suc m

  same-JobAt :
      (q q' : Queue) (a m : ℤ) (status : String)
      → JobAt q j a m status
      → get j q'.jobs ≡ get j q.jobs
      → JobAt q' j a m status
  same-JobAt q q' a m status at e = record {
    job = at.job;
    found = e ∙ at.found;
    failures = at.failures;
    limit = at.limit;
    state = at.state;
  }

  Leaves-IsTried :
      (m n : ℕ) (b : Bool) (q q' : Queue)
      → Leaves j q q'
      → IsTimely py q'
      → IsTried m n b q
      → IsTried m n b q'
  Leaves-IsTried m n b q q' leaves timely h = record {
    at = same-JobAt q q' (pos n) (pos m) (phase n m b) h.at leaves.job;
    timely = timely;
    listed = λ w. contains-Leaves j q q' leaves (h.listed w);
    count = h.count;
  }

  passed-IsTried :
      (m n : ℕ) (b : Bool) (now : ℕ) (q : Queue)
      → (dequeue py now q).0 ≢ ok (some j)
      → IsTried m n b q
      → IsTried m n b (dequeue py now q).1
  passed-IsTried m n b now q other h =
      let explained = dequeue-Explains py now q in
      record {
        at =
            same-JobAt q (dequeue py now q).1 (pos n) (pos m) (phase n m b) h.at
              (get-explained py now q j _ _ other explained);
        timely = dequeue-IsTimely py now q h.timely;
        listed = λ w.
            contains-explained py now q j h.at.job _ _ h.at.found
              (h.at.state ∙ ap (λ t. some (str t)) w)
              (λ e.
                standing-unbroken py now (get j q.jobs) e
                  (λ job found. get-ReadsTime py j q.jobs job h.timely.jobs found))
              (h.listed w) other explained;
        count = h.count;
      }

  -- A job that has failed for good is not due.
  due-below :
      (m n now : ℕ) (job taken : Fields)
      → get "status" job ≡ some (str (status_after n m))
      → standing py now (some (obj job)) ≡ due taken
      → n ≤ m
  due-below m n now job taken state d = elim (Bool-cases (ltb m n)) [
    | inl over ↦
        let known : get "status" job ≡ some (str "failed") = rw over at state in
        let idle : status_is "queued" job ≡ false = rw (known, status_is) in
        absurd (cc (rw idle at d))
    | inr below ↦ ground arith
  ]

  started-IsTried :
      (m n now : ℕ) (q : Queue)
      → (dequeue py now q).0 ≡ ok (some j)
      → IsTried m n false q
      → IsTried m n true (dequeue py now q).1
  unfolding claim
  started-IsTried m n now q given h =
      let (pre, post, taken, split, over, d, e) = rw given at (dequeue-Explains py now q) in
      let found : get j q.jobs ≡ some (obj taken) =
        (standing-due py now (get j q.jobs) taken d).0 in
      let same : h.at.job ≡ taken = cc (found, h.at.found) in
      record {
        at = record {
          job = claimed py now taken;
          found = ap (λ (t : Queue). get j t.jobs) e ∙ get-put_self j _ q.jobs;
          failures = simp get-put (ap (get "attempts") (sym same) ∙ h.at.failures);
          limit = simp get-put (ap (get "max_retries") (sym same) ∙ h.at.limit);
          state = simp get-put;
        };
        timely = dequeue-IsTimely py now q h.timely;
        listed = λ w. absurd (ground (arith, eq_iff "running" "queued"));
        count =
            let below =
              due-below m n now h.at.job taken h.at.state
                (ap (standing py now) (sym h.at.found) ∙ d) in
            omega (arith, below);
      }

  failing-IsTried :
      (m n now : ℕ) (error : String) (q : Queue)
      → IsTried m n true q
      → IsTried m (suc n) false (settle py retry_base now j (failed error) q).1
  unfolding settle
  failing-IsTried m n now error q h =
      let (r, at, listed) =
        mark_failed-JobAt retry_base now j error q (pos n) (pos m) "running" h.at in
      let s' = (mark_failed_or_retry retry_base now j error q).1 in
      let one : pos n +ℤ pos 1 ≡ pos (suc n) = add_one n 1 ∙ ap pos (omega arith) in
      let status : after_failure (pos n +ℤ pos 1) (pos m) ≡ status_after (suc n) m =
        ap (λ z. after_failure z (pos m)) one ∙ after_failure_pos (suc n) m in
      record {
        at =
            subst (JobAt s' j (pos (suc n)) (pos m)) status
              (subst (λ z. JobAt s' j z (pos m) (after_failure (pos n +ℤ pos 1) (pos m))) one at);
        timely = settle-IsTimely py now retry_base j (failed error) q h.timely;
        listed = λ w. listed (status ∙ w);
        count = h.count;
      }

  Runs-IsTried :
      (m : ℕ) (start : Queue) (n : ℕ) (b : Bool) (q : Queue)
      → IsTried m 0 false start
      → Runs start n b q
      → IsTried m n b q
  Runs-IsTried m start n b q h here = h
  Runs-IsTried m start n b q h (requested {q = p} job_type payload max_retries now k r ne) =
      let before = Runs-IsTried m start n b p h r in
      Leaves-IsTried m n b p q (enqueue-Leaves j k ne job_type payload max_retries now p)
        (enqueue-IsTimely py now job_type payload max_retries k p before.timely) before
  Runs-IsTried m start n b q h (passed {q = p} now r other) =
      passed-IsTried m n b now p other (Runs-IsTried m start n b p h r)
  Runs-IsTried m start n b q h (settled {q = p} now k outcome r ne) =
      let before = Runs-IsTried m start n b p h r in
      Leaves-IsTried m n b p q (settle-Leaves j k ne now py retry_base outcome p)
        (settle-IsTimely py now retry_base k outcome p before.timely) before
  Runs-IsTried m start n b q h (started {q = p} now r given) =
      started-IsTried m n now p given (Runs-IsTried m start n false p h r)
  Runs-IsTried m start n b q h (failing {n = k} {q = p} now error r) =
      failing-IsTried m k now error p (Runs-IsTried m start k true p h r)

  -- A job is enqueued with `m` retries on a queue whose times can be read, and whenever the worker
  -- runs it, it fails, while other requests and other jobs go on around it and the program is not
  -- restarted. After `n` failures it
  -- counts `n`; while `n` is at most `m` it waits again, on the queue, until the worker takes it; it
  -- has failed for good when `n` is `m + 1`, and is not run again.
  pub enqueue-IsTried :
      (job_type : String) (payload : Fields) (m now : ℕ) (s : Queue) (n : ℕ) (running : Bool)
      (q : Queue)
      → IsTimely py s
      → Runs (enqueue job_type payload (pos m) now j s).1 n running q
      → IsTried m n running q
  unfolding enqueue
  enqueue-IsTried job_type payload m now s n running q timely =
      let waits : status_after 0 m ≡ "queued" = ground arith in
      Runs-IsTried m (enqueue job_type payload (pos m) now j s).1 n running q (record {
        at =
            subst (JobAt (enqueue job_type payload (pos m) now j s).1 j (pos 0) (pos m)) (sym waits)
              (enqueue-JobAt job_type payload (pos m) now j s);
        timely = enqueue-IsTimely py now job_type payload (pos m) j s timely;
        listed = λ w. contains-append_last j s.queue;
        count = omega arith;
      })
