-- ===== src/JobQueue/Lifecycle.antt =====
-- The queue of backend/app/job_queue.py under every order of calls: requests that enqueue jobs, the
-- worker, and restarts, at the points where the lock of the queue lets them interleave.
use gitvibe_dev.Prelude.{
  ℕ, String, ◌≡◌, sym, ap, subst, ◌∙◌, inl, inr, Option, none, some, String-cases,
}
use gitvibe_dev.Prelude.Int.{ℤ}
use gitvibe_dev.Exc.{Exc, ok, raised}
use gitvibe_dev.Json.{obj, Fields, end}
use gitvibe_dev.Json.Dict.{get, get_or, get-put}
use gitvibe_dev.Json.Convert.{Builtins}
use gitvibe_dev.JobQueue.{Queue, enqueue, dequeue, settle, Outcome, load_state, state_key}
use gitvibe_dev.JobQueue.Loading.{IsDistinct, queued≢running, stored_jobs, load_state-IsRecovered}
use gitvibe_dev.JobQueue.Timely.{
  IsTimely, enqueue-IsTimely, dequeue-IsTimely, settle-IsTimely, dequeue-unbroken,
}
use gitvibe_dev.JobQueue.Dequeue.{dequeue-Explains}
use gitvibe_dev.JobQueue.Restored.{load_state-IsTimely}
use gitvibe_dev.JobQueue.Kept.{
  KeepsJobs, IsRunning, enqueue-KeepsJobs, settle-KeepsJobs, none-IsListed, some-IsListed,
  some-IsRunning,
}

-- The queue, and the job that the worker runs, between two moments at which the lock is free.
pub record World : Type 0 where
  pub queue : Queue
  pub worker : Option String

-- The job that the worker runs is marked as running, no job is lost, and the times of the jobs can
-- be read.
pub record IsSound (py : Builtins) (w : World) : Type 0 where
  pub timely : IsTimely py w.queue
  pub keeps : KeepsJobs w.queue
  pub runs : (job_id : String) → w.worker ≡ some job_id → IsRunning job_id w.queue.jobs

module _ (py : Builtins) (retry_base : ℕ) where
  -- `enqueue` draws a fresh id. The worker claims a job, or finds none and sleeps, or it is broken off
  -- by what `_dequeue_next_job_id` raises; when the handler is done, with any outcome, it settles the
  -- job. A restart takes the state from the vault.
  pub data Step : World → World → Type 0 where
    enqueued :
        (w : World) (job_type : String) (payload : Fields) (max_retries : ℤ) (now : ℕ)
        (job_id : String)
        → get job_id w.queue.jobs ≡ none
        → Step w (record w { queue = (enqueue job_type payload max_retries now job_id w.queue).1 })
    claims :
        (w : World) (now : ℕ) (job_id : String)
        → w.worker ≡ none
        → (dequeue py now w.queue).0 ≡ ok (some job_id)
        → Step w (record { queue = (dequeue py now w.queue).1; worker = some job_id })
    sleeps :
        (w : World) (now : ℕ)
        → w.worker ≡ none
        → (dequeue py now w.queue).0 ≡ ok none
        → Step w (record w { queue = (dequeue py now w.queue).1 })
    breaks :
        (w : World) (now : ℕ) (e : Exc)
        → w.worker ≡ none
        → (dequeue py now w.queue).0 ≡ raised e
        → Step w (record w { queue = (dequeue py now w.queue).1 })
    settles :
        (w : World) (now : ℕ) (job_id : String) (outcome : Outcome)
        → w.worker ≡ some job_id
        → Step w
            (record { queue = (settle py retry_base now job_id outcome w.queue).1; worker = none })
    restarts :
        (w : World) (now : ℕ)
        → IsDistinct (stored_jobs (get_or state_key (obj end) w.queue.vault))
        → Step w (record { queue = load_state py now w.queue.vault w.queue.audit; worker = none })

  pub data Reach (w : World) : World → Type 0 where
    here : Reach w w
    next : {u v : World} → Reach w u → Step u v → Reach w v

  enqueue-IsRunning :
      (job_type : String) (payload : Fields) (max_retries : ℤ) (now : ℕ) (k j : String) (s : Queue)
      → get k s.jobs ≡ none
      → IsRunning j s.jobs
      → IsRunning j (enqueue job_type payload max_retries now k s).1.jobs
  unfolding enqueue
  enqueue-IsRunning job_type payload max_retries now k j s fresh (job, found, running) =
      elim (String-cases k j) [
        | inl same ↦ cc (fresh, same, found)
        | inr ne ↦ (job, get-put k j _ s.jobs ∙ rw ne found, running)
      ]

  Step-IsSound : {w u : World} → Step w u → IsSound py w → IsSound py u
  Step-IsSound (enqueued w job_type payload max_retries now job_id fresh) h = record {
    timely = enqueue-IsTimely py now job_type payload max_retries job_id w.queue h.timely;
    keeps = enqueue-KeepsJobs job_type payload max_retries now job_id w.queue h.keeps;
    runs = λ j busy.
        enqueue-IsRunning job_type payload max_retries now job_id j w.queue fresh (h.runs j busy);
  }
  Step-IsSound (claims w now job_id idle e) h =
      let explained = rw e at (dequeue-Explains py now w.queue) in
      record {
        timely = dequeue-IsTimely py now w.queue h.timely;
        keeps = some-IsListed py now w.queue job_id (dequeue py now w.queue).1 h.keeps explained;
        runs = λ j busy.
            let same : job_id ≡ j = cc busy in
            subst (λ i. IsRunning i (dequeue py now w.queue).1.jobs) same
              (some-IsRunning py now w.queue job_id (dequeue py now w.queue).1 explained);
      }
  Step-IsSound (sleeps w now idle e) h = record {
    timely = dequeue-IsTimely py now w.queue h.timely;
    keeps =
        none-IsListed py now w.queue (dequeue py now w.queue).1 h.keeps
          (rw e at (dequeue-Explains py now w.queue));
    runs = λ j busy. cc;
  }
  Step-IsSound (breaks w now x idle e) h = absurd (dequeue-unbroken py now w.queue x h.timely e)
  Step-IsSound (settles w now job_id outcome busy) h =
      let (running_job, at, running) = h.runs job_id busy in
      record {
        timely = settle-IsTimely py now retry_base job_id outcome w.queue h.timely;
        keeps =
            settle-KeepsJobs py retry_base now job_id outcome w.queue
              (λ job found q.
                let same : running_job ≡ job = cc (at, found) in
                queued≢running (sym q ∙ ap (get "status") (sym same) ∙ running))
              h.keeps;
        runs = λ i busy'. cc;
      }
  Step-IsSound (restarts w now distinct) h = record {
    timely = load_state-IsTimely py now w.queue.vault w.queue.audit h.timely.stored;
    keeps = (load_state-IsRecovered py now w.queue.vault w.queue.audit distinct).queued;
    runs = λ i busy. cc;
  }

  -- From a state whose jobs, in memory and in the vault, have times that can be read, requests, the
  -- worker and restarts may interleave in any order, and no job is lost: one that waits is on the
  -- queue, the one that the worker runs is marked as running, and the times can still be read, so
  -- that `_dequeue_next_job_id` does not raise.
  pub Reach-IsSound : {w u : World} → IsSound py w → Reach w u → IsSound py u
  Reach-IsSound h here = h
  Reach-IsSound h (next r st) = Step-IsSound st (Reach-IsSound h r)
