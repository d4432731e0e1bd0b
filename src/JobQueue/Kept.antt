-- ===== src/JobQueue/Kept.antt =====
-- No call of backend/app/job_queue.py loses a job: one that waits stays on the queue.
use gitvibe_dev.Prelude.{
  ℕ, String, ◌≡◌, ◌≢◌, refl, sym, ap, subst, ◌∙◌, inl, inr, Bool, true, false, none, some, List, [],
  ◌∷◌, ◌++◌, arith, contains, contains-append, contains-append_last, String-cases, ◌==◌, eq_iff,
  if◌then◌else◌,
}
use gitvibe_dev.Prelude.Int.{ℤ, pos, ltb_ℤ, ◌+ℤ◌, ◌*ℤ◌}
use gitvibe_dev.Exc.{Result, ok, raised}
use gitvibe_dev.Json.{str, obj, Fields}
use gitvibe_dev.Json.Dict.{get, put, get-put, get-put_self}
use gitvibe_dev.Json.Convert.{Builtins}
use gitvibe_dev.JobQueue.{
  Queue, enqueue, claim, claimed, settle, Outcome, returned, failed, mark_completed,
  mark_failed_or_retry, retry, rescheduled, give_up, noted, completed, new_job, on_job_ind,
  failed_again,
}
use gitvibe_dev.JobQueue.Frame.{waits, contains-split}
use gitvibe_dev.JobQueue.Dequeue.{Explains}

-- No job is lost: one that waits stands on the queue.
abbrev pub IsListed : Fields → List String → Type 0
IsListed jobs queue =
    (job_id : String) (job : Fields)
    → get job_id jobs ≡ some (obj job)
    → get "status" job ≡ some (str "queued")
    → contains job_id queue ≡ true

abbrev pub KeepsJobs : Queue → Type 0
KeepsJobs s = IsListed s.jobs s.queue

-- A write to one job keeps the invariant, if the job that is written does not wait or is listed.
put-IsListed :
    (k : String) (new jobs : Fields) (queue queue' : List String)
    → IsListed jobs queue
    → ((j : String) → (k == j) ≡ false → contains j queue ≡ true → contains j queue' ≡ true)
    → (get "status" new ≡ some (str "queued") → contains k queue' ≡ true)
    → IsListed (put k (obj new) jobs) queue'
put-IsListed k new jobs queue queue' keeps grows listed j job e q = elim (String-cases k j) [
  | inl same ↦
      let new_job : new ≡ job = cc (get-put_self k (obj new) jobs, same, e) in
      subst (λ i. contains i queue' ≡ true) same (listed (ap (get "status") new_job ∙ q))
  | inr ne ↦ grows j ne (keeps j job (sym (sym e ∙ get-put k j (obj new) jobs ∙ rw ne)) q)
]

-- A job that no longer waits leaves the queue as it is.
settled-IsListed :
    (k : String) (new jobs : Fields) (queue : List String)
    → IsListed jobs queue
    → get "status" new ≢ some (str "queued")
    → IsListed (put k (obj new) jobs) queue
settled-IsListed k new jobs queue keeps idle =
    put-IsListed k new jobs queue queue keeps (λ j _ h. h) (λ q. absurd (idle q))

-- A job that goes to the end of the queue.
append-IsListed :
    (k : String) (new jobs : Fields) (queue : List String)
    → IsListed jobs queue
    → IsListed (put k (obj new) jobs) (queue ++ k ∷ [])
append-IsListed k new jobs queue keeps =
    put-IsListed k new jobs queue (queue ++ k ∷ []) keeps
      (λ j _ h. ground (arith, contains-append j queue (k ∷ [])))
      (λ _. contains-append_last k queue)

str_ne : (s t : String) → (s == t) ≡ false → some (str s) ≢ some (str t)
str_ne s t h e = ground (arith, eq_iff s t)

status_ne :
    (job : Fields) (status : String)
    → get "status" job ≡ some (str status)
    → (status == "queued") ≡ false
    → get "status" job ≢ some (str "queued")
status_ne job status e h q = str_ne status "queued" h (sym e ∙ q)

pub enqueue-KeepsJobs :
    (job_type : String) (payload : Fields) (max_retries : ℤ) (now : ℕ) (job_id : String) (s : Queue)
    → KeepsJobs s
    → KeepsJobs (enqueue job_type payload max_retries now job_id s).1
unfolding enqueue
enqueue-KeepsJobs job_type payload max_retries now job_id s =
    append-IsListed job_id (new_job job_type payload max_retries now job_id) s.jobs s.queue

mark_completed-KeepsJobs :
    (now : ℕ) (job_id : String) (result : Fields) (s : Queue)
    → KeepsJobs s
    → KeepsJobs (mark_completed now job_id result s)
unfolding mark_completed
mark_completed-KeepsJobs now job_id result s keeps =
    on_job_ind KeepsJobs (get job_id s.jobs) _ s
      (λ job _.
        settled-IsListed job_id (completed now result job) s.jobs s.queue keeps
          (status_ne (completed now result job) "completed" (simp get-put) refl))
      keeps

module _ (retry_base now : ℕ) (job_id error : String) where
  branch-KeepsJobs :
      (b : Bool) (a : ℤ) (job : Fields) (s : Queue)
      → KeepsJobs s
      → KeepsJobs (
          if b
          then give_up retry_base now job_id error a job s
          else retry retry_base now job_id error a job s)
  unfolding give_up retry
  branch-KeepsJobs true a job s keeps =
      settled-IsListed job_id (put "status" (str "failed") job) s.jobs s.queue keeps
        (status_ne (put "status" (str "failed") job) "failed" (simp get-put) refl)
  branch-KeepsJobs false a job s keeps =
      append-IsListed job_id (rescheduled retry_base now job_id error (pos retry_base *ℤ a) job)
        s.jobs s.queue keeps

  failed_again-KeepsJobs :
      (failures limit : Result ℤ) (job : Fields) (s : Queue)
      → get "status" job ≢ some (str "queued")
      → KeepsJobs s
      → KeepsJobs (failed_again retry_base now job_id error failures limit job s).1
  unfolding failed_again
  failed_again-KeepsJobs (raised e) limit job s idle keeps = keeps
  failed_again-KeepsJobs (ok n) (raised e) job s idle keeps =
      settled-IsListed job_id (noted retry_base now job_id error (n +ℤ pos 1) job) s.jobs s.queue
        keeps (λ q. idle (unfold noted in simp get-put at q))
  failed_again-KeepsJobs (ok n) (ok m) job s idle keeps =
      branch-KeepsJobs (ltb_ℤ m (n +ℤ pos 1)) (n +ℤ pos 1)
        (noted retry_base now job_id error (n +ℤ pos 1) job) s keeps

  mark_failed-KeepsJobs :
      (s : Queue)
      → ((job : Fields)
          → get job_id s.jobs ≡ some (obj job)
          → get "status" job ≢ some (str "queued"))
      → KeepsJobs s
      → KeepsJobs (mark_failed_or_retry retry_base now job_id error s).1
  unfolding mark_failed_or_retry
  mark_failed-KeepsJobs s idle keeps =
      on_job_ind (λ (r : Result Unit × Queue). KeepsJobs r.1) (get job_id s.jobs) _ (ok tt, s)
        (λ job found. failed_again-KeepsJobs _ _ job s (idle job found) keeps) keeps

pub settle-KeepsJobs :
    (py : Builtins) (retry_base now : ℕ) (job_id : String) (outcome : Outcome) (s : Queue)
    → ((job : Fields) → get job_id s.jobs ≡ some (obj job) → get "status" job ≢ some (str "queued"))
    → KeepsJobs s
    → KeepsJobs (settle py retry_base now job_id outcome s).1
unfolding settle
settle-KeepsJobs py retry_base now job_id (returned result) s idle =
    mark_completed-KeepsJobs now job_id result s
settle-KeepsJobs py retry_base now job_id (failed error) s idle =
    mark_failed-KeepsJobs retry_base now job_id error s idle

-- The job `job_id` is marked as running.
abbrev pub IsRunning : String → Fields → Type 0
IsRunning job_id jobs =
    (job : Fields) × (get job_id jobs ≡ some (obj job)) × (get "status" job ≡ some (str "running"))

module _ (py : Builtins) (now : ℕ) (s : Queue) where
  pub none-IsListed :
      (q : Queue) → KeepsJobs s → Explains py now s s.queue [] (ok none) q → KeepsJobs q
  none-IsListed q keeps (passed, e) = rw e (λ j job found queued.
      waits py now s j job s.queue found queued passed (keeps j job found queued))

  pub some-IsListed :
      (job_id : String) (q : Queue)
      → KeepsJobs s
      → Explains py now s s.queue [] (ok (some job_id)) q
      → KeepsJobs q
  unfolding claim
  some-IsListed k q keeps (pre, post, job, split, passed, d, e) = rw e (λ j job' found queued.
      elim (String-cases k j) [
        | inl same ↦
            let eq : claimed py now job ≡ job' =
              cc (get-put_self k (obj (claimed py now job)) s.jobs, same, found) in
            absurd (
              status_ne (claimed py now job) "running" (simp get-put) refl
                (ap (get "status") eq ∙ queued))
        | inr ne ↦
            let old : get j s.jobs ≡ some (obj job') =
              sym (sym found ∙ get-put k j _ s.jobs ∙ rw ne) in
            rw contains-append
              (elim (contains-split py now s j k pre post ne
                (rw split at (keeps j job' old queued))) [
                  | inl before ↦
                      let listed = waits py now s j job' pre old queued passed before in
                      ground (arith, listed)
                  | inr behind ↦ rw behind
                ])
      ])

  pub some-IsRunning :
      (job_id : String) (q : Queue)
      → Explains py now s s.queue [] (ok (some job_id)) q
      → IsRunning job_id q.jobs
  unfolding claim
  some-IsRunning k q (pre, post, job, split, passed, d, e) =
      rw e (claimed py now job, get-put_self k _ s.jobs, simp get-put)
