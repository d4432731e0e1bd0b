-- ===== src/JobQueue.antt =====
-- backend/app/job_queue.py: the persistent queue of background jobs.
-- A job is a dict, `jobs` the dict of all jobs by id, `vault` the contents of the vault. A method
-- takes the reading of the clock in millionths of a second, one for the whole call.
pub mod Loading
pub mod Dequeue
pub mod Timely
pub mod Restored
pub mod Places
pub mod Frame
pub mod Progress
pub mod Attempts
pub mod Retry
pub mod Kept
pub mod Lifecycle
pub mod Tests
use Prim.Native.String.{◌++◌ as concat}
use gitvibe_dev.Prelude.{
  ℕ, zero, suc, ◌≡◌, refl, ◌*◌, ◌/◌, String, Bool, true, false, not, ◌&&◌, Option, none, some, List,
  [], ◌∷◌, ◌++◌, length, contains, ◌==◌, if◌then◌else◌,
}
use gitvibe_dev.Prelude.Int.{ℤ, pos, negsuc, ltb_ℤ, ◌+ℤ◌, ◌*ℤ◌}
use gitvibe_dev.Exc.{Exc, Result, ok, raised, other}
use gitvibe_dev.Json.{
  Value, null, bool, int, float, str, arr, obj, Fields, end, field, of_strings, strings_of,
}
use gitvibe_dev.Json.Dict.{get, get_or, put, del}
use gitvibe_dev.Json.Convert.{Builtins, str_of, int_of, float_of}
use gitvibe_dev.Audit.{AuditEvent, security}

pub record Queue : Type 0 where
  pub jobs : Fields
  pub queue : List String
  pub vault : Fields
  pub audit : List AuditEvent

abbrev pub state_key : String
state_key = "background_job_queue_state"

abbrev pub seconds : ℕ → Value
seconds now = int (pos (now / 1_000_000))

-- `_persist_state`
unfoldable pub persist : ℕ → Queue → Queue
persist now s = record s {
  vault =
      put state_key
        (obj (
          field "jobs" (obj s.jobs)
            (field "queue" (arr (of_strings s.queue)) (field "updated_at" (seconds now) end))))
        s.vault;
}

-- `_load_state`: what a dict holds under a key, if it is a dict or a list
abbrev pub as_dict : Option Value → Fields
as_dict (some (obj d)) = d
as_dict _ = end

abbrev pub as_strings : Option Value → List String
as_strings (some (arr items)) = strings_of items
as_strings _ = []

pub record Loaded : Type 0 where
  pub jobs : Fields
  pub queue : List String
  pub dirty : Bool

abbrev pub requeue : String → Fields → Loaded → Loaded
requeue job_id job l = record {
  jobs = put job_id (obj (put "status" (str "queued") job)) l.jobs;
  queue = l.queue;
  dirty = true;
}

abbrev pub list_queued : String → String → Loaded → Loaded
list_queued job_id status l =
    if status == "queued" && not (contains job_id l.queue)
    then record l { queue = l.queue ++ job_id ∷ []; dirty = true }
    else l

-- The body of the loop over the jobs, for a job that is a dict with this status.
unfoldable pub load_status : String → String → Fields → Loaded → Loaded
load_status job_id status job l =
    if status == "running"
    then list_queued job_id "queued" (requeue job_id job l)
    else list_queued job_id status l

module _ (py : Builtins) where
  unfoldable pub load_job : String → Value → Loaded → Loaded
  unfolding load_status
  load_job job_id (obj job) l =
      load_status job_id (str_of py (get_or "status" (str "queued") job)) job l
  load_job job_id _ l = record l { jobs = del job_id l.jobs; dirty = true }

  unfoldable pub load_jobs : Fields → Loaded → Loaded
  unfolding load_job
  load_jobs end l = l
  load_jobs (field job_id job rest) l = load_jobs rest (load_job job_id job l)

  -- `raw` is the entry of the vault: one that is no dict leaves an empty queue.
  unfoldable pub restore : ℕ → Fields → List AuditEvent → Value → Queue
  unfolding persist load_jobs
  restore now vault log (obj raw) =
      let jobs = as_dict (get "jobs" raw) in
      let start : Loaded = record {
        jobs = jobs;
        queue = as_strings (get "queue" raw);
        dirty = false;
      } in
      let l = load_jobs jobs start in
      let s : Queue = record { jobs = l.jobs; queue = l.queue; vault = vault; audit = log } in
      if l.dirty then persist now s else s
  restore now vault log _ = record { jobs = end; queue = []; vault = vault; audit = log }

  -- `_load_state`
  unfoldable pub load_state : ℕ → Fields → List AuditEvent → Queue
  unfolding restore
  load_state now vault log = restore now vault log (get_or state_key (obj end) vault)

-- `job.get(key)` as a value: `None` if it is not there
abbrev pub or_null : Option Value → Value
or_null none = null
or_null (some v) = v

unfoldable pub public_job : Fields → Fields
public_job job = field "id" (or_null (get "id" job)) (
    field "type" (or_null (get "type" job)) (
      field "status" (or_null (get "status" job)) (
        field "attempts" (or_null (get "attempts" job)) (
          field "max_retries" (or_null (get "max_retries" job)) (
            field "created_at" (or_null (get "created_at" job)) (
              field "updated_at" (or_null (get "updated_at" job)) (
                field "last_error" (or_null (get "last_error" job)) (
                  field "result" (or_null (get "result" job))
                    (field "payload" (or_null (get "payload" job)) end)))))))))

-- `max(0, n)`
abbrev pub at_least_zero : ℤ → ℤ
at_least_zero (pos n) = pos n
at_least_zero (negsuc n) = pos 0

unfoldable pub new_job : String → Fields → ℤ → ℕ → String → Fields
new_job job_type payload max_retries now job_id = field "id" (str job_id) (
    field "type" (str job_type) (
      field "payload" (obj payload) (
        field "status" (str "queued") (
          field "attempts" (int (pos 0)) (
            field "max_retries" (int (at_least_zero max_retries)) (
              field "created_at" (seconds now) (
                field "updated_at" (seconds now) (
                  field "last_error" null (
                    field "result" null
                      (field "run_after" (float (pos (now / 1_000_000 * 1_000_000))) end))))))))))

-- `job_id` is the `uuid4` that the call draws.
unfoldable pub enqueue : String → Fields → ℤ → ℕ → String → Queue → Fields × Queue
unfolding new_job persist
enqueue job_type payload max_retries now job_id s =
    let job = new_job job_type payload max_retries now job_id in
    let s' : Queue = record s {
      jobs = put job_id (obj job) s.jobs;
      queue = s.queue ++ job_id ∷ [];
    } in
    let saved = persist now s' in
    (
      public_job job,
      record saved {
        audit =
            security "job_enqueued" "system"
              (field "job_id" (str job_id) (field "job_type" (str job_type) end)) saved.audit;
      },
    )

abbrev pub get_job : String → Queue → Option Fields
get_job job_id s = elim (get job_id s.jobs) [ some (obj job) ↦ some (public_job job) | _ ↦ none ]

-- `job.get("status") == status`
abbrev pub status_is : String → Fields → Bool
status_is status job = elim (get "status" job) [ some (str s) ↦ s == status | _ ↦ false ]

-- What one turn of the loop of `_dequeue_next_job_id` comes to.
pub data Visit : Type 0 where
  next : Queue → Visit
  stop : Result (Option String) → Queue → Visit

module _ (py : Builtins) (now : ℕ) where
  unfoldable pub claimed : Fields → Fields
  claimed job = put "updated_at" (seconds now) (put "status" (str "running") job)

  unfoldable pub claim : String → Fields → Queue → Queue
  unfolding persist claimed
  claim job_id job s = persist now (record s { jobs = put job_id (obj (claimed job)) s.jobs })

  unfoldable pub visit_due : String → Fields → Result ℤ → Queue → Visit
  unfolding claim
  visit_due job_id job (raised e) s = stop (raised e) s
  visit_due job_id job (ok run_after) s =
      if ltb_ℤ (pos now) run_after
      then next (record s { queue = s.queue ++ job_id ∷ [] })
      else stop (ok (some job_id)) (claim job_id job s)

  -- `s` has the id taken off its queue.
  unfoldable pub visit_job : String → Option Value → Queue → Visit
  unfolding visit_due float_of
  visit_job job_id (some (obj job)) s =
      if status_is "queued" job
      then visit_due job_id job (float_of py (get_or "run_after" (float (pos 0)) job)) s
      else next s
  visit_job job_id _ s = next s

  -- `self._queue.pop(0)` raises on an empty list.
  unfoldable pub visit : List String → Queue → Visit
  unfolding visit_job
  visit [] s = stop (raised (other "pop from empty list")) s
  visit (job_id ∷ rest) s = visit_job job_id (get job_id s.jobs) (record s { queue = rest })

  unfoldable pub scan : ℕ → Queue → Result (Option String) × Queue
  scan zero s = (ok none, s)
  scan (suc rounds) s = elim (visit s.queue s) [ next s' ↦ scan rounds s' | stop r s' ↦ (r, s') ]

  -- `_dequeue_next_job_id`
  unfoldable pub dequeue : Queue → Result (Option String) × Queue
  unfolding scan visit
  dequeue s = scan (length s.queue) s

unfoldable pub completed : ℕ → Fields → Fields → Fields
completed now result job = put "last_error" null (
    put "updated_at" (seconds now) (put "result" (obj result) (put "status" (str "completed") job)))

-- What a method does with the dict of a job; it leaves anything else alone.
abbrev pub on_job {ℓ} : {A : Type ℓ} → Option Value → (Fields → A) → A → A
on_job (some (obj job)) f absent = f job
on_job _ f absent = absent

pub on_job_ind {ℓ κ} :
    {A : Type ℓ} (P : A → Type κ) (o : Option Value) (f : Fields → A) (absent : A)
    → ((job : Fields) → o ≡ some (obj job) → P (f job))
    → P absent
    → P (on_job o f absent)
on_job_ind P (some (obj job)) f absent there rest = there job refl
on_job_ind P none f absent there rest = rest
on_job_ind P (some null) f absent there rest = rest
on_job_ind P (some (bool b)) f absent there rest = rest
on_job_ind P (some (int n)) f absent there rest = rest
on_job_ind P (some (float t)) f absent there rest = rest
on_job_ind P (some (str s)) f absent there rest = rest
on_job_ind P (some (arr xs)) f absent there rest = rest

unfoldable pub mark_completed : ℕ → String → Fields → Queue → Queue
unfolding persist completed
mark_completed now job_id result s =
    on_job (get job_id s.jobs)
      (λ job.
        let saved =
          persist now (record s { jobs = put job_id (obj (completed now result job)) s.jobs }) in
        record saved {
          audit = security "job_completed" "system" (field "job_id" (str job_id) end) saved.audit;
        })
      s

module _ (retry_base now : ℕ) (job_id error : String) where
  unfoldable pub rescheduled : ℤ → Fields → Fields
  rescheduled delay job =
      put "run_after" (float (pos now +ℤ delay *ℤ pos 1_000_000)) (put "status" (str "queued") job)

  -- The branch of `_mark_failed_or_retry` below its limit: the job goes back to the queue.
  unfoldable pub retry : ℤ → Fields → Queue → Queue
  unfolding persist rescheduled
  retry attempts job s =
      let delay = pos retry_base *ℤ attempts in
      let saved = persist now (record s {
        jobs = put job_id (obj (rescheduled delay job)) s.jobs;
        queue = s.queue ++ job_id ∷ [];
      }) in
      record saved {
        audit =
            security "job_retry_scheduled" "system"
              (field "job_id" (str job_id)
                (field "attempts" (int attempts) (field "retry_delay_seconds" (int delay) end)))
              saved.audit;
      }

  unfoldable pub give_up : ℤ → Fields → Queue → Queue
  unfolding persist
  give_up attempts job s =
      let saved =
        persist now
          (record s { jobs = put job_id (obj (put "status" (str "failed") job)) s.jobs }) in
      record saved {
        audit =
            security "job_failed" "system"
              (field "job_id" (str job_id)
                (field "attempts" (int attempts) (field "error" (str error) end)))
              saved.audit;
      }

  -- The fields that are written before `max_retries` is read.
  unfoldable pub noted : ℤ → Fields → Fields
  noted attempts job =
      put "last_error" (str error)
        (put "updated_at" (seconds now) (put "attempts" (int attempts) job))

  -- With both counts read: `int` may raise, and then the fields written so far stay written, and
  -- nothing is saved.
  unfoldable pub failed_again : Result ℤ → Result ℤ → Fields → Queue → Result (Unit {0}) × Queue
  unfolding retry give_up noted
  failed_again (raised e) limit job s = (raised e, s)
  failed_again (ok failures) (raised e) job s =
      (raised e, record s { jobs = put job_id (obj (noted (failures +ℤ pos 1) job)) s.jobs })
  failed_again (ok failures) (ok max_retries) job s =
      let attempts = failures +ℤ pos 1 in
      (
        ok tt,
        if ltb_ℤ max_retries attempts
            then give_up attempts (noted attempts job) s
            else retry attempts (noted attempts job) s,
      )

  unfoldable pub mark_failed_or_retry : Queue → Result (Unit {0}) × Queue
  unfolding failed_again
  mark_failed_or_retry s =
      on_job (get job_id s.jobs)
        (λ job.
          failed_again (int_of (get_or "attempts" (int (pos 0)) job))
            (int_of (get_or "max_retries" (int (pos 0)) job)) job s)
        (ok tt, s)

-- What a handler comes to: the dict that it returns, or the text of what it raises.
pub data Outcome : Type 0 where
  returned : Fields → Outcome
  failed : String → Outcome

abbrev pub Handlers : Type 0
Handlers = String → Option (Fields → Outcome)

module _ (py : Builtins) (retry_base now : ℕ) where
  -- The end of a turn of `_worker_loop`, once the handler is done.
  unfoldable pub settle : String → Outcome → Queue → Result (Unit {0}) × Queue
  unfolding mark_completed mark_failed_or_retry
  settle job_id (returned result) s = (ok tt, mark_completed now job_id result s)
  settle job_id (failed error) s = mark_failed_or_retry retry_base now job_id error s

  -- What the handler of a job does; a type with no handler counts as a failure.
  unfoldable pub run_handler : Handlers → Fields → Outcome
  run_handler handlers job =
      let job_type = str_of py (get_or "type" (str "") job) in
      elim (handlers job_type) [
        | none ↦ failed (concat "No handler registered for job type '" (concat job_type "'."))
        | some handler ↦ handler (as_dict (some (get_or "payload" (obj end) job)))
      ]

  -- One turn of `_worker_loop` during which nothing else runs.
  unfoldable pub worker_turn : Handlers → Queue → Result (Unit {0}) × Queue
  unfolding settle run_handler
  worker_turn handlers s =
      let (picked, s') = dequeue py now s in
      elim picked [
        | raised e ↦ (raised e, s')
        | ok none ↦ (ok tt, s')
        | ok (some job_id) ↦ (elim (get job_id s'.jobs) [
          | some (obj job) ↦ settle job_id (run_handler handlers job) s'
          | _ ↦ (ok tt, s')
        ])
      ]
