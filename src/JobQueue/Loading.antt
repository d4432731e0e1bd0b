-- ===== src/JobQueue/Loading.antt =====
-- `_load_state` of backend/app/job_queue.py: what holds of the queue after a start.
use gitvibe_dev.Prelude.{
  ℕ, String, ◌≡◌, refl, sym, ap, subst, ◌∙◌, inl, inr, ◌≢◌, true, false, some, List, [], ◌∷◌, arith,
  contains, contains-append, contains-append_last, ◌==◌, eq_iff, eq_refl, String-cases, Bool-cases,
}
use gitvibe_dev.Json.{Value, str, obj, Fields, end, field}
use gitvibe_dev.Json.Dict.{get, get_or, put, has, get-put, get-del, get-put_self}
use gitvibe_dev.Json.Convert.{Builtins, str_of}
use gitvibe_dev.Audit.{AuditEvent}
use gitvibe_dev.JobQueue.{
  Queue, Loaded, requeue, load_status, list_queued, load_job, load_jobs, load_state, restore,
  as_dict, as_strings, state_key,
}

-- A dict holds a key once.
abbrev pub IsDistinct : Fields → Type 0
IsDistinct end = Unit
IsDistinct (field k v d) = (has k d ≡ false) × IsDistinct d

-- A job that waits is on the queue, and no job runs.
abbrev IsSettled : String → Loaded → Type 0
IsSettled k l =
    (job : Fields)
    → get k l.jobs ≡ some (obj job)
    → (get "status" job ≢ some (str "running"))
      × (get "status" job ≡ some (str "queued") → contains k l.queue ≡ true)

str_of-get_or :
    (py : Builtins) (job : Fields) (t : String)
    → get "status" job ≡ some (str t)
    → str_of py (get_or "status" (str "queued") job) ≡ t
str_of-get_or py job t e = rw (e, str_of)

jobs-list_queued : (k status : String) (l : Loaded) → (list_queued k status l).jobs ≡ l.jobs
jobs-list_queued k status l = ground arith

contains-list_queued_self :
    (k : String) (l : Loaded) → contains k (list_queued k "queued" l).queue ≡ true
contains-list_queued_self k l = ground (arith, contains-append_last k l.queue)

get-status_requeued :
    (k : String) (job job' : Fields) (l : Loaded)
    → get k (list_queued k "queued" (requeue k job l)).jobs ≡ some (obj job')
    → get "status" job' ≡ some (str "queued")
get-status_requeued k job job' l e =
    let new = put "status" (str "queued") job in
    let same : some (obj new) ≡ some (obj job') =
      sym (get-put_self k (obj new) l.jobs)
      ∙ ap (get k) (sym (jobs-list_queued k "queued" (requeue k job l)))
      ∙ e in
    let eq : new ≡ job' = cc same in
    subst (λ d. get "status" d ≡ some (str "queued")) eq (get-put_self "status" (str "queued") job)

pub queued≢running : some (str "queued") ≢ some (str "running")
queued≢running e = ground (arith, eq_iff "queued" "running")

-- Whatever its status was, the job is settled after its turn.
load_status-IsSettled_self :
    (k status : String) (job : Fields) (l : Loaded)
    → get k l.jobs ≡ some (obj job)
    → ((t : String) → get "status" job ≡ some (str t) → status ≡ t)
    → IsSettled k (load_status k status job l)
unfolding load_status
load_status-IsSettled_self k status job l at reads = elim (Bool-cases (status == "running")) [
  | inl e ↦ rw e (λ job' e'.
      let queued = get-status_requeued k job job' l e' in
      (λ r. queued≢running (sym queued ∙ r), λ _. contains-list_queued_self k (requeue k job l)))
  | inr e ↦ rw e (λ job' e'.
      let same : job ≡ job' = cc (at, jobs-list_queued k status l, e') in
      (
        λ r. ground (arith, reads "running" (ap (get "status") same ∙ r), eq_iff status "running"),
        λ q. rw (reads "queued" (ap (get "status") same ∙ q)) (contains-list_queued_self k l),
      ))
]

module _ (py : Builtins) where
  get-load_job_ne :
      (j k : String) (v : Value) (l : Loaded)
      → (j == k) ≡ false
      → get k (load_job py j v l).jobs ≡ get k l.jobs
  unfolding load_job
  get-load_job_ne j k (obj job) l h =
      ground (arith, get-put j k (obj (put "status" (str "queued") job)) l.jobs)
  get-load_job_ne j k v l h = ground (arith, get-del j k l.jobs)

  contains-list_queued :
      (j k s : String) (l : Loaded)
      → contains k l.queue ≡ true
      → contains k (list_queued j s l).queue ≡ true
  contains-list_queued j k s l h = ground (arith, contains-append k l.queue (j ∷ []))

  contains-load_job :
      (j k : String) (v : Value) (l : Loaded)
      → contains k l.queue ≡ true
      → contains k (load_job py j v l).queue ≡ true
  unfolding load_job
  contains-load_job j k (obj job) l h = ground (arith, contains-append k l.queue (j ∷ []))
  contains-load_job j k v l h = h

  load_job-IsSettled_ne :
      (j k : String) (v : Value) (l : Loaded)
      → (j == k) ≡ false
      → IsSettled k l
      → IsSettled k (load_job py j v l)
  load_job-IsSettled_ne j k v l h settled job e =
      let (idle, listed) = settled job (sym (get-load_job_ne j k v l h) ∙ e) in
      (idle, λ q. contains-load_job j k v l (listed q))

  load_job-IsSettled_self :
      (k : String) (v : Value) (l : Loaded)
      → get k l.jobs ≡ some v
      → IsSettled k (load_job py k v l)
  unfolding load_job
  load_job-IsSettled_self k (obj j) l at =
      load_status-IsSettled_self k (str_of py (get_or "status" (str "queued") j)) j l at
        (str_of-get_or py j)
  load_job-IsSettled_self k v l at = λ job e. ground (arith, eq_refl k, get-del k k l.jobs)

  -- Every key is settled once the loop has been through the dict.
  load_jobs-IsSettled :
      (es : Fields) (l : Loaded) (k : String)
      → IsDistinct es
      → ((j : String) (v : Value) → get j es ≡ some v → get j l.jobs ≡ some v)
      → (has k es ≡ false → IsSettled k l)
      → IsSettled k (load_jobs py es l)
  unfolding load_jobs
  load_jobs-IsSettled end l k d at rest = rest refl
  load_jobs-IsSettled (field j v es) l k d at rest =
      load_jobs-IsSettled es (load_job py j v l) k d.1
        (λ i w e. elim (String-cases j i) [
          | inl same ↦ absurd (distinct_get i w (rw same at d.0) e)
          | inr ne ↦ get-load_job_ne j i v l ne ∙ at i w (rw ne e)
        ])
        (λ absent. elim (String-cases j k) [
          | inl same ↦
              subst (λ i. IsSettled i (load_job py j v l)) same
                (load_job-IsSettled_self j v l (at j v (rw eq_refl)))
          | inr ne ↦ load_job-IsSettled_ne j k v l ne (rest (rw (has, ne) absent))
        ])
    where
      distinct_get : (i : String) (w : Value) → has i es ≡ false → get i es ≡ some w → ⊥
      distinct_get i w no_key e = ground arith

-- A queue that lost no job: a job that waits is on the queue, and no job is marked as running.
pub record IsRecovered (s : Queue) : Type 0 where
  pub queued :
      (job_id : String) (job : Fields)
      → get job_id s.jobs ≡ some (obj job)
      → get "status" job ≡ some (str "queued")
      → contains job_id s.queue ≡ true
  pub idle :
      (job_id : String) (job : Fields)
      → get job_id s.jobs ≡ some (obj job)
      → get "status" job ≢ some (str "running")

-- The jobs of an entry of the vault.
abbrev pub stored_jobs : Value → Fields
stored_jobs (obj raw) = as_dict (get "jobs" raw)
stored_jobs _ = end

restore-IsRecovered :
    (py : Builtins) (now : ℕ) (vault : Fields) (log : List AuditEvent) (raw : Value)
    → IsDistinct (stored_jobs raw)
    → IsRecovered (restore py now vault log raw)
unfolding restore
restore-IsRecovered py now vault log (obj raw) d =
    let jobs = as_dict (get "jobs" raw) in
    let start : Loaded = record {
      jobs = jobs;
      queue = as_strings (get "queue" raw);
      dirty = false;
    } in
    let settled : (k : String) → IsSettled k (load_jobs py jobs start) =
      λ k. load_jobs-IsSettled py jobs start k d (λ j v h. h) (λ absent job h. ground arith) in
    record {
      queued = λ k job e. ground (arith, settled k job);
      idle = λ k job e. ground (arith, settled k job);
    }
restore-IsRecovered py now vault log _ d = record {
  queued = λ k job e. ground arith;
  idle = λ k job e. ground arith;
}

-- Whatever the vault holds, if no job id stands twice in it: after a start no job is marked as
-- running, and every job that waits is on the queue.
pub load_state-IsRecovered :
    (py : Builtins) (now : ℕ) (vault : Fields) (log : List AuditEvent)
    → IsDistinct (stored_jobs (get_or state_key (obj end) vault))
    → IsRecovered (load_state py now vault log)
unfolding load_state
load_state-IsRecovered py now vault log =
    restore-IsRecovered py now vault log (get_or state_key (obj end) vault)
