-- ===== src/JobQueue/Restored.antt =====
-- `_load_state` of backend/app/job_queue.py keeps the times of the jobs readable.
use gitvibe_dev.Prelude.{
  ℕ, String, inl, inr, Bool, true, false, Bool-cases, List, arith, ◌==◌, if◌then◌else◌,
}
use gitvibe_dev.Json.{Value, str, obj, Fields, end, field}
use gitvibe_dev.Json.Dict.{get, get_or, put, get_or-put}
use gitvibe_dev.Json.Convert.{Builtins, str_of}
use gitvibe_dev.Audit.{AuditEvent}
use gitvibe_dev.JobQueue.{
  Queue, Loaded, persist, load_state, load_jobs, load_job, load_status, list_queued, requeue,
  restore, as_dict, as_strings, state_key,
}
use gitvibe_dev.JobQueue.Loading.{stored_jobs}
use gitvibe_dev.JobQueue.Timely.{
  ReadsTime, ReadsValue, IsReadable, IsTimely, put-IsReadable, del-IsReadable, same_time,
  persist-IsTimely,
}

module _ (py : Builtins) where
  list_queued-IsReadable :
      (k status : String) (l : Loaded)
      → IsReadable py l.jobs
      → IsReadable py (list_queued k status l).jobs
  list_queued-IsReadable k status l h = ground arith

  load_status-IsReadable :
      (k status : String) (job : Fields) (l : Loaded)
      → ReadsTime py job
      → IsReadable py l.jobs
      → IsReadable py (load_status k status job l).jobs
  unfolding load_status
  load_status-IsReadable k status job l t h = elim (Bool-cases (status == "running")) [
    | inl e ↦ rw e (
        list_queued-IsReadable k "queued" (requeue k job l) (
          put-IsReadable py k (put "status" (str "queued") job) l.jobs
            (same_time py job (put "status" (str "queued") job) (simp get_or-put) t) h))
    | inr e ↦ rw e (list_queued-IsReadable k status l h)
  ]

  load_job-IsReadable :
      (k : String) (v : Value) (l : Loaded)
      → ReadsValue py v
      → IsReadable py l.jobs
      → IsReadable py (load_job py k v l).jobs
  unfolding load_job
  load_job-IsReadable k (obj job) l t h =
      load_status-IsReadable k (str_of py (get_or "status" (str "queued") job)) job l t h
  load_job-IsReadable k v l t h = del-IsReadable py k l.jobs h

  load_jobs-IsReadable :
      (es : Fields) (l : Loaded)
      → IsReadable py es
      → IsReadable py l.jobs
      → IsReadable py (load_jobs py es l).jobs
  unfolding load_jobs
  load_jobs-IsReadable end l e h = h
  load_jobs-IsReadable (field k v es) l e h =
      load_jobs-IsReadable es (load_job py k v l) e.1 (load_job-IsReadable k v l e.0 h)

  saved-IsTimely :
      (now : ℕ) (dirty : Bool) (s : Queue)
      → IsTimely py s
      → IsTimely py (if dirty then persist now s else s)
  saved-IsTimely now true s h = persist-IsTimely py now s h.jobs
  saved-IsTimely now false s h = h

  restore-IsTimely :
      (now : ℕ) (vault : Fields) (log : List AuditEvent) (raw : Value)
      → IsReadable py (stored_jobs (get_or state_key (obj end) vault))
      → IsReadable py (stored_jobs raw)
      → IsTimely py (restore py now vault log raw)
  unfolding restore
  restore-IsTimely now vault log (obj raw) v h =
      let jobs = as_dict (get "jobs" raw) in
      let start : Loaded = record {
        jobs = jobs;
        queue = as_strings (get "queue" raw);
        dirty = false;
      } in
      let l = load_jobs py jobs start in
      saved-IsTimely now l.dirty
        (record { jobs = l.jobs; queue = l.queue; vault = vault; audit = log })
        (record { jobs = load_jobs-IsReadable jobs start h h; stored = v })
  restore-IsTimely now vault log raw v h = record { jobs = tt; stored = v }

  pub load_state-IsTimely :
      (now : ℕ) (vault : Fields) (log : List AuditEvent)
      → IsReadable py (stored_jobs (get_or state_key (obj end) vault))
      → IsTimely py (load_state py now vault log)
  unfolding load_state
  load_state-IsTimely now vault log h =
      restore-IsTimely now vault log (get_or state_key (obj end) vault) h h
