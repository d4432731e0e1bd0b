-- ===== src/JobQueue/Tests.antt =====
-- Runs of the queue on small inputs, and the theorems at concrete inputs.
use gitvibe_dev.Prelude.{true, false, ◌≡◌, refl, none, some, [], ◌∷◌, arith, contains}
use gitvibe_dev.Prelude.Int.{pos, negsuc}
use gitvibe_dev.Exc.{ok}
use gitvibe_dev.Json.{null, str, obj, Fields, end, field}
use gitvibe_dev.Json.Convert.{Builtins, float_of}
use gitvibe_dev.JobQueue.{Queue, enqueue, dequeue, load_state, state_key, settle, failed, new_job}
use gitvibe_dev.JobQueue.Loading.{IsRecovered, load_state-IsRecovered}
use gitvibe_dev.JobQueue.Dequeue.{Explains, dequeue-Explains}
use gitvibe_dev.JobQueue.Progress.{Turn, given, given-contains}
use gitvibe_dev.JobQueue.Timely.{IsTimely}
use gitvibe_dev.JobQueue.Retry.{
  Runs, here as begun, requested, started, failing, IsTried, enqueue-IsTried,
}
use gitvibe_dev.JobQueue.Lifecycle.{
  World, claims, enqueued, Reach, here, next, IsSound, Reach-IsSound,
}

abbrev py : Builtins
py = record { repr = λ v. "?"; parse_float = λ s. none }

abbrev empty : Queue
empty = record { jobs = end; queue = []; vault = end; audit = [] }

abbrev two_jobs : Queue
unfolding enqueue
two_jobs =
    (enqueue "ai_review" end (pos 2) 9_000_000 "b"
      (enqueue "ai_review" end (negsuc 4) 5_000_000 "a" empty).1).1

-- The job that is due is taken, the other one stays.
dequeue_due : (dequeue py 6_000_000 two_jobs).0 ≡ ok (some "a")
unfolding dequeue two_jobs
dequeue_due = refl

dequeue_rotates :
    (dequeue py 6_000_000 (record two_jobs { queue = "b" ∷ "a" ∷ [] })).1.queue ≡ "b" ∷ []
unfolding dequeue two_jobs
dequeue_rotates = refl

-- The only vault entry of a test, with a job that was running when the program stopped.
abbrev stopped : Fields
stopped =
    field state_key
      (obj (
        field "jobs"
          (obj (field "a" (obj (field "status" (str "running") end)) (field "b" null end)))
          (field "queue" (str "?") end)))
      end

load_state-stopped :
    (load_state py 7 stopped []).jobs ≡ field "a" (obj (field "status" (str "queued") end)) end
unfolding load_state
load_state-stopped = refl

load_state-IsRecovered_example : IsRecovered (load_state py 7 stopped [])
load_state-IsRecovered_example = load_state-IsRecovered py 7 stopped [] (refl, (refl, tt))

dequeue-Explains_example :
    Explains py 6_000_000 two_jobs two_jobs.queue []
      (dequeue py 6_000_000 two_jobs).0
      (dequeue py 6_000_000 two_jobs).1
dequeue-Explains_example = dequeue-Explains py 6_000_000 two_jobs

empty-IsTimely : IsTimely py empty
empty-IsTimely = record { jobs = tt; stored = tt }

-- A job that may be retried once, another job that is enqueued behind it, and the first run.
abbrev asked : Queue
unfolding enqueue
asked =
    (enqueue "ai_review" end (pos 0) 500_000 "a" (enqueue "ai_review" end (pos 1) 0 "c" empty).1).1

taken : (dequeue py 1_000_000 asked).0 ≡ ok (some "c")
unfolding dequeue asked
taken = refl

first_run :
    Runs py 2 "c"
      (enqueue "ai_review" end (pos 1) 0 "c" empty).1
      1
      false
      (settle py 2 2_000_000 "c" (failed "down") (dequeue py 1_000_000 asked).1).1
unfolding asked
first_run =
    failing 2_000_000 "down"
      (started 1_000_000 (requested "ai_review" end (pos 0) 500_000 "a" begun refl) taken)

enqueue-IsTried_example :
    IsTried py 2 "c" 1 1 false
      (settle py 2 2_000_000 "c" (failed "down") (dequeue py 1_000_000 asked).1).1
enqueue-IsTried_example =
    enqueue-IsTried py 2 "c" "ai_review" end 1 0 empty 1 false _ empty-IsTimely first_run

empty-IsSound : IsSound py (record { queue = empty; worker = none })
empty-IsSound = record {
  timely = record { jobs = tt; stored = tt };
  keeps = λ j job found queued. cc;
  runs = λ j busy. cc;
}

-- Two requests, and the worker that takes the first job.
abbrev start : World
start = record { queue = empty; worker = none }

two_steps : Reach py 2 start (record { queue = two_jobs; worker = none })
unfolding two_jobs
two_steps = next (next here (enqueued start "ai_review" end (negsuc 4) 5_000_000 "a" refl)) (
    enqueued
      (record { queue = (enqueue "ai_review" end (negsuc 4) 5_000_000 "a" empty).1; worker = none })
      "ai_review" end (pos 2) 9_000_000 "b" refl)

Reach-IsSound_example :
    IsSound py (record { queue = (dequeue py 6_000_000 two_jobs).1; worker = some "a" })
Reach-IsSound_example = Reach-IsSound py 2 empty-IsSound (
    next two_steps
      (claims (record { queue = two_jobs; worker = none }) 6_000_000 "a" refl dequeue_due))

two_jobs-IsTimely : IsTimely py two_jobs
unfolding two_jobs float_of
two_jobs-IsTimely = record {
  jobs = ((_, refl), ((_, refl), tt));
  stored = ((_, refl), ((_, refl), tt));
}

abbrev busy_turn : Turn
busy_turn = record {
  now = 10_000_000;
  during =
      record {
        job_type = "ai_review";
        payload = end;
        max_retries = pos 1;
        now = 10_500_000;
        job_id = "c";
      }
      ∷ [];
  outcome = failed "down";
  settled_at = 11_000_000;
  after = [];
}

given-contains_example : contains "b" (given py 2 (busy_turn ∷ busy_turn ∷ []) two_jobs) ≡ true
unfolding two_jobs float_of
given-contains_example =
    given-contains py 2 "b" (new_job "ai_review" end (pos 2) 9_000_000 "b") (pos 9_000_000)
      (busy_turn ∷ busy_turn ∷ []) two_jobs ("a" ∷ []) [] refl refl refl refl two_jobs-IsTimely
      ((refl, (refl, tt), tt), ((refl, (refl, tt), tt), tt)) (omega arith)
