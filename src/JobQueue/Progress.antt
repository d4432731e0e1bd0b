-- ===== src/JobQueue/Progress.antt =====
-- Every due job of backend/app/job_queue.py has its turn, whatever other requests and jobs do.
use gitvibe_dev.Prelude.{
  ℕ, suc, ◌<◌, String, ◌≡◌, ◌≢◌, refl, sym, ap, subst, ◌∙◌, true, false, Option, none, some, List,
  [], ◌∷◌, ◌++◌, append_assoc, arith, length, All, contains, inl, inr, ◌==◌, eq_refl, eq_iff,
  String-cases,
}
use gitvibe_dev.Prelude.Int.{ℤ, pos, ltb_ℤ}
use gitvibe_dev.Exc.{Result, ok, raised}
use gitvibe_dev.Json.{float, str, obj, Fields}
use gitvibe_dev.Json.Dict.{get, get_or}
use gitvibe_dev.Json.Convert.{Builtins, float_of}
use gitvibe_dev.JobQueue.{Queue, status_is, claim, dequeue, enqueue, settle, Outcome}
use gitvibe_dev.JobQueue.Dequeue.{due, standing, is_passed, waiting, dequeue-Explains}
use gitvibe_dev.JobQueue.Timely.{
  IsTimely, enqueue-IsTimely, dequeue-IsTimely, settle-IsTimely, dequeue-unbroken,
}
use gitvibe_dev.JobQueue.Frame.{
  Leaves, Leaves-refl, Leaves-trans, enqueue-Leaves, settle-Leaves, get-explained,
}
use gitvibe_dev.JobQueue.Places.{ahead, same, behind, place, All-middle, shorter}

-- A call of `enqueue`, with the id that it draws
pub record EnqueueCall : Type 0 where
  pub job_type : String
  pub payload : Fields
  pub max_retries : ℤ
  pub now : ℕ
  pub job_id : String

-- A turn of `_worker_loop`: the time of its call of `_dequeue_next_job_id`, the requests that come
-- while the handler runs, how and when the run ends, and the requests that come before the next turn.
pub record Turn : Type 0 where
  pub now : ℕ
  pub during : List EnqueueCall
  pub outcome : Outcome
  pub settled_at : ℕ
  pub after : List EnqueueCall

pub ask_all : List EnqueueCall → Queue → Queue
ask_all [] s = s
ask_all (r ∷ rs) s = ask_all rs (enqueue r.job_type r.payload r.max_retries r.now r.job_id s).1

module _ (py : Builtins) (retry_base : ℕ) where
  pub turn_over : Turn → Result (Option String) × Queue → Queue
  turn_over t (ok (some k), q) =
      ask_all t.after (settle py retry_base t.settled_at k t.outcome (ask_all t.during q)).1
  turn_over t (ok none, q) = ask_all t.after (ask_all t.during q)
  turn_over t (raised e, q) = ask_all t.after (ask_all t.during q)

  -- The ids that the worker is given in these turns
  pub given : List Turn → Queue → List String
  unfolding turn_over
  given [] s = []
  given (t ∷ ts) s =
      let rest = given ts (turn_over t (dequeue py t.now s)) in
      elim (dequeue py t.now s).0 [ ok (some job_id) ↦ job_id ∷ rest | _ ↦ rest ]

  ask_all-IsTimely :
      (rs : List EnqueueCall) (s : Queue) → IsTimely py s → IsTimely py (ask_all rs s)
  unfolding ask_all
  ask_all-IsTimely [] s h = h
  ask_all-IsTimely (r ∷ rs) s h =
      ask_all-IsTimely rs (enqueue r.job_type r.payload r.max_retries r.now r.job_id s).1
        (enqueue-IsTimely py r.now r.job_type r.payload r.max_retries r.job_id s h)

  turn_over-IsTimely :
      (t : Turn) (r : Result (Option String)) (q : Queue)
      → IsTimely py q
      → IsTimely py (turn_over t (r, q))
  unfolding turn_over
  turn_over-IsTimely t (ok (some k)) q h = ask_all-IsTimely t.after _ (
      settle-IsTimely py t.settled_at retry_base k t.outcome (ask_all t.during q)
        (ask_all-IsTimely t.during q h))
  turn_over-IsTimely t (ok none) q h =
      ask_all-IsTimely t.after (ask_all t.during q) (ask_all-IsTimely t.during q h)
  turn_over-IsTimely t (raised e) q h =
      ask_all-IsTimely t.after (ask_all t.during q) (ask_all-IsTimely t.during q h)

  module _ (i : String) where
    -- The ids of the requests are other ids.
    abbrev pub AreOthers : List EnqueueCall → Type 0
    AreOthers = All (λ r. (r.job_id == i) ≡ false)

    ask_all-Leaves : (rs : List EnqueueCall) (s : Queue) → AreOthers rs → Leaves i s (ask_all rs s)
    unfolding ask_all
    ask_all-Leaves [] s h = Leaves-refl i s
    ask_all-Leaves (r ∷ rs) s h =
        let s' = (enqueue r.job_type r.payload r.max_retries r.now r.job_id s).1 in
        Leaves-trans i s s' (ask_all rs s')
          (enqueue-Leaves i r.job_id h.0 r.job_type r.payload r.max_retries r.now s)
          (ask_all-Leaves rs s' h.1)

    turn_over-Leaves :
        (t : Turn) (k : String) (q : Queue)
        → (k == i) ≡ false
        → AreOthers t.during
        → AreOthers t.after
        → Leaves i q (turn_over t (ok (some k), q))
    unfolding turn_over
    turn_over-Leaves t k q ne during after =
        let asked = ask_all t.during q in
        let done = (settle py retry_base t.settled_at k t.outcome asked).1 in
        Leaves-trans i q asked (ask_all t.after done) (ask_all-Leaves t.during q during) (
          Leaves-trans i asked done (ask_all t.after done)
            (settle-Leaves i k ne t.settled_at py retry_base t.outcome asked)
            (ask_all-Leaves t.after done after))

    module _ (job : Fields) (run_after : ℤ) (waits : get "status" job ≡ some (str "queued"))
        (reads : float_of py (get_or "run_after" (float (pos 0)) job) ≡ ok run_after) where
      -- A turn that starts when the job is due, with requests for other jobs
      abbrev pub IsCalm : Turn → Type 0
      IsCalm t = (ltb_ℤ (pos t.now) run_after ≡ false) × AreOthers t.during × AreOthers t.after

      is_due :
          (now : ℕ) (s : Queue)
          → get i s.jobs ≡ some (obj job)
          → ltb_ℤ (pos now) run_after ≡ false
          → standing py now (get i s.jobs) ≡ due job
      is_due now s found late =
          let queued : status_is "queued" job ≡ true = rw (waits, status_is) in
          rw (found, queued, reads, late)

      abbrev Passed : ℕ → Queue → List String → Type 0
      Passed now s = All (λ k. is_passed (standing py now (get k s.jobs)) ≡ true)

      not-Passed :
          (now : ℕ) (s : Queue) (xs ys : List String)
          → standing py now (get i s.jobs) ≡ due job
          → Passed now s (xs ++ i ∷ ys)
          → ⊥
      not-Passed now s xs ys d h =
          cc (
            rw d at (All-middle (λ k. is_passed (standing py now (get k s.jobs)) ≡ true) xs i ys h))

      -- The state of the job in the queue: it stands behind `before`.
      record Stands (before : List String) (s : Queue) : Type 0 where
        after : List String
        queue : s.queue ≡ before ++ i ∷ after
        found : get i s.jobs ≡ some (obj job)
        timely : IsTimely py s

      next-Stands :
          (t : Turn) (s : Queue) (k : String) (mid rest : List String)
          → IsCalm t
          → (k == i) ≡ false
          → get i s.jobs ≡ some (obj job)
          → IsTimely py s
          → (dequeue py t.now s).0 ≡ ok (some k)
          → (dequeue py t.now s).1.queue ≡ mid ++ i ∷ rest
          → Stands mid (turn_over t (dequeue py t.now s))
      next-Stands t s k mid rest calm ne found timely gives queue =
          let q = (dequeue py t.now s).1 in
          let explained = dequeue-Explains py t.now s in
          let leaves : Leaves i q (turn_over t (dequeue py t.now s)) =
            subst (λ r. Leaves i q (turn_over t (r, q))) (sym gives)
              (turn_over-Leaves t k q ne calm.1 calm.2) in
          let other : (dequeue py t.now s).0 ≢ ok (some i) = λ e. is_other k ne (sym gives ∙ e) in
          record {
            after = rest ++ leaves.tail;
            queue =
                leaves.queue
                ∙ ap (λ xs. xs ++ leaves.tail) queue
                ∙ append_assoc mid (i ∷ rest) leaves.tail;
            found = leaves.job ∙ get-explained py t.now s i _ _ other explained ∙ found;
            timely = turn_over-IsTimely t _ q (dequeue-IsTimely py t.now s timely);
          }
        where
          is_other : (k : String) → (k == i) ≡ false → ok (some k) ≢ ok (some i)
          is_other k ne e = ground (arith, eq_iff k i)

      IsServing : List Turn → Type 0
      IsServing ts =
          (s : Queue) (before : List String)
          → Stands before s
          → length before < length ts
          → contains i (given ts s) ≡ true

      abbrev seen : List Turn → Result (Option String) → Queue → List String
      seen ts r q = elim r [ ok (some k) ↦ k ∷ given ts q | _ ↦ given ts q ]

      -- A call that gives the worker `k`
      serve :
          (t : Turn) (ts : List Turn) (s : Queue) (before : List String) (k : String)
          → IsServing ts
          → IsCalm t
          → Stands before s
          → length before < suc (length ts)
          → (dequeue py t.now s).0 ≡ ok (some k)
          → contains i (k ∷ given ts (turn_over t (dequeue py t.now s))) ≡ true
      unfolding claim IsServing
      serve t ts s before k ih calm h lt gives =
          let (pre, post, taken, e, over, d, same_q) = rw gives at (dequeue-Explains py t.now s) in
          let now_due = is_due t.now s h.found calm.0 in
          elim (String-cases k i) [
            | inl found ↦ rw (found, eq_refl) refl
            | inr other ↦ elim (place before h.after pre post i k (sym h.queue ∙ e)) [
              | same found ↦ rw (found, eq_refl) refl
              | behind mid b ↦
                  absurd (not-Passed t.now s before mid now_due (subst (Passed t.now s) b over))
              | ahead mid b c ↦ rw other (
                  ih (turn_over t (dequeue py t.now s)) mid
                    (next-Stands t s k mid (h.after ++ waiting py t.now s pre) calm other h.found
                      h.timely gives
                      (ap (λ (q : Queue). q.queue) same_q
                        ∙ ap (λ x. x ++ waiting py t.now s pre) c
                        ∙ append_assoc mid (i ∷ h.after) (waiting py t.now s pre)))
                    (shorter before pre mid k (length ts) b lt))
            ]
          ]

      turn-IsServing :
          (t : Turn) (ts : List Turn) (s : Queue) (before : List String)
          (r : Result (Option String))
          → IsServing ts
          → IsCalm t
          → Stands before s
          → length before < suc (length ts)
          → (dequeue py t.now s).0 ≡ r
          → contains i (seen ts r (turn_over t (dequeue py t.now s))) ≡ true
      turn-IsServing t ts s before (ok (some k)) ih calm h lt e =
          serve t ts s before k ih calm h lt e
      turn-IsServing t ts s before (raised x) ih calm h lt e =
          absurd (dequeue-unbroken py t.now s x h.timely e)
      turn-IsServing t ts s before (ok none) ih calm h lt e =
          let (over, q) = rw e at (dequeue-Explains py t.now s) in
          absurd (
            not-Passed t.now s before h.after (is_due t.now s h.found calm.0)
              (subst (Passed t.now s) h.queue over))

      given-IsServing : (ts : List Turn) → All IsCalm ts → IsServing ts
      unfolding given IsServing
      given-IsServing [] calm s before h lt = absurd (omega (arith, lt))
      given-IsServing (t ∷ ts) calm s before h lt =
          turn-IsServing t ts s before (dequeue py t.now s).0 (given-IsServing ts calm.1) calm.0 h
            lt refl

-- Every due job has its turn. A job waits behind `before` on the queue, the times of all jobs can be
-- read, and the worker goes on without a restart: in each turn it asks for a job at some time at which the job is due,
-- the run of what it is given ends in any way and at any time, and requests enqueue other jobs
-- meanwhile and before the next turn. Then the worker is given the job in one of as many turns as
-- there are ids in `before`, and one more.
pub given-contains :
    (py : Builtins) (retry_base : ℕ) (i : String) (job : Fields) (run_after : ℤ) (ts : List Turn)
    (s : Queue) (before after : List String)
    → (waits : get "status" job ≡ some (str "queued"))
    → (reads : float_of py (get_or "run_after" (float (pos 0)) job) ≡ ok run_after)
    → s.queue ≡ before ++ i ∷ after
    → get i s.jobs ≡ some (obj job)
    → IsTimely py s
    → All (IsCalm py retry_base i job run_after waits reads) ts
    → length before < length ts
    → contains i (given py retry_base ts s) ≡ true
unfolding IsServing
given-contains py retry_base i job run_after ts s before after waits reads queue found timely calm =
    given-IsServing py retry_base i job run_after waits reads ts calm s before
      (record { after = after; queue = queue; found = found; timely = timely })
