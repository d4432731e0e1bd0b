-- ===== src/JobQueue/Dequeue.antt =====
-- `_dequeue_next_job_id` of backend/app/job_queue.py: which job a worker gets, and what becomes of
-- the queue.
use gitvibe_dev.Prelude.{
  ℕ, String, ◌≡◌, refl, sym, ap, subst, ◌∙◌, Bool, true, false, Option, none, some, List, [], ◌∷◌,
  ◌++◌, append-nil, append_assoc, arith, length, select, All, if◌then◌else◌,
}
use gitvibe_dev.Prelude.Int.{ℤ, pos, ltb_ℤ}
use gitvibe_dev.Exc.{Exc, Result, ok, raised}
use gitvibe_dev.Json.{Value, null, bool, int, float, str, arr, obj, Fields}
use gitvibe_dev.Json.Dict.{get, get_or}
use gitvibe_dev.Json.Convert.{Builtins, float_of}
use gitvibe_dev.JobQueue.{
  Queue, Visit, next, stop, status_is, claim, visit_due, visit_job, visit, scan, dequeue,
}

-- How a job stands when its turn comes.
pub data Standing : Type 0 where
  -- it is not there, or it does not wait
  gone : Standing
  -- it waits, and its time has not come
  later : Standing
  due : Fields → Standing
  -- its time cannot be read
  broken : Exc → Standing

module _ (py : Builtins) (now : ℕ) where
  abbrev pub timed : Fields → Result ℤ → Standing
  timed job (raised e) = broken e
  timed job (ok run_after) = if ltb_ℤ (pos now) run_after then later else due job

  abbrev pub standing : Option Value → Standing
  standing (some (obj job)) =
      if status_is "queued" job
      then timed job (float_of py (get_or "run_after" (float (pos 0)) job))
      else gone
  standing _ = gone

abbrev pub is_later : Standing → Bool
is_later later = true
is_later _ = false

-- Neither due nor broken: the loop goes on behind such a job.
abbrev pub is_passed : Standing → Bool
is_passed gone = true
is_passed later = true
is_passed _ = false

module _ (py : Builtins) (now : ℕ) (s : Queue) where
  abbrev stands : String → Standing
  stands job_id = standing py now (get job_id s.jobs)

  abbrev outcome : String → List String → Standing → Visit
  outcome job_id rest gone = next (record s { queue = rest })
  outcome job_id rest later = next (record s { queue = rest ++ job_id ∷ [] })
  outcome job_id rest (due job) =
      stop (ok (some job_id)) (claim py now job_id job (record s { queue = rest }))
  outcome job_id rest (broken e) = stop (raised e) (record s { queue = rest })

visit_due-timed :
    (py : Builtins) (now : ℕ) (job_id : String) (job : Fields) (r : Result ℤ) (s : Queue)
    (rest : List String)
    → visit_due py now job_id job r (record s { queue = rest })
      ≡ outcome py now s job_id rest (timed py now job r)
unfolding visit_due
visit_due-timed py now job_id job (raised e) s rest = refl
visit_due-timed py now job_id job (ok run_after) s rest = ground arith

visit_queued :
    (py : Builtins) (now : ℕ) (job_id : String) (job : Fields) (rest : List String) (s : Queue)
    (b : Bool)
    → (if b
        then visit_due py now job_id job
            (float_of py (get_or "run_after" (float (pos 0)) job))
            (record s { queue = rest })
        else next (record s { queue = rest }))
      ≡ outcome py now s job_id rest (
          if b
          then timed py now job (float_of py (get_or "run_after" (float (pos 0)) job))
          else gone)
visit_queued py now job_id job rest s true = visit_due-timed py now job_id job _ s rest
visit_queued py now job_id job rest s false = refl

visit_job-standing :
    (py : Builtins) (now : ℕ) (job_id : String) (o : Option Value) (rest : List String) (s : Queue)
    → visit_job py now job_id o (record s { queue = rest })
      ≡ outcome py now s job_id rest (standing py now o)
unfolding visit_job
visit_job-standing py now job_id (some (obj job)) rest s =
    visit_queued py now job_id job rest s (status_is "queued" job)
visit_job-standing py now job_id none rest s = refl
visit_job-standing py now job_id (some null) rest s = refl
visit_job-standing py now job_id (some (bool b)) rest s = refl
visit_job-standing py now job_id (some (int n)) rest s = refl
visit_job-standing py now job_id (some (float t)) rest s = refl
visit_job-standing py now job_id (some (str t)) rest s = refl
visit_job-standing py now job_id (some (arr xs)) rest s = refl

module _ (py : Builtins) (now : ℕ) (s : Queue) where
  abbrev st : String → Standing
  st job_id = standing py now (get job_id s.jobs)

  abbrev Passed : List String → Type 0
  Passed = All (λ job_id. is_passed (st job_id) ≡ true)

  abbrev pub waiting : List String → List String
  waiting = select (λ job_id. is_later (st job_id))

  -- What the loop may come to, from the ids `pending` in front of the ids `deferred`.
  abbrev pub Explains : List String → List String → Result (Option String) → Queue → Type 0
  Explains pending deferred (ok none) q =
      Passed pending × (q ≡ record s { queue = deferred ++ waiting pending })
  Explains pending deferred (ok (some job_id)) q =
      (pre : List String) × (post : List String) × (job : Fields) × (pending ≡ pre ++ job_id ∷ post)
      × Passed pre
      × (st job_id ≡ due job)
      × (q ≡ claim py now job_id job (record s { queue = post ++ (deferred ++ waiting pre) }))
  Explains pending deferred (raised e) q =
      (pre : List String) × (job_id : String) × (post : List String) × (pending
        ≡ pre ++ job_id ∷ post)
      × Passed pre
      × (st job_id ≡ broken e)
      × (q ≡ record s { queue = post ++ (deferred ++ waiting pre) })

  scan-gone :
      (job_id : String) (pending deferred : List String) (r : Result (Option String)) (q : Queue)
      → is_passed (st job_id) ≡ true
      → is_later (st job_id) ≡ false
      → Explains pending deferred r q
      → Explains (job_id ∷ pending) deferred r q
  scan-gone job_id pending deferred (ok none) q p l (a, b) = ((p, a), rw l b)
  scan-gone job_id pending deferred (ok (some i)) q p l (pre, post, job, e, a, d, b) =
      (job_id ∷ pre, post, job, ap (λ t. job_id ∷ t) e, (p, a), d, rw l b)
  scan-gone job_id pending deferred (raised x) q p l (pre, i, post, e, a, d, b) =
      (job_id ∷ pre, i, post, ap (λ t. job_id ∷ t) e, (p, a), d, rw l b)

  scan-later :
      (job_id : String) (pending deferred : List String) (r : Result (Option String)) (q : Queue)
      → is_passed (st job_id) ≡ true
      → is_later (st job_id) ≡ true
      → Explains pending (deferred ++ job_id ∷ []) r q
      → Explains (job_id ∷ pending) deferred r q
  scan-later job_id pending deferred (ok none) q p l (a, b) = (
    (p, a),
    rw l (
        b
        ∙ ap (λ t. record s { queue = t }) (append_assoc deferred (job_id ∷ []) (waiting pending))),
  )
  scan-later job_id pending deferred (ok (some i)) q p l (pre, post, job, e, a, d, b) = (
    job_id ∷ pre,
    post,
    job,
    ap (λ t. job_id ∷ t) e,
    (p, a),
    d,
    rw l (
        b
        ∙ ap (λ t. claim py now i job (record s { queue = post ++ t }))
            (append_assoc deferred (job_id ∷ []) (waiting pre))),
  )
  scan-later job_id pending deferred (raised x) q p l (pre, i, post, e, a, d, b) = (
    job_id ∷ pre,
    i,
    post,
    ap (λ t. job_id ∷ t) e,
    (p, a),
    d,
    rw l (
        b
        ∙ ap (λ t. record s { queue = post ++ t })
            (append_assoc deferred (job_id ∷ []) (waiting pre))),
  )

  abbrev Scanned : List String → List String → Type 0
  Scanned pending deferred =
      let (r, q) = scan py now (length pending) (record s { queue = pending ++ deferred }) in
      Explains pending deferred r q

  abbrev follow : ℕ → Visit → Result (Option String) × Queue
  follow rounds v = elim v [ next s' ↦ scan py now rounds s' | stop r s' ↦ (r, s') ]

  turn-Explains :
      (job_id : String) (pending deferred : List String) (x : Standing)
      → st job_id ≡ x
      → ((more : List String) → Scanned pending more)
      → let (r, q) = follow (length pending) (outcome py now s job_id (pending ++ deferred) x) in
        Explains (job_id ∷ pending) deferred r q
  turn-Explains job_id pending deferred gone e ih =
      scan-gone job_id pending deferred _ _ (rw e) (rw e) (ih deferred)
  turn-Explains job_id pending deferred later e ih =
      rw append_assoc
        (scan-later job_id pending deferred _ _ (rw e) (rw e) (ih (deferred ++ job_id ∷ [])))
  turn-Explains job_id pending deferred (due job) e ih = (
    [],
    pending,
    job,
    refl,
    tt,
    e,
    ap (λ t. claim py now job_id job (record s { queue = pending ++ t }))
        (sym (append-nil deferred)),
  )
  turn-Explains job_id pending deferred (broken x) e ih = (
    [],
    job_id,
    pending,
    refl,
    tt,
    e,
    ap (λ t. record s { queue = pending ++ t }) (sym (append-nil deferred)),
  )

  scan-Explains : (pending deferred : List String) → Scanned pending deferred
  unfolding scan visit
  scan-Explains [] deferred = (tt, ap (λ t. record s { queue = t }) (sym (append-nil deferred)))
  scan-Explains (job_id ∷ pending) deferred =
      subst
        (λ v. let (r, q) = follow (length pending) v in Explains (job_id ∷ pending) deferred r q)
        (sym (visit_job-standing py now job_id (get job_id s.jobs) (pending ++ deferred) s))
        (turn-Explains job_id pending deferred (st job_id) refl (scan-Explains pending))

  -- What `_dequeue_next_job_id` comes to. If it returns no job, every job was passed over and the
  -- queue keeps the jobs that wait, in their order. If it returns a job, that is the first on the
  -- queue that waits and is due, and it is claimed; of the jobs before it those that wait go behind
  -- the others. If it raises, that is what reading the time of the first job that waits and is not
  -- passed over raises; that job is off the queue, the jobs before it that wait go behind the others,
  -- and no job is changed.
  pub dequeue-Explains : Explains s.queue [] (dequeue py now s).0 (dequeue py now s).1
  unfolding dequeue
  dequeue-Explains =
      subst
        (λ t.
          let (r, q) = scan py now (length s.queue) (record s { queue = t }) in
          Explains s.queue [] r q)
        (append-nil s.queue) (scan-Explains s.queue [])
