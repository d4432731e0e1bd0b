-- ===== src/Workflows/Runs.antt =====
-- What a run of a workflow amounts to, step by step.
use gitvibe_dev.Prelude.{
  ℕ, zero, suc, String, ◌≡◌, refl, sym, subst, ap, ◌∙◌, some, inl, inr, Option-cases, List, [], ◌∷◌,
}
use gitvibe_dev.Prelude.Table.{at}
use gitvibe_dev.Exc.{Exc, Result, ok, raised, ◌>>=◌, Result-cases, bind_ok}
use gitvibe_dev.Json.{Fields}
use gitvibe_dev.Json.Convert.{Builtins}
use gitvibe_dev.Workflows.{
  WorkflowStep, WorkflowDefinition, WorkflowExecutionContext, Engine, RunEnv,
}
use gitvibe_dev.Workflows.Steps.{
  whole_step, step_entry, run_steps, started_event, completed_event, result_payload, publish_on,
  complete, after_start, run_workflow,
}

ok_inj : {A : Type 0} {a b : A} → ok a ≡ ok b → a ≡ b
ok_inj h = cc

pairs : {A B : Type 0} {a a' : A} {b b' : B} → a ≡ a' → b ≡ b' → ◌≡◌ {A = A × B} (a, b) (a', b')
pairs h k = cc

module _ (py : Builtins) (env : RunEnv) (w : WorkflowDefinition) (payload : Fields)
    (context : WorkflowExecutionContext) where
  -- The steps from number `i` on succeed one after the other, each on the engine that the one
  -- before it left.
  pub data Chain : ℕ → List WorkflowStep → Engine → List Fields → Engine → Type 0 where
    stop : {i : ℕ} → {e : Engine} → Chain i [] e [] e
    next :
        {i : ℕ}
        → {s : WorkflowStep} → {steps : List WorkflowStep} → {e : Engine} → {result : Fields}
        → {e' : Engine} → {entries : List Fields} → {last : Engine}
        → whole_step py (env.at_step i) w payload context s e ≡ (ok result, e')
        → Chain (suc i) steps e' entries last
        → Chain i (s ∷ steps) e (step_entry s result ∷ entries) last

  -- After some steps succeeded a step raises, whatever steps follow it.
  pub data Breaks (x : Exc) : ℕ → List WorkflowStep → Engine → Engine → Type 0 where
    here :
        {i : ℕ}
        → {s : WorkflowStep} → {steps : List WorkflowStep} → {e : Engine} → {e' : Engine}
        → whole_step py (env.at_step i) w payload context s e ≡ (raised x, e')
        → Breaks x i (s ∷ steps) e e'
    later :
        {i : ℕ}
        → {s : WorkflowStep} → {steps : List WorkflowStep} → {e : Engine} → {result : Fields}
        → {e' : Engine} → {last : Engine}
        → whole_step py (env.at_step i) w payload context s e ≡ (ok result, e')
        → Breaks x (suc i) steps e' last
        → Breaks x i (s ∷ steps) e last

  abbrev RunsTo : ℕ → List WorkflowStep → Engine → Result (List Fields) → Engine → Type 0
  RunsTo i steps e (ok entries) last = Chain i steps e entries last
  RunsTo i steps e (raised x) last = Breaks x i steps e last

  module _ (i : ℕ) (s : WorkflowStep) (steps : List WorkflowStep) (e e' : Engine) where
    past_step :
        (result : Fields)
        → whole_step py (env.at_step i) w payload context s e ≡ (ok result, e')
        → run_steps py env w payload context i (s ∷ steps) e ≡ (
          (run_steps py env w payload context (suc i) steps e').0
              >>= (λ results. ok (step_entry s result ∷ results)),
          (run_steps py env w payload context (suc i) steps e').1,
        )
    unfolding run_steps
    past_step result h = rw (ap (λ x. x.0) h, ap (λ x. x.1) h, run_steps)

    step_raises :
        (x : Exc)
        → whole_step py (env.at_step i) w payload context s e ≡ (raised x, e')
        → run_steps py env w payload context i (s ∷ steps) e ≡ (raised x, e')
    unfolding run_steps
    step_raises x h = rw (ap (λ x. x.0) h, ap (λ x. x.1) h, run_steps)

    past_step_outcome :
        (result : Fields) (r : Result (List Fields)) (last : Engine)
        → whole_step py (env.at_step i) w payload context s e ≡ (ok result, e')
        → RunsTo (suc i) steps e' r last
        → RunsTo i (s ∷ steps) e (r >>= (λ results. ok (step_entry s result ∷ results))) last
    past_step_outcome result (ok entries) last h c = next h c
    past_step_outcome result (raised x) last h b = later h b

  run_steps-ok :
      {i : ℕ} {steps : List WorkflowStep} {e : Engine} {entries : List Fields} {last : Engine}
      → Chain i steps e entries last
      → run_steps py env w payload context i steps e ≡ (ok entries, last)
  unfolding run_steps
  run_steps-ok stop = refl
  run_steps-ok (next {s = s} {e = e} {result = result} {e' = e'} h c) =
      past_step _ s _ e e' result h
      ∙ ap (λ x. (x.0 >>= (λ results. ok (step_entry s result ∷ results)), x.1)) (run_steps-ok c)

  run_steps-raised :
      {x : Exc} {i : ℕ} {steps : List WorkflowStep} {e : Engine} {last : Engine}
      → Breaks x i steps e last
      → run_steps py env w payload context i steps e ≡ (raised x, last)
  run_steps-raised (here h) = step_raises _ _ _ _ _ _ h
  run_steps-raised (later {s = s} {e = e} {result = result} {e' = e'} h b) =
      past_step _ s _ e e' result h
      ∙ ap (λ x. (x.0 >>= (λ results. ok (step_entry s result ∷ results)), x.1))
          (run_steps-raised b)

  run_steps_outcome :
      (i : ℕ) (steps : List WorkflowStep) (e : Engine)
      → RunsTo i steps e
          (run_steps py env w payload context i steps e).0
          (run_steps py env w payload context i steps e).1
  unfolding run_steps
  run_steps_outcome i [] e = stop
  run_steps_outcome i (s ∷ steps) e =
      let whole = whole_step py (env.at_step i) w payload context s e in
      elim (Result-cases whole.0) [
        | inl (result, h) ↦
            subst (λ x. RunsTo i (s ∷ steps) e x.0 x.1)
              (sym (past_step i s steps e whole.1 result (ap (λ r. (r, whole.1)) h)))
              (past_step_outcome i s steps e whole.1 result _ _ (ap (λ r. (r, whole.1)) h)
                (run_steps_outcome (suc i) steps whole.1))
        | inr (x, h) ↦
            subst (λ x. RunsTo i (s ∷ steps) e x.0 x.1)
              (sym (step_raises i s steps e whole.1 x (ap (λ r. (r, whole.1)) h)))
              (here (ap (λ r. (r, whole.1)) h))
      ]

-- A run of the workflow of that name: the event before it was taken, each step of the workflow
-- succeeded on the engine that the one before it left, the answer lists their results in order, and
-- the event with the answer was taken last.
pub record IsRun (py : Builtins) (env : RunEnv) (workflow_name : String) (payload : Fields)
    (context : WorkflowExecutionContext) (e : Engine) (answer : Fields) (last : Engine)
    : Type 0 where
  pub workflow : WorkflowDefinition
  pub found : at workflow_name e.workflows ≡ some workflow
  pub started : Engine
  pub told :
      publish_on env.around (started_event py env workflow payload context) e ≡ (ok tt, started)
  pub entries : List Fields
  pub stepped : Engine
  pub chain : Chain py env workflow payload context zero workflow.steps started entries stepped
  pub answered : answer ≡ result_payload py env workflow payload context entries
  pub completed :
      publish_on env.around (completed_event py env workflow payload context entries) stepped
      ≡ (ok tt, last)

module _ (py : Builtins) (env : RunEnv) (w : WorkflowDefinition) (payload : Fields)
    (context : WorkflowExecutionContext) where
  complete-ok :
      (r : Result (List Fields)) (stepped last : Engine) (answer : Fields)
      → complete py env w payload context (r, stepped) ≡ (ok answer, last)
      → (entries : List Fields) × (r ≡ ok entries)
        × (answer ≡ result_payload py env w payload context entries)
        × (publish_on env.around (completed_event py env w payload context entries) stepped
            ≡ (ok tt, last))
  unfolding complete
  complete-ok (raised x) stepped last answer h = absurd (cc (ap (λ x. x.0) h))
  complete-ok (ok entries) stepped last answer h =
      let (u, sent, same) =
        bind_ok (publish_on env.around (completed_event py env w payload context entries) stepped).0
          _ (ap (λ x. x.0) h) in
      (entries, refl, sym (ok_inj same), pairs sent (ap (λ x. x.1) h))

  after_start-ok :
      (told : Result (Unit {0})) (started last : Engine) (answer : Fields)
      → after_start py env w payload context (told, started) ≡ (ok answer, last)
      → (told ≡ ok tt)
        × (complete py env w payload context
              (run_steps py env w payload context zero w.steps started)
            ≡ (ok answer, last))
  unfolding after_start
  after_start-ok (raised x) started last answer h = absurd (cc (ap (λ x. x.0) h))
  after_start-ok (ok u) started last answer h = (refl, h)

-- A run that returns is a run of the workflow of that name from its first step to its last, each
-- once and in order, with the started event before and the completed event after them.
pub run_workflow-IsRun :
    (py : Builtins) (env : RunEnv) (workflow_name : String) (payload : Fields)
    (context : WorkflowExecutionContext) (e last : Engine) (answer : Fields)
    → run_workflow py env workflow_name payload context e ≡ (ok answer, last)
    → IsRun py env workflow_name payload context e answer last
unfolding run_workflow
run_workflow-IsRun py env workflow_name payload context e last answer h =
    elim (Option-cases (at workflow_name e.workflows)) [
      | inl missing ↦ absurd (cc (ap (λ x. x.0) (rw (missing, run_workflow) at h)))
      | inr (w, there) ↦
          let told = publish_on env.around (started_event py env w payload context) e in
          let (heard, h₁) =
            after_start-ok py env w payload context told.0 told.1 last answer
              (rw (there, run_workflow) at h) in
          let ran = run_steps py env w payload context zero w.steps told.1 in
          let (entries, all_ran, answered, completed) =
            complete-ok py env w payload context ran.0 ran.1 last answer h₁ in
          record {
            workflow = w;
            found = there;
            started = told.1;
            told = pairs heard refl;
            entries = entries;
            stepped = ran.1;
            chain =
                subst (λ r. RunsTo py env w payload context zero w.steps told.1 r ran.1) all_ran
                  (run_steps_outcome py env w payload context zero w.steps told.1);
            answered = answered;
            completed = completed;
          }
    ]

-- What a step raises comes out of the run unchanged, whatever error it is: no later step runs and
-- no completed event is published, so the engine is the one that this step left.
pub run_workflow-Breaks :
    (py : Builtins) (env : RunEnv) (workflow_name : String) (payload : Fields)
    (context : WorkflowExecutionContext) (e started last : Engine) (w : WorkflowDefinition)
    (x : Exc)
    → at workflow_name e.workflows ≡ some w
    → publish_on env.around (started_event py env w payload context) e ≡ (ok tt, started)
    → Breaks py env w payload context x zero w.steps started last
    → run_workflow py env workflow_name payload context e ≡ (raised x, last)
unfolding run_workflow after_start complete
run_workflow-Breaks py env workflow_name payload context e started last w x there told b =
    rw (there, run_workflow)
      (ap (after_start py env w payload context) told
        ∙ ap (complete py env w payload context) (run_steps-raised py env w payload context b))
