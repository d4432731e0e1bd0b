-- ===== src/Agents/Events.antt =====
-- Which events a run of an agent leaves, backend/app/platform/agent_framework.py.
use gitvibe_dev.Prelude.{String, ◌≡◌, refl, sym, ap, ◌∙◌, inl, inr, some, Option-cases}
use gitvibe_dev.Prelude.Table.{at}
use gitvibe_dev.Exc.{Result, ok, raised, ◌>>=◌}
use gitvibe_dev.Json.{Fields}
use gitvibe_dev.Agents.{
  AgentSpec, AgentContext, AgentHandler, AgentFramework, Stamps, started_event, completed_event,
  agent_answer, tell, complete_run, run_started, run_agent,
}

-- A run of the agent `spec` that returned `answer`: the started event was published on `f₁`, the
-- handler returned `result` on the bus that this left, and the completed event was published on the
-- bus that the handler left.
pub record IsCompleted (env : Stamps) (agent_name : String) (payload : Fields)
    (context : AgentContext) (f f' : AgentFramework) (answer : Fields) : Type 0 where
  pub spec : AgentSpec
  pub handler : AgentHandler
  pub found : at agent_name f.agents ≡ some (spec, handler)
  pub result : Fields
  pub started : AgentFramework
  pub told : tell env spec context (started_event env spec context) f ≡ (ok tt, started)
  pub handled : (handler payload context started.bus).0 ≡ ok result
  pub answered : answer ≡ agent_answer env spec context result
  pub finished :
      tell env spec context
        (completed_event env spec context result)
        (record started { bus = (handler payload context started.bus).1 })
      ≡ (ok tt, f')

ok_inj : {A : Type 0} {a b : A} → ok a ≡ ok b → a ≡ b
ok_inj h = cc

module _ (env : Stamps) (spec : AgentSpec) (context : AgentContext) where
  told_ok :
      (r : Result (Unit {0}) × AgentFramework) (answer out : Fields)
      → (r.0 >>= λ _. ok out) ≡ ok answer
      → (r ≡ (ok tt, r.1)) × (answer ≡ out)
  told_ok (ok u, f) answer out h = (refl, sym (ok_inj h))
  told_ok (raised e, f) answer out h = absurd cc

  complete_run-ok :
      (x : Result Fields) (f : AgentFramework) (answer : Fields)
      → (complete_run env spec context x f).0 ≡ ok answer
      → (result : Fields) × (x ≡ ok result)
        × (answer ≡ agent_answer env spec context result)
        × (tell env spec context (completed_event env spec context result) f
            ≡ (ok tt, (complete_run env spec context x f).1))
  unfolding complete_run
  complete_run-ok (raised e) f answer h = absurd cc
  complete_run-ok (ok result) f answer h =
      let (told, same) =
        told_ok (tell env spec context (completed_event env spec context result) f) answer
          (agent_answer env spec context result) h in
      (result, refl, same, told)

  run_started-ok :
      (handler : AgentHandler) (payload : Fields) (r : Result (Unit {0}) × AgentFramework)
      (answer : Fields)
      → (run_started env spec context handler payload r).0 ≡ ok answer
      → (r ≡ (ok tt, r.1))
        × (run_started env spec context handler payload r
            ≡ complete_run env spec context
                (handler payload context r.1.bus).0
                (record r.1 { bus = (handler payload context r.1.bus).1 }))
  unfolding run_started
  run_started-ok handler payload (raised e, f) answer h = absurd cc
  run_started-ok handler payload (ok u, f) answer h = (refl, refl)

-- A run that returns goes by a registered agent: its started event is published, then its handler is
-- called, on the bus that the subscribers left, and returns, and then its completed event is
-- published, on the bus that the handler left; no subscriber raises.
pub run_agent-IsCompleted :
    (env : Stamps) (agent_name : String) (payload : Fields) (context : AgentContext)
    (f : AgentFramework) (answer : Fields)
    → (run_agent env agent_name payload context f).0 ≡ ok answer
    → IsCompleted env agent_name payload context f
        (run_agent env agent_name payload context f).1
        answer
unfolding run_agent
run_agent-IsCompleted env agent_name payload context f answer h =
    elim (Option-cases (at agent_name f.agents)) [
      | inl missing ↦ absurd (cc (rw (missing, run_agent) at h))
      | inr ((spec, handler), there) ↦
          let told = tell env spec context (started_event env spec context) f in
          let h₁ : (run_started env spec context handler payload told).0 ≡ ok answer =
            rw (there, run_agent) at h in
          let (began, s) = run_started-ok env spec context handler payload told answer h₁ in
          let (result, handled, answered, finished) =
            complete_run-ok env spec context (handler payload context told.1.bus).0
              (record told.1 { bus = (handler payload context told.1.bus).1 }) answer
              (ap (λ x. x.0) (sym s) ∙ h₁) in
          record {
            spec = spec;
            handler = handler;
            found = there;
            result = result;
            started = told.1;
            told = began;
            handled = handled;
            answered = answered;
            finished = finished ∙ ap (λ x. (ok tt, x.1)) (sym s) ∙ rw (there, run_agent) refl;
          }
    ]
