-- ===== src/Agents.antt =====
-- backend/app/platform/agent_framework.py: named agents, and the events around a run.
pub mod Events
pub mod Tests
use gitvibe_dev.Prelude.{ℕ, String, Option, none, some, List, [], ◌∷◌, map, if◌then◌else◌}
use gitvibe_dev.Prelude.Table.{Table, at, set_at}
use gitvibe_dev.Prelude.Sort.{sort_by, sorted_set}
use gitvibe_dev.Exc.{Exc, Result, ok, raised, agent_error, ◌>>=◌}
use gitvibe_dev.Json.{str, arr, obj, Fields, end, field, of_strings}
use gitvibe_dev.Json.Dict.{get_or}
use gitvibe_dev.Json.Convert.{strip, is_empty, concat}
use gitvibe_dev.EventBus.{EventBus, EventEnvelope, Subscribers, envelope, publish}

pub record AgentSpec : Type 0 where
  pub name : String
  pub version : String
  pub description : String
  pub capabilities : List String
  pub extension_points : List String

-- `AgentSpec.as_dict`
unfoldable pub spec_dict : AgentSpec → Fields
spec_dict spec = field "name" (str spec.name) (
    field "version" (str spec.version) (
      field "description" (str spec.description) (
        field "capabilities" (arr (of_strings (sorted_set spec.capabilities)))
          (field "extension_points" (arr (of_strings (sorted_set spec.extension_points))) end))))

pub record AgentContext : Type 0 where
  pub actor : String
  pub role : String
  pub request_id : String
  pub git_provider : String
  pub oauth_owner : Option String
  pub metadata : Fields

-- A handler returns or raises, and may use the bus as it stands.
abbrev pub AgentHandler : Type 0
AgentHandler = Fields → AgentContext → EventBus → Result Fields × EventBus

pub record AgentFramework : Type 0 where
  pub bus : EventBus
  pub agents : Table (AgentSpec × AgentHandler)

-- `register_agent`
unfoldable pub register_agent : AgentSpec → AgentHandler → AgentFramework → Result AgentFramework
register_agent spec handler f =
    if is_empty (strip spec.name)
    then raised (agent_error 400 "Agent name cannot be empty.")
    else ok (record f { agents = set_at spec.name (spec, handler) f.agents })

-- `list_agents`
unfoldable pub list_agents : AgentFramework → List Fields
unfolding spec_dict
list_agents f = map spec_dict (
    sort_by (λ (s : AgentSpec). s.name)
      (map (λ (e : String × (AgentSpec × AgentHandler)). e.1.0) f.agents))

-- The subscribers of the bus, and the ids and the time of the two events of a run.
pub record Stamps : Type 0 where
  pub handle : Subscribers
  pub started_id : String
  pub completed_id : String
  pub now : ℕ

module _ (env : Stamps) (spec : AgentSpec) (context : AgentContext) where
  unfoldable pub started_event : EventEnvelope
  unfolding envelope
  started_event =
      envelope env.started_id env.now "agent.started"
        (field "agent" (str spec.name) (
          field "version" (str spec.version)
            (field "request_id" (str context.request_id) (field "actor" (str context.actor) end))))
        "agent-framework"

  unfoldable pub completed_event : Fields → EventEnvelope
  unfolding envelope
  completed_event result =
      envelope env.completed_id env.now "agent.completed"
        (field "agent" (str spec.name) (
          field "version" (str spec.version) (
            field "request_id" (str context.request_id)
              (field "status" (get_or "status" (str "completed") result) end))))
        "agent-framework"

  unfoldable pub agent_answer : Fields → Fields
  agent_answer result =
      field "agent" (str spec.name)
        (field "version" (str spec.version) (field "result" (obj result) end))

  -- `publish`, with the bus put back; its result is what the subscribers made of the event.
  unfoldable pub tell : EventEnvelope → AgentFramework → Result (Unit {0}) × AgentFramework
  unfolding publish
  tell event f =
      let (bus, called, r) = publish env.handle event f.bus in (r, record f { bus = bus })

  -- The end of a run, with what the handler returned or raised
  unfoldable pub complete_run : Result Fields → AgentFramework → Result Fields × AgentFramework
  unfolding tell completed_event agent_answer
  complete_run (raised e) f = (raised e, f)
  complete_run (ok result) f =
      let (r, f') = tell (completed_event result) f in (r >>= λ _. ok (agent_answer result), f')

  unfoldable pub run_started :
      AgentHandler → Fields → Result (Unit {0}) × AgentFramework → Result Fields × AgentFramework
  unfolding complete_run
  run_started handler payload (raised e, f) = (raised e, f)
  run_started handler payload (ok _, f) =
      let (x, bus) = handler payload context f.bus in complete_run x (record f { bus = bus })

-- `run_agent`
unfoldable pub run_agent :
    Stamps → String → Fields → AgentContext → AgentFramework → Result Fields × AgentFramework
unfolding run_started started_event tell
run_agent env agent_name payload context f = elim (at agent_name f.agents) [
  | none ↦ (raised (agent_error 404 (concat ("Unknown agent '" ∷ agent_name ∷ "'." ∷ []))), f)
  | some (spec, handler) ↦
      run_started env spec context handler payload
        (tell env spec context (started_event env spec context) f)
]
