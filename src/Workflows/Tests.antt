-- ===== src/Workflows/Tests.antt =====
-- A run of a workflow at concrete inputs, and a run that is refused.
use gitvibe_dev.Prelude.{◌≡◌, refl, false, none, some, arith, [], ◌∷◌, map}
use gitvibe_dev.Exc.{ok, raised, agent_error}
use gitvibe_dev.Json.{null, Fields, end, field, str, obj}
use gitvibe_dev.Json.Dict.{get_or}
use gitvibe_dev.Json.Convert.{Builtins}
use gitvibe_dev.EventBus.{new}
use gitvibe_dev.Exc.{http}
use gitvibe_dev.Tokens.{AuthContext, role_level}
use gitvibe_dev.Agents.{AgentSpec, AgentFramework, Stamps}
use gitvibe_dev.Api.Runs.{RunRequest, runs_refused}
use gitvibe_dev.Api.Runs
use gitvibe_dev.Plugins.{Surroundings}
use gitvibe_dev.Workflows.{
  WorkflowStep, WorkflowDefinition, WorkflowExecutionContext, Engine, RunEnv, list_workflows,
}
use gitvibe_dev.Workflows.Steps.{
  started_event, publish_on, run_workflow, result_payload, whole_step, step_entry,
}
use gitvibe_dev.Workflows.Runs.{here, later, IsRun, run_workflow-IsRun, run_workflow-Breaks}

abbrev py : Builtins
py = record { repr = λ v. "?"; parse_float = λ s. none }

abbrev outside : Surroundings
outside = record {
  handle = λ h e bus. (none, bus);
  hook = λ h p. none;
  legacy_executor = none;
  text = λ e. "?";
  pre_id = "e1";
  post_id = "e2";
  fresh_id = "r9";
  now = 1_000_000;
}

abbrev env : RunEnv
env = record { at_step = λ i. outside; around = outside }

abbrev context : WorkflowExecutionContext
context = record {
  actor = "ada";
  role = "operator";
  request_id = "r1";
  git_provider = "github";
  oauth_owner = none;
  metadata = end;
}

abbrev echo : AgentSpec
echo = record {
  name = "echo";
  version = "1";
  description = "";
  capabilities = [];
  extension_points = [];
}

abbrev note : WorkflowStep
note = record { id = "a"; kind = "event"; target = "audit.note"; config = end }

abbrev ask_echo : WorkflowStep
ask_echo = record { id = "b"; kind = "agent"; target = "echo"; config = field "k" (str "v") end }

abbrev ask_nobody : WorkflowStep
ask_nobody = record { id = "c"; kind = "agent"; target = "nobody"; config = end }

abbrev review : WorkflowDefinition
review = record {
  name = "review";
  version = "1";
  description = "";
  steps = note ∷ ask_echo ∷ [];
  extension_points = [];
}

abbrev broken : WorkflowDefinition
broken = record review { name = "broken"; steps = note ∷ ask_nobody ∷ ask_echo ∷ [] }

abbrev engine : Engine
engine = record {
  workflows = ("review", review) ∷ ("broken", broken) ∷ [];
  agents = ("echo", (echo, λ payload c bus. (ok payload, bus))) ∷ [];
  plugins = record {
    bus = new 100;
    registry = record { manifests = []; sdk_plugins = [] };
    plugins_root = "/plugins";
    legacy_allowlist = [];
    hooks = [];
    extension_points = [];
  };
}

abbrev answer : Fields
answer = result_payload py env review end context (
    step_entry note (
      field "status" (str "published")
        (field "event_id" (str "e1") (field "topic" (str "audit.note") end)))
    ∷ step_entry ask_echo (
        field "agent" (str "echo")
          (field "version" (str "1") (field "result" (obj (field "k" (str "v") end)) end)))
    ∷ [])

listed : map (get_or "name" null) (list_workflows engine) ≡ str "broken" ∷ str "review" ∷ []
unfolding list_workflows
listed = refl

run_workflow-IsRun_example :
    IsRun py env "review" end context engine answer
      (run_workflow py env "review" end context engine).1
unfolding run_workflow
run_workflow-IsRun_example = run_workflow-IsRun py env "review" end context engine _ answer refl

abbrev started : Engine
unfolding publish_on
started = (publish_on outside (started_event py env broken end context) engine).1

abbrev after_note : Engine
unfolding whole_step
after_note = (whole_step py outside broken end context note started).1

run_workflow-Breaks_example :
    run_workflow py env "broken" end context engine
    ≡ (raised (agent_error 404 "Unknown agent 'nobody'."), after_note)
unfolding whole_step publish_on
run_workflow-Breaks_example =
    run_workflow-Breaks py env "broken" end context engine started after_note broken
      (agent_error 404 "Unknown agent 'nobody'.") refl refl
      (later
        {result = field "status" (str "published")
          (field "event_id" (str "e1") (field "topic" (str "audit.note") end))}
        {e' = after_note} refl (here refl))

abbrev guest : AuthContext
guest = record { subject = "eve"; role = "viewer"; csrf_token = "c1"; token_id = "t1" }

abbrev asked : RunRequest
asked = record { payload = end; oauth_owner = none; git_provider = "github" }

abbrev stamps : Stamps
stamps = record {
  handle = λ h e bus. (none, bus);
  started_id = "e1";
  completed_id = "e2";
  now = 1_000_000;
}

abbrev agents : AgentFramework
agents = record { bus = new 10; agents = ("echo", (echo, λ payload c bus. (ok payload, bus))) ∷ [] }

runs_refused_example :
    (Runs.run_agent false "agent-1" "review" asked stamps (some guest) agents
      ≡ (raised (http 403 "Insufficient role for this action."), agents))
    × (Runs.run_workflow false "agent-1" "review" asked py env (some guest) engine
        ≡ (raised (http 403 "Insufficient role for this action."), engine))
unfolding role_level
runs_refused_example =
    runs_refused "agent-1" "review" asked guest 10 stamps py env agents engine refl (omega arith)
