-- ===== src/Agents/Tests.antt =====
-- A run of an agent at concrete inputs.
use gitvibe_dev.Prelude.{refl, none, [], ◌∷◌}
use gitvibe_dev.Exc.{ok}
use gitvibe_dev.Json.{end}
use gitvibe_dev.EventBus.{new}
use gitvibe_dev.Agents.{AgentSpec, AgentContext, AgentFramework, Stamps, agent_answer, run_agent}
use gitvibe_dev.Agents.Events.{IsCompleted, run_agent-IsCompleted}

abbrev env : Stamps
env = record {
  handle = λ h e bus. (none, bus);
  started_id = "e1";
  completed_id = "e2";
  now = 3_000_000;
}

abbrev reviewer : AgentSpec
reviewer = record {
  name = "ai-review";
  version = "1.0.0";
  description = "Reviews a pull request.";
  capabilities = "review" ∷ [];
  extension_points = [];
}

abbrev context : AgentContext
context = record {
  actor = "ada";
  role = "operator";
  request_id = "r1";
  git_provider = "github";
  oauth_owner = none;
  metadata = end;
}

abbrev framework : AgentFramework
framework = record {
  bus = new 1;
  agents = ("ai-review", (reviewer, λ payload c bus. (ok payload, bus))) ∷ [];
}

run_agent-IsCompleted_tried :
    IsCompleted env "ai-review" end context framework
      (run_agent env "ai-review" end context framework).1
      (agent_answer env reviewer context end)
unfolding run_agent
run_agent-IsCompleted_tried = run_agent-IsCompleted env "ai-review" end context framework _ refl
