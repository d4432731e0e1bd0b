-- ===== src/Api/Runs.antt =====
-- The routes of backend/app/main.py that run an agent, a workflow or a plugin. `req_id` is the id
-- that `request_id` draws.
use gitvibe_dev.Prelude.{
  lt→ltb, ℕ, ◌<◌, ◌≡◌, refl, ap, String, Bool, true, false, Option, none, some, List,
}
use gitvibe_dev.Exc.{Result, ok, raised, http, agent_error, plugin_error, workflow_error, ◌>>=◌}
use gitvibe_dev.Json.{str, Fields, end, field}
use gitvibe_dev.Json.Dict.{get_or, merge}
use gitvibe_dev.Json.Convert.{Builtins}
use gitvibe_dev.Audit.{AuditEvent, security}
use gitvibe_dev.Tokens.{AuthContext, role_level}
use gitvibe_dev.Agents.{AgentContext, AgentFramework, Stamps}
use gitvibe_dev.Agents
use gitvibe_dev.Plugins.{PluginExecutionContext, Framework, Surroundings}
use gitvibe_dev.Plugins
use gitvibe_dev.Workflows.{WorkflowExecutionContext, Engine, RunEnv}
use gitvibe_dev.Workflows.Steps
use gitvibe_dev.Api.{
  check_level, level_of, ensure_role, resolve_oauth_owner, resolve_git_provider_name,
}

-- `AgentRunRequest` and `WorkflowRunRequest`
pub record RunRequest : Type 0 where
  pub payload : Fields
  pub oauth_owner : Option String
  pub git_provider : String

-- For whom a run is: the actor, the role and the owner of the OAuth token
pub record Runner : Type 0 where
  pub actor : String
  pub role : String
  pub owner : String

abbrev demo_runner : Option AuthContext → Runner
demo_runner none = record { actor = "demo-anonymous"; role = "viewer"; owner = "demo" }
demo_runner (some c) = record { actor = c.subject; role = c.role; owner = "demo" }

-- The first lines of `run_agent` and `run_workflow`
unfoldable pub runner_for : Bool → Option String → Option AuthContext → Result Runner
unfolding ensure_role resolve_oauth_owner
runner_for true oauth_owner context = ok (demo_runner context)
runner_for false oauth_owner context = ensure_role context "operator" >>= λ c.
    resolve_oauth_owner oauth_owner context >>= λ owner.
    ok (record { actor = c.subject; role = c.role; owner = owner })

abbrev as_http : Result Fields → Result Fields
as_http (raised (agent_error status_code message)) = raised (http status_code message)
as_http r = r

abbrev workflow_as_http : Result Fields → Result Fields
workflow_as_http (raised (workflow_error status_code message)) = raised (http status_code message)
workflow_as_http r = r

module _ (demo_mode : Bool) (req_id name : String) (request : RunRequest) where
  abbrev agent_context : Runner → AgentContext
  agent_context runner = record {
    actor = runner.actor;
    role = runner.role;
    request_id = req_id;
    git_provider = resolve_git_provider_name demo_mode (some request.git_provider);
    oauth_owner = some runner.owner;
    metadata = end;
  }

  abbrev agent_ran : Result Fields × AgentFramework → Result Fields × AgentFramework
  agent_ran (r, f) =
      (as_http r >>= λ result. ok (merge (field "request_id" (str req_id) end) result), f)

  -- `run_agent`
  unfoldable pub run_agent :
      Stamps → Option AuthContext → AgentFramework → Result Fields × AgentFramework
  unfolding runner_for Agents.run_agent resolve_git_provider_name
  run_agent env context f = elim (runner_for demo_mode request.oauth_owner context) [
    | raised e ↦ (raised e, f)
    | ok runner ↦ agent_ran (Agents.run_agent env name request.payload (agent_context runner) f)
  ]

  abbrev workflow_context : Runner → WorkflowExecutionContext
  workflow_context runner = record {
    actor = runner.actor;
    role = runner.role;
    request_id = req_id;
    git_provider = resolve_git_provider_name demo_mode (some request.git_provider);
    oauth_owner = some runner.owner;
    metadata = end;
  }

  -- `run_workflow`
  unfoldable pub run_workflow :
      Builtins → RunEnv → Option AuthContext → Engine → Result Fields × Engine
  unfolding runner_for Steps.run_workflow resolve_git_provider_name
  run_workflow py env context e = elim (runner_for demo_mode request.oauth_owner context) [
    | raised x ↦ (raised x, e)
    | ok runner ↦
        let (r, e') = Steps.run_workflow py env name request.payload (workflow_context runner) e in
        (workflow_as_http r, e')
  ]

abbrev plugin_entry : String → String → Fields → Fields
plugin_entry plugin_name req_id result = field "plugin" (str plugin_name) (
    field "request_id" (str req_id) (
      field "status" (get_or "status" (str "unknown") result) (
        field "version" (get_or "version" (str "unknown") result)
          (field "runtime" (get_or "runtime" (str "unknown") result) end))))

module _ (req_id plugin_name : String) (args : List String) (required_permission : String) where
  abbrev plugin_ran :
      AuthContext
      → List AuditEvent
      → Result Fields × Framework
      → Result Fields × Framework × List AuditEvent
  plugin_ran c audit (ok result, f) = (
    ok result,
    f,
    security "plugin_executed" c.subject (plugin_entry plugin_name req_id result) audit,
  )
  plugin_ran c audit (raised (plugin_error status_code message), f) = (
    raised (http status_code message),
    f,
    security "plugin_execution_blocked" c.subject
        (field "plugin" (str plugin_name)
          (field "request_id" (str req_id) (field "reason" (str message) end)))
        audit,
  )
  plugin_ran c audit (raised e, f) = (raised e, f, audit)

  -- `run_plugin`; `role` is what its `require_role` gives.
  unfoldable pub run_plugin :
      Surroundings
      → Result AuthContext
      → Framework
      → List AuditEvent
      → Result Fields × Framework × List AuditEvent
  unfolding Plugins.run_plugin
  run_plugin env (raised e) f audit = (raised e, f, audit)
  run_plugin env (ok c) f audit = plugin_ran c audit (
      Plugins.run_plugin env plugin_name args
        (record {
          actor = c.subject;
          role = c.role;
          request_id = req_id;
          git_provider = "github";
          metadata = end;
        })
        required_permission f)

ensure_role-refused :
    (required : String) (c : AuthContext) (held needed : ℕ)
    → role_level c.role ≡ some held
    → role_level required ≡ some needed
    → held < needed
    → ensure_role (some c) required ≡ raised (http 403 "Insufficient role for this action.")
unfolding ensure_role check_level level_of
ensure_role-refused required c held needed e e' less =
    rw (e, e', lt→ltb held needed less, ensure_role, check_level, level_of)

runner_for-refused :
    (c : AuthContext) (oauth_owner : Option String) (held : ℕ)
    → role_level c.role ≡ some held
    → held < 20
    → runner_for false oauth_owner (some c) ≡ raised (http 403 "Insufficient role for this action.")
unfolding runner_for role_level
runner_for-refused c oauth_owner held role less =
    ap
      (λ r. r >>= λ a. resolve_oauth_owner oauth_owner (some c) >>= λ owner.
        ok (record { actor = a.subject; role = a.role; owner = owner }))
      (ensure_role-refused "operator" c held 20 role refl less)

-- Outside of demo mode a caller below "operator" runs neither an agent nor a workflow: the answer is
-- an error 403, and agents, plugins and events stay as they are.
pub runs_refused :
    (req_id name : String) (request : RunRequest) (c : AuthContext) (held : ℕ) (stamps : Stamps)
    (py : Builtins) (env : RunEnv) (f : AgentFramework) (e : Engine)
    → role_level c.role ≡ some held
    → held < 20
    → (run_agent false req_id name request stamps (some c) f
        ≡ (raised (http 403 "Insufficient role for this action."), f))
      × (run_workflow false req_id name request py env (some c) e
          ≡ (raised (http 403 "Insufficient role for this action."), e))
unfolding run_agent run_workflow
runs_refused req_id name request c held stamps py env f e role less =
    let refused = runner_for-refused c request.oauth_owner held role less in
    (rw (refused, run_agent), rw (refused, run_workflow))
