-- ===== src/Workflows/Steps.antt =====
-- `_execute_step` and the loop of `run_workflow`, backend/app/platform/workflow_engine.py.
use gitvibe_dev.Prelude.{ℕ, zero, suc, String, none, some, List, [], ◌∷◌, ◌==◌, if◌then◌else◌}
use gitvibe_dev.Prelude.Table.{at, rows}
use gitvibe_dev.Exc.{Result, ok, raised, workflow_error, ◌>>=◌}
use gitvibe_dev.Json.{Value, str, arr, obj, Items, nil, cons, Fields, end, field}
use gitvibe_dev.Json.Dict.{get_or, put, merge}
use gitvibe_dev.Json.Convert.{Builtins, str_of, concat}
use gitvibe_dev.EventBus.{EventEnvelope, envelope, publish}
use gitvibe_dev.Agents.{AgentContext, Stamps, run_agent}
use gitvibe_dev.Plugins.{PluginExecutionContext, Surroundings, run_hooks, run_plugin}
use gitvibe_dev.Workflows.{
  WorkflowStep, WorkflowDefinition, WorkflowExecutionContext, Engine, RunEnv, step_dict, items,
}

-- `event_bus.publish` with the bus put back
unfoldable pub publish_on : Surroundings → EventEnvelope → Engine → Result (Unit {0}) × Engine
unfolding publish
publish_on env event e =
    let (bus, called, r) = publish env.handle event e.plugins.bus in
    (r, record e { plugins = record e.plugins { bus = bus } })

-- `[str(item) for item in args]`
abbrev pub arg_texts : Builtins → Items → List String
arg_texts py nil = []
arg_texts py (cons v vs) = str_of py v ∷ arg_texts py vs

-- `step.config.get("args", [])`, which must be a list
abbrev pub step_args : Builtins → Value → Result (List String)
step_args py (arr vs) = ok (arg_texts py vs)
step_args py _ = raised (workflow_error 400 "Workflow plugin step args must be a list.")

module _ (py : Builtins) (env : Surroundings) (w : WorkflowDefinition) (payload : Fields)
    (context : WorkflowExecutionContext) where
  unfoldable pub event_step : WorkflowStep → Engine → Result Fields × Engine
  unfolding publish_on envelope
  event_step s e =
      let event =
        envelope env.pre_id env.now s.target (merge payload s.config)
          (concat ("workflow:" ∷ w.name ∷ [])) in
      let (r, e') = publish_on env event e in
      (
        r >>= λ _. ok (
            field "status" (str "published")
              (field "event_id" (str env.pre_id) (field "topic" (str s.target) end))),
        e',
      )

  -- The agents work on the bus of the engine.
  unfoldable pub agent_step : WorkflowStep → Engine → Result Fields × Engine
  unfolding run_agent
  agent_step s e =
      let stamps : Stamps = record {
        handle = env.handle;
        started_id = env.pre_id;
        completed_id = env.post_id;
        now = env.now;
      } in
      let agent_context : AgentContext = record {
        actor = context.actor;
        role = context.role;
        request_id = context.request_id;
        git_provider = context.git_provider;
        oauth_owner = context.oauth_owner;
        metadata = context.metadata;
      } in
      let (r, f) =
        run_agent stamps s.target (merge payload s.config) agent_context
          (record { bus = e.plugins.bus; agents = e.agents }) in
      (r, record e { plugins = record e.plugins { bus = f.bus } })

  unfoldable pub run_with_args :
      Result (List String) → String → WorkflowStep → Engine → Result Fields × Engine
  unfolding run_plugin
  run_with_args (raised x) permission s e = (raised x, e)
  run_with_args (ok args) permission s e =
      let plugin_context : PluginExecutionContext = record {
        actor = context.actor;
        role = context.role;
        request_id = context.request_id;
        git_provider = context.git_provider;
        metadata = context.metadata;
      } in
      let (r, f) = run_plugin env s.target args plugin_context permission e.plugins in
      (r, record e { plugins = f })

  unfoldable pub plugin_step : WorkflowStep → Engine → Result Fields × Engine
  unfolding run_with_args
  plugin_step s e =
      run_with_args (step_args py (get_or "args" (arr nil) s.config))
        (str_of py (get_or "required_permission" (str "plugin:execute") s.config)) s e

  -- `_execute_step`
  unfoldable pub execute_step : WorkflowStep → Engine → Result Fields × Engine
  unfolding event_step agent_step plugin_step
  execute_step s e =
      if s.kind == "event"
      then event_step s e
      else if s.kind == "agent"
      then agent_step s e
      else if s.kind == "plugin"
      then plugin_step s e
      else if s.kind == "noop"
      then (ok (field "status" (str "skipped") end), e)
      else (
        raised
            (workflow_error 400 (concat ("Unsupported workflow step kind '" ∷ s.kind ∷ "'." ∷ []))),
        e,
      )

  -- `emit_extension_point` of the plugin framework
  unfoldable pub emit : String → Fields → Engine → Result (Unit {0})
  unfolding run_hooks
  emit point event e = run_hooks env.hook event (rows point e.plugins.hooks)

  unfoldable pub step_event : WorkflowStep → Fields
  step_event s =
      field "workflow" (str w.name)
        (field "step" (obj (step_dict s)) (field "request_id" (str context.request_id) end))

  unfoldable pub after_step : WorkflowStep → Result Fields × Engine → Result Fields × Engine
  unfolding emit step_event
  after_step s (raised x, e) = (raised x, e)
  after_step s (ok result, e) = (
    emit "workflow.after_step" (put "result" (obj result) (step_event s)) e >>= λ _. ok result,
    e,
  )

  unfoldable pub before_step : WorkflowStep → Result (Unit {0}) → Engine → Result Fields × Engine
  unfolding execute_step after_step
  before_step s (raised x) e = (raised x, e)
  before_step s (ok _) e = after_step s (execute_step s e)

  -- The body of the loop: the two extension points and the step between them
  unfoldable pub whole_step : WorkflowStep → Engine → Result Fields × Engine
  unfolding before_step emit step_event
  whole_step s e = before_step s (emit "workflow.before_step" (step_event s) e) e

-- An entry of `step_results`
abbrev pub step_entry : WorkflowStep → Fields → Fields
step_entry s result =
    field "id" (str s.id)
      (field "kind" (str s.kind) (field "target" (str s.target) (field "result" (obj result) end)))

module _ (py : Builtins) (env : RunEnv) (w : WorkflowDefinition) (payload : Fields)
    (context : WorkflowExecutionContext) where
  -- The loop over the steps; `i` counts those before.
  unfoldable pub run_steps : ℕ → List WorkflowStep → Engine → Result (List Fields) × Engine
  unfolding whole_step
  run_steps i [] e = (ok [], e)
  run_steps i (s ∷ steps) e = elim (whole_step py (env.at_step i) w payload context s e).0 [
    | raised x ↦ (raised x, (whole_step py (env.at_step i) w payload context s e).1)
    | ok result ↦
        let (r, e') =
          run_steps (suc i) steps (whole_step py (env.at_step i) w payload context s e).1 in
        (r >>= λ results. ok (step_entry s result ∷ results), e')
  ]

  unfoldable pub started_event : EventEnvelope
  unfolding envelope
  started_event =
      envelope env.around.pre_id env.around.now "workflow.started"
        (field "workflow" (str w.name) (
          field "version" (str w.version)
            (field "request_id" (str context.request_id) (field "actor" (str context.actor) end))))
        "workflow-engine"

  unfoldable pub result_payload : List Fields → Fields
  result_payload results = field "workflow" (str w.name) (
      field "version" (str w.version)
        (field "request_id" (str context.request_id) (field "steps" (arr (items results)) end)))

  unfoldable pub completed_event : List Fields → EventEnvelope
  unfolding envelope result_payload
  completed_event results =
      envelope env.around.post_id env.around.now "workflow.completed" (result_payload results)
        "workflow-engine"

  unfoldable pub complete : Result (List Fields) × Engine → Result Fields × Engine
  unfolding publish_on completed_event result_payload
  complete (raised x, e) = (raised x, e)
  complete (ok results, e) =
      let (r, e') = publish_on env.around (completed_event results) e in
      (r >>= λ _. ok (result_payload results), e')

  unfoldable pub after_start : Result (Unit {0}) × Engine → Result Fields × Engine
  unfolding complete run_steps
  after_start (raised x, e) = (raised x, e)
  after_start (ok _, e) = complete (run_steps zero w.steps e)

-- `run_workflow`
unfoldable pub run_workflow :
    Builtins → RunEnv → String → Fields → WorkflowExecutionContext → Engine → Result Fields × Engine
unfolding after_start publish_on started_event
run_workflow py env workflow_name payload context e = elim (at workflow_name e.workflows) [
  | none ↦
      (raised (workflow_error 404 (concat ("Unknown workflow '" ∷ workflow_name ∷ "'." ∷ []))), e)
  | some w ↦
      after_start py env w payload context
        (publish_on env.around (started_event py env w payload context) e)
]
