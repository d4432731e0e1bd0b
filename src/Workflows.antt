-- ===== src/Workflows.antt =====
-- backend/app/platform/workflow_engine.py: workflows whose steps publish events and run agents and
-- plugins. The bus that the three frameworks share stands in the plugin framework.
pub mod Steps
pub mod Runs
pub mod Tests
use gitvibe_dev.Prelude.{
  ℕ, suc, String, Option, none, some, List, [], ◌∷◌, map, ◌==◌, if◌then◌else◌,
}
use gitvibe_dev.Prelude.Table.{Table, at, set_at}
use gitvibe_dev.Prelude.Sort.{sort_by, sorted_set}
use gitvibe_dev.Exc.{Result, ok, raised, workflow_error, ◌>>=◌}
use gitvibe_dev.Json.{str, arr, obj, Items, nil, cons, Fields, end, field, of_strings}
use gitvibe_dev.Json.Convert.{strip, is_empty, concat}
use gitvibe_dev.Agents.{AgentSpec, AgentHandler}
use gitvibe_dev.Plugins.{Framework, Surroundings}

pub record WorkflowStep : Type 0 where
  pub id : String
  pub kind : String
  pub target : String
  pub config : Fields

pub record WorkflowDefinition : Type 0 where
  pub name : String
  pub version : String
  pub description : String
  pub steps : List WorkflowStep
  pub extension_points : List String

pub record WorkflowExecutionContext : Type 0 where
  pub actor : String
  pub role : String
  pub request_id : String
  pub git_provider : String
  pub oauth_owner : Option String
  pub metadata : Fields

pub record Engine : Type 0 where
  pub workflows : Table WorkflowDefinition
  pub agents : Table (AgentSpec × AgentHandler)
  pub plugins : Framework

-- What a run meets outside: step number `i` has `at_step i`, the events around the steps have
-- their own ids.
pub record RunEnv : Type 0 where
  pub at_step : ℕ → Surroundings
  pub around : Surroundings

-- `WorkflowStep.as_dict`
abbrev pub step_dict : WorkflowStep → Fields
step_dict s =
    field "id" (str s.id) (
      field "kind" (str s.kind) (field "target" (str s.target) (field "config" (obj s.config) end)))

abbrev pub items : List Fields → Items
items [] = nil
items (d ∷ ds) = cons (obj d) (items ds)

-- `WorkflowDefinition.as_dict`
unfoldable pub definition_dict : WorkflowDefinition → Fields
definition_dict w = field "name" (str w.name) (
    field "version" (str w.version) (
      field "description" (str w.description) (
        field "steps" (arr (items (map step_dict w.steps)))
          (field "extension_points" (arr (of_strings (sorted_set w.extension_points))) end))))

-- `register_workflow`
unfoldable pub register_workflow : WorkflowDefinition → Engine → Result Engine
register_workflow w e =
    if is_empty (strip w.name)
    then raised (workflow_error 400 "Workflow name cannot be empty.")
    else ok (record e { workflows = set_at w.name w e.workflows })

-- `list_workflows`
unfoldable pub list_workflows : Engine → List Fields
unfolding definition_dict
list_workflows e = map definition_dict (
    sort_by (λ (w : WorkflowDefinition). w.name)
      (map (λ (x : String × WorkflowDefinition). x.1) e.workflows))
