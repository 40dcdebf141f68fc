-- ===== src/Workflows/Examples.antt =====
-- The theorems of this folder at small definitions.
use autoweave_library.Common.{
  ◌≡◌, refl, none, List, [], ◌∷◌, String, same_text, text_leb, set_add, sorted, ok, err,
  value_error, bind, string_eq, map, concat_text, decimal, ℕ,
}
use autoweave_library.Models.{TaskRecord, WorkflowGraph, validate_edges}
use autoweave_library.Orchestration.Graph.{topological_order}
use autoweave_library.Workflows.Definition.{
  TaskTemplateConfig, WorkflowDefinitionConfig, Templates, dependency_graph,
  validate_dependency_references,
}
use autoweave_library.Workflows.Cycles.{validate_acyclic}
use autoweave_library.Workflows.Cycles.Decides.{IsDecided}
use autoweave_library.Workflows.Compile.{
  GraphOptions, WorkflowTopology, build_workflow_graph, build_workflow_topology,
}
use autoweave_library.Workflows.Compile.Checked.{validate_acyclic_decides}
use autoweave_library.Workflows.Notifications.{example_notifications_workflow_definition}

abbrev template : String → List String → TaskTemplateConfig
template key hard = record {
  key = key;
  title = "";
  assigned_role = "backend";
  description_template = "";
  hard_dependencies = hard;
  soft_dependencies = [];
  required_artifacts = [];
  produced_artifacts = [];
  approval_requirements = [];
  memory_scopes = [];
  route_hints = [];
}

abbrev looped : Templates
looped = ("a", template "a" ("b" ∷ [])) ∷ ("b", template "b" ("a" ∷ [])) ∷ []

validate_acyclic_decides_example :
    IsDecided (dependency_graph looped) (validate_acyclic (dependency_graph looped))
unfolding validate_dependency_references same_text
validate_acyclic_decides_example = validate_acyclic_decides looped refl

notifications_order :
    bind
      (build_workflow_topology example_notifications_workflow_definition)
      (λ (t : WorkflowTopology). ok t.topological_order)
    ≡ ok (
        "manager_plan" ∷ "backend_contract" ∷ "frontend_ui" ∷ "backend_impl" ∷ "integration"
        ∷ "review" ∷ [])
unfolding build_workflow_topology example_notifications_workflow_definition same_text text_leb
    set_add sorted
notifications_order = refl

abbrev options : GraphOptions
options = record {
  project_id = "p";
  team_id = "t";
  workflow_definition_id = none;
  workflow_run_id = none;
  root_input_json = none;
  graph_revision = 1;
}

abbrev ids : String → ℕ → String
ids kind n = concat_text kind (decimal n)

abbrev repeated : WorkflowDefinitionConfig
repeated = record example_notifications_workflow_definition {
  entrypoint = "a";
  task_templates = template "a" [] ∷ template "b" ("a" ∷ "a" ∷ []) ∷ [];
}

-- A dependency that is written twice passes the checks of the definition, and the graph that is
-- built has no order at run time.
repeated_dependency :
    bind
      (build_workflow_graph (λ t values. t) ids 0 repeated options)
      (λ (g : WorkflowGraph). topological_order g.tasks g.edges)
    ≡ err value_error
unfolding build_workflow_graph validate_edges same_text text_leb set_add sorted topological_order
    decimal
repeated_dependency = refl

repeated_built :
    bind
      (build_workflow_graph (λ t values. t) ids 0 repeated options)
      (λ (g : WorkflowGraph). ok (map (λ (t : TaskRecord). t.task_key) g.tasks))
    ≡ ok ("a" ∷ "b" ∷ [])
unfolding build_workflow_graph validate_edges same_text text_leb set_add sorted decimal
repeated_built = refl
