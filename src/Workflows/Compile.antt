-- ===== src/Workflows/Compile.antt =====
-- autoweave/workflows/spec.py: `build_workflow_topology` and `build_workflow_graph`. The template
-- language of `str.format_map` is the argument `render`, and `fresh` gives the n-th generated id
-- of a kind.
pub mod Checked
use autoweave_library.Common.{
  ℕ, zero, suc, ◌+◌, Bool, Option, none, some, List, [], ◌∷◌, ◌++◌, map, String, Dict, lookup,
  insert, get_or, Result, ok, err, required, bind, key_error, length, if◌then◌else◌, ◌==◌,
  string_eq, nat_eq, true, false, is_some_text, concat_text,
}
use Prim.Native.Char.{code}
use autoweave_library.Models.{
  TaskState, WorkflowRunStatus, WorkflowRunRecord, TaskRecord, TaskEdgeRecord, WorkflowGraph,
  validate_edges,
}
use autoweave_library.Workflows.Definition.{
  TaskTemplateConfig, WorkflowDefinitionConfig, Templates, index_templates,
  validate_dependency_references, dependency_graph,
}
use autoweave_library.Workflows.Cycles.{validate_acyclic, template_order}

pub record WorkflowTopology : Type 0 where
  pub definition : WorkflowDefinitionConfig
  pub hard_dependencies : Dict String (List String)
  pub soft_dependencies : Dict String (List String)
  pub topological_order : List String

-- `{template.key: tuple(...) for template in templates}`
unfoldable pub index_lists :
    (TaskTemplateConfig → List String)
    → List TaskTemplateConfig
    → Dict String (List String)
    → Dict String (List String)
index_lists field [] d = d
index_lists field (t ∷ ts) d = index_lists field ts (insert t.key (field t) d)

unfoldable pub build_workflow_topology : WorkflowDefinitionConfig → Result WorkflowTopology
unfolding index_templates validate_dependency_references validate_acyclic dependency_graph
    template_order index_lists
build_workflow_topology definition =
    let templates = index_templates definition.task_templates [] in
    bind (validate_dependency_references templates) λ _.
      bind (validate_acyclic (dependency_graph templates)) λ _.
        bind (template_order (dependency_graph templates)) λ order. ok (record {
          definition = definition;
          hard_dependencies = index_lists (λ t. t.hard_dependencies) definition.task_templates [];
          soft_dependencies = index_lists (λ t. t.soft_dependencies) definition.task_templates [];
          topological_order = order;
        })

unfoldable pub hard_predecessors_of : String → WorkflowTopology → List String
hard_predecessors_of task_key topology = get_or [] task_key topology.hard_dependencies

unfoldable pub soft_predecessors_of : String → WorkflowTopology → List String
soft_predecessors_of task_key topology = get_or [] task_key topology.soft_dependencies

-- `text.replace(":", "_")`
unfoldable pub underscored : String → String
underscored String.[] = ""
underscored (String.◌∷◌ c s) =
    concat_text (if code c == b':' then "_" else String.◌∷◌ c "") (underscored s)

-- `value or default` on a text.
unfoldable pub text_or : Option String → String → String
text_or none default = default
text_or (some text) default = if is_some_text text then text else default

-- What the caller of `build_workflow_graph` passes beside the definition.
pub record GraphOptions : Type 0 where
  pub project_id : String
  pub team_id : String
  pub workflow_definition_id : Option String
  pub workflow_run_id : Option String
  pub root_input_json : Option String
  pub graph_revision : ℕ

unfoldable pub new_run : WorkflowDefinitionConfig → GraphOptions → WorkflowRunRecord
unfolding text_or underscored
new_run definition options =
    let definition_id =
      text_or options.workflow_definition_id
        (concat_text definition.name (concat_text ":" definition.version)) in
    record {
      id = text_or options.workflow_run_id (concat_text (underscored definition_id) "_run");
      project_id = options.project_id;
      team_id = options.team_id;
      workflow_definition_id = definition_id;
      graph_revision = options.graph_revision;
      root_input_json = text_or options.root_input_json "{}";
      status = WorkflowRunStatus.created;
      started_at = none;
      ended_at = none;
    }

module _ (render : (template values : String) → String) (fresh : (kind : String) → ℕ → String)
    (now : ℕ) where
  -- `_render_template`
  unfoldable pub render_template : (template values : String) → String
  render_template template values = if values == "{}" then template else render template values

  unfoldable pub task_of : WorkflowRunRecord → ℕ → TaskTemplateConfig → TaskRecord
  unfolding render_template
  task_of run n template = record {
    id = fresh "task" n;
    workflow_run_id = run.id;
    task_key = template.key;
    state = TaskState.created;
    block_reason = none;
    updated_at = now;
    payload = record {
      title = template.title;
      description = render_template template.description_template run.root_input_json;
      assigned_role = template.assigned_role;
      priority = 100;
      input_json = run.root_input_json;
      output_json = "{}";
      required_artifact_types_json = template.required_artifacts;
      produced_artifact_types_json = template.produced_artifacts;
      created_at = now;
    };
  }

  unfoldable pub tasks_of : WorkflowRunRecord → ℕ → List TaskTemplateConfig → List TaskRecord
  unfolding task_of
  tasks_of run n [] = []
  tasks_of run n (t ∷ ts) = task_of run n t ∷ tasks_of run (suc n) ts

  -- `tasks_by_key[template.key] = task`
  unfoldable pub index_tasks_by_key :
      List TaskRecord → Dict String TaskRecord → Dict String TaskRecord
  index_tasks_by_key [] d = d
  index_tasks_by_key (t ∷ ts) d = index_tasks_by_key ts (insert t.task_key t d)

  unfoldable pub edges_from :
      WorkflowRunRecord
      → Dict String TaskRecord
      → TaskRecord
      → Bool
      → ℕ
      → List String
      → Result (List TaskEdgeRecord)
  edges_from run by_key task hard n [] = ok []
  edges_from run by_key task hard n (key ∷ keys) =
      bind (required (lookup key by_key) key_error) λ dependency.
        bind (edges_from run by_key task hard (suc n) keys) λ rest. ok (
          record {
            id = fresh "edge" n;
            workflow_run_id = run.id;
            from_task_id = dependency.id;
            to_task_id = task.id;
            is_hard_dependency = hard;
          }
          ∷ rest)

  unfoldable pub template_edges :
      WorkflowRunRecord
      → Dict String TaskRecord
      → ℕ
      → TaskTemplateConfig
      → Result (List TaskEdgeRecord)
  unfolding edges_from
  template_edges run by_key n t = bind (required (lookup t.key by_key) key_error) λ task.
      bind (edges_from run by_key task true n t.hard_dependencies) λ hard.
        bind (edges_from run by_key task false (n + length hard) t.soft_dependencies)
          λ soft. ok (hard ++ soft)

  unfoldable pub edges_of :
      WorkflowRunRecord
      → Dict String TaskRecord
      → ℕ
      → List TaskTemplateConfig
      → Result (List TaskEdgeRecord)
  unfolding template_edges
  edges_of run by_key n [] = ok []
  edges_of run by_key n (t ∷ ts) =
      bind (template_edges run by_key n t)
        λ here. bind (edges_of run by_key (n + length here) ts) λ rest. ok (here ++ rest)

  unfoldable pub build_workflow_graph :
      WorkflowDefinitionConfig → GraphOptions → Result WorkflowGraph
  unfolding build_workflow_topology new_run tasks_of index_tasks_by_key edges_of
  build_workflow_graph definition options = bind (build_workflow_topology definition) λ _.
      let run = new_run definition options in
      let tasks = tasks_of run 0 definition.task_templates in
      bind (edges_of run (index_tasks_by_key tasks []) 0 definition.task_templates)
        λ edges. validate_edges (record { workflow_run = run; tasks = tasks; edges = edges })
