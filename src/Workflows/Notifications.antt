-- ===== src/Workflows/Notifications.antt =====
-- autoweave/workflows/spec.py: the example workflow of the architecture documents.
use autoweave_library.Common.{List, [], ◌∷◌}
use autoweave_library.Workflows.Definition.{TaskTemplateConfig, WorkflowDefinitionConfig}

abbrev pub notifications_templates : List TaskTemplateConfig
notifications_templates =
    record {
      key = "manager_plan";
      title = "Manager plan";
      assigned_role = "manager";
      description_template = "Plan the notifications settings implementation.";
      hard_dependencies = [];
      soft_dependencies = [];
      required_artifacts = [];
      produced_artifacts = "plan" ∷ [];
      approval_requirements = [];
      memory_scopes = "project" ∷ [];
      route_hints = "planner" ∷ [];
    }
    ∷ record {
      key = "backend_contract";
      title = "Backend contract";
      assigned_role = "backend";
      description_template = "Define backend API contract.";
      hard_dependencies = "manager_plan" ∷ [];
      soft_dependencies = [];
      required_artifacts = "plan" ∷ [];
      produced_artifacts = "api_contract" ∷ [];
      approval_requirements = [];
      memory_scopes = "project" ∷ [];
      route_hints = "coding" ∷ [];
    }
    ∷ record {
      key = "backend_impl";
      title = "Backend implementation";
      assigned_role = "backend";
      description_template = "Implement backend API support.";
      hard_dependencies = "backend_contract" ∷ [];
      soft_dependencies = [];
      required_artifacts = "api_contract" ∷ [];
      produced_artifacts = "backend_impl" ∷ [];
      approval_requirements = [];
      memory_scopes = "project" ∷ [];
      route_hints = "coding" ∷ [];
    }
    ∷ record {
      key = "frontend_ui";
      title = "Frontend UI";
      assigned_role = "frontend";
      description_template = "Build the notifications settings page.";
      hard_dependencies = "manager_plan" ∷ [];
      soft_dependencies = [];
      required_artifacts = "plan" ∷ [];
      produced_artifacts = "frontend_ui" ∷ [];
      approval_requirements = [];
      memory_scopes = "project" ∷ [];
      route_hints = "coding" ∷ [];
    }
    ∷ record {
      key = "integration";
      title = "Integration";
      assigned_role = "backend";
      description_template = "Integrate backend and frontend work.";
      hard_dependencies = "backend_impl" ∷ "frontend_ui" ∷ [];
      soft_dependencies = [];
      required_artifacts = "backend_impl" ∷ "frontend_ui" ∷ [];
      produced_artifacts = "integration_report" ∷ [];
      approval_requirements = [];
      memory_scopes = "project" ∷ [];
      route_hints = "integration" ∷ [];
    }
    ∷ record {
      key = "review";
      title = "Review";
      assigned_role = "reviewer";
      description_template = "Review the integration results.";
      hard_dependencies = "integration" ∷ [];
      soft_dependencies = [];
      required_artifacts = "integration_report" ∷ [];
      produced_artifacts = "review_notes" ∷ [];
      approval_requirements = "review_signoff" ∷ [];
      memory_scopes = "project" ∷ [];
      route_hints = "review" ∷ [];
    }
    ∷ []

unfoldable pub example_notifications_workflow_definition : WorkflowDefinitionConfig
example_notifications_workflow_definition = record {
  name = "notifications_settings";
  version = "1.0";
  roles = "manager" ∷ "backend" ∷ "frontend" ∷ "reviewer" ∷ [];
  stages = "planning" ∷ "implementation" ∷ "integration" ∷ "review" ∷ [];
  entrypoint = "manager_plan";
  policies = "{\"parallelism\": \"dependency-driven\"}";
  task_templates = notifications_templates;
  completion_rules = "{\"require_review\": true}";
}
