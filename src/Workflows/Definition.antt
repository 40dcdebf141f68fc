-- ===== src/Workflows/Definition.antt =====
-- autoweave/config_models.py and autoweave/workflows/spec.py: a definition, its references and the
-- graph of its dependencies. A set is a list without repetitions; Python does not fix the order in
-- which it walks one, here it is that of writing. JSON documents are kept as texts.
use autoweave_library.Common.{
  List, [], ◌∷◌, ◌++◌, map, String, Dict, insert, has_key, values, Result, ok, err, value_error,
  all, member, set_add, if◌then◌else◌, string_eq,
}

pub record TaskTemplateConfig : Type 0 where
  pub key : String
  pub title : String
  pub assigned_role : String
  pub description_template : String
  pub hard_dependencies : List String
  pub soft_dependencies : List String
  pub required_artifacts : List String
  pub produced_artifacts : List String
  pub approval_requirements : List String
  pub memory_scopes : List String
  pub route_hints : List String

pub record WorkflowDefinitionConfig : Type 0 where
  pub name : String
  pub version : String
  pub roles : List String
  pub stages : List String
  pub entrypoint : String
  pub policies : String
  pub task_templates : List TaskTemplateConfig
  pub completion_rules : String

unfoldable pub validate_entrypoint : WorkflowDefinitionConfig → Result WorkflowDefinitionConfig
validate_entrypoint definition =
    if member definition.entrypoint
      (map (λ (t : TaskTemplateConfig). t.key) definition.task_templates)
    then ok definition
    else err value_error

abbrev pub Templates : Type 0
Templates = Dict String TaskTemplateConfig

-- `{template.key: template for template in templates}`
unfoldable pub index_templates : List TaskTemplateConfig → Templates → Templates
index_templates [] d = d
index_templates (t ∷ ts) d = index_templates ts (insert t.key t d)

unfoldable pub validate_dependency_references : Templates → Result (Unit {0})
validate_dependency_references templates =
    if all
      (λ (t : TaskTemplateConfig).
        all (λ key. has_key key templates) (t.hard_dependencies ++ t.soft_dependencies))
      (values templates)
    then ok tt
    else err value_error

unfoldable pub set_of : List String → List String → List String
set_of [] s = s
set_of (a ∷ rest) s = set_of rest (set_add a s)

-- `set(hard) | set(soft)`
unfoldable pub dependencies : TaskTemplateConfig → List String
unfolding set_of
dependencies t = set_of (t.hard_dependencies ++ t.soft_dependencies) []

-- `{key: dependencies for key, template in templates.items()}`
unfoldable pub dependency_graph : Templates → Dict String (List String)
unfolding dependencies
dependency_graph [] = []
dependency_graph ((key, t) ∷ d) = (key, dependencies t) ∷ dependency_graph d
