-- ===== src/Tests/Prompts.antt =====
-- A pack with one prompt and one workflow.
use simulation_ai.Prelude.{String, true, false, none, some, [], ◌∷◌, ◌≡◌, ◌↔◌, refl}
use simulation_ai.Prelude.Int.{pos}
use simulation_ai.Prelude.Lists.{All}
use simulation_ai.Json.{truthy, Value, bool, int, str, arr, obj, Fields, end, items, texts}
use simulation_ai.Json.Dict.{lookup, get_or}
use simulation_ai.Json.Equal.{py_eq}
use simulation_ai.Result.{ok}
use simulation_ai.Model.{dict}
use simulation_ai.Prompts.Spec.{PromptSpec}
use simulation_ai.Prompts.Registry.{Registry, get_spec}
use simulation_ai.Prompts.Output.{Validator}
use simulation_ai.Prompts.Pack.{pack_problems, when}
use simulation_ai.Prompts.Pack.Usable.{IsUsable}
use simulation_ai.Prompts.Pack.Sound.{IsRunnable, pack_problems-IsUsable}
use simulation_ai.Prompts.Secrets.{is_secret, reject_secret_fields, reject_secret_fields_iff, KeyIn}
use simulation_ai.Prompts.Strict.{visit, strict_compatibility, compatibility_of}
use simulation_ai.Prompts.Strict.Nodes.{Node, root, property, strict_compatibility-IsStrict}
use simulation_ai.Prompts.Strict.Closed.{IsStrict}
use simulation_ai.Prompts.Render.{render, invocation}
use simulation_ai.Prompts.Render.Accepts.{Accepts, render-Accepts}
use simulation_ai.Tests.Fixtures.{test_runtime}

abbrev nested_inputs : Value
nested_inputs = arr (items (obj (dict (("goal", str "look") ∷ ("depth", int (pos 2)) ∷ [])) ∷ []))

reject_secret_fields_iff_example :
    (reject_secret_fields test_runtime nested_inputs ≡ ok tt)
    ↔ ((key : String) → KeyIn key nested_inputs → is_secret test_runtime key ≡ false)
reject_secret_fields_iff_example = reject_secret_fields_iff test_runtime nested_inputs

abbrev closed_node : Fields
closed_node = dict (("type", str "object") ∷ ("additionalProperties", bool false) ∷ [])

abbrev plan_schema : Fields
plan_schema = dict (
    ("$id", str "plan/1")
    ∷ ("type", str "object")
    ∷ ("properties", obj (dict (("step", obj closed_node) ∷ [])))
    ∷ ("required", arr (texts ("step" ∷ [])))
    ∷ ("additionalProperties", bool false)
    ∷ [])

plan_compatible : strict_compatibility (obj plan_schema) ≡ ok (compatibility_of [])
unfolding strict_compatibility texts
plan_compatible = refl

plan_flag : lookup "compatible" (compatibility_of []) ≡ some (bool true)
unfolding lookup compatibility_of
plan_flag = refl

inner-Node : Node closed_node (obj plan_schema)
unfolding lookup py_eq get_or visit
inner-Node = property "step" refl refl refl (root refl)

strict_compatibility-IsStrict_example : IsStrict closed_node
strict_compatibility-IsStrict_example =
    strict_compatibility-IsStrict (obj plan_schema) closed_node (compatibility_of [])
      plan_compatible plan_flag inner-Node

abbrev pub planner : PromptSpec
planner = record {
  id = "state_planner";
  title = "Planner";
  description = "";
  version = "1";
  file = "planner.md";
  stage = "propose";
  authority = "proposal only";
  output_schema = some "plan/1";
  output_schema_file = some "plan.json";
  required_inputs = "goal" ∷ [];
  optional_inputs = [];
  task_types = [];
  runtime_class = "";
  callable = true;
  shared_policies = [];
  risk_level = "low";
  latency_class = "";
  preferred_model_class = "";
  modalities = "text" ∷ [];
  deterministic_gate_required = true;
  tags = [];
}

abbrev planner_workflow : Fields
planner_workflow = dict (
    ("id", str "plan_once")
    ∷ ("prompts", arr (items (str "state_planner" ∷ [])))
    ∷ ("deterministic_gates", arr (items (str "commit" ∷ [])))
    ∷ [])

abbrev pub test_registry : Registry
test_registry = record {
  manifest = end;
  pack_id = "pack";
  pack_version = "1";
  max_input_bytes = pos 100;
  specs = planner ∷ [];
  workflows = planner_workflow ∷ [];
  prompt_files = ("planner.md", "Plan under the deterministic gate.") ∷ [];
  schema_files = ("plan.json", some (obj plan_schema)) ∷ [];
}

abbrev pub test_validator : Validator
test_validator = record { iter_errors = λ s v. []; check_schema = λ s. none }

no_problems : pack_problems test_runtime test_validator test_registry ≡ ok []
unfolding pack_problems when items truthy
no_problems = refl

pack_problems-IsUsable_example :
    All (IsUsable test_runtime test_validator test_registry) (planner ∷ [])
    × All (IsRunnable test_runtime test_validator test_registry) (planner_workflow ∷ [])
pack_problems-IsUsable_example =
    pack_problems-IsUsable test_runtime test_validator test_registry no_problems

abbrev pub goal : Fields
goal = dict (("goal", str "open the editor") ∷ [])

abbrev pub goal_invocation : Fields
goal_invocation =
    invocation test_runtime test_registry 0 planner goal [] "Plan under the deterministic gate."
      plan_schema (compatibility_of [])

goal_rendered : render test_runtime test_registry 0 "state_planner" goal ≡ ok goal_invocation
unfolding render
goal_rendered = refl

render-Accepts_example :
    (spec : PromptSpec) × (get_spec test_runtime test_registry "state_planner" ≡ ok spec)
    × Accepts test_runtime test_registry spec goal
render-Accepts_example =
    render-Accepts test_runtime test_registry 0 "state_planner" goal goal_invocation goal_rendered
