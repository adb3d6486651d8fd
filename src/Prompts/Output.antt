-- ===== src/Prompts/Output.antt =====
-- `validate_output` of prompts.py. The check of a value against a JSON schema is the package
-- `jsonschema`, a parameter.
use simulation_ai.Prelude.{ℕ, zero, suc, String, Bool, true, false, Option, List, [], ◌∷◌}
use simulation_ai.Prelude.Texts.{str_append}
use simulation_ai.Json.{Value, bool, str, arr, obj, Fields, items}
use simulation_ai.Result.{
  Result, ok, err, guard, ◌>>=◌, ◌>>◌, policy_not_callable, output_not_object,
}
use simulation_ai.Runtime.{Runtime, show_nat, digest}
use simulation_ai.Model.{dict}
use simulation_ai.Prompts.Secrets.{reject_secret_fields}
use simulation_ai.Prompts.Spec.{PromptSpec, optional_text}
use simulation_ai.Prompts.Registry.{Registry, get_spec, output_schema}

-- A part of the path to a value: a key of a dict or a position in a list.
pub data Part : Type 0 where
  by_key : String → Part
  by_index : ℕ → Part

pub record SchemaIssue : Type 0 where
  pub absolute_path : List Part
  pub message : String
  pub validator : String

-- `iter_errors` gives the errors of a value in the order of their paths; `check_schema` the message of
-- a SchemaError, if the schema is none.
pub record Validator : Type 0 where
  pub iter_errors : Fields → Fields → List SchemaIssue
  pub check_schema : Fields → Option String

path_text : List Part → String
unfolding show_nat
path_text [] = ""
path_text (by_key k ∷ l) = str_append "." (str_append k (path_text l))
path_text (by_index i ∷ l) = str_append "[" (str_append (show_nat i) (str_append "]" (path_text l)))

unfoldable pub issue_dict : SchemaIssue → Value
unfolding path_text
issue_dict e = obj (
    dict (
      ("path", str (str_append "$" (path_text e.absolute_path)))
      ∷ ("message", str e.message)
      ∷ ("validator", str e.validator)
      ∷ []))

unfoldable pub issue_dicts : ℕ → List SchemaIssue → List Value
unfolding issue_dict
issue_dicts zero l = []
issue_dicts (suc n) [] = []
issue_dicts (suc n) (e ∷ l) = issue_dict e ∷ issue_dicts n l

unfoldable pub no_issues : List SchemaIssue → Bool
no_issues [] = true
no_issues (e ∷ l) = false

unfoldable pub validation_of : Runtime → PromptSpec → Fields → List SchemaIssue → Fields
unfolding issue_dicts no_issues optional_text
validation_of rt spec output errors = dict (
    ("schema", str "nmsr.prompt-output-validation/1")
    ∷ ("prompt_id", str spec.id)
    ∷ ("prompt_version", str spec.version)
    ∷ ("output_schema", optional_text spec.output_schema)
    ∷ ("output_sha256", str (digest rt (obj output)))
    ∷ ("valid", bool (no_issues errors))
    ∷ ("findings", arr (items (issue_dicts 100 errors)))
    ∷ ("deterministic_gate_required", bool spec.deterministic_gate_required)
    ∷ ("authority", str spec.authority)
    ∷ ("commit_authority", bool false)
    ∷ [])

unfoldable pub validate_output : Runtime → Validator → Registry → String → Value → Result Fields
unfolding get_spec reject_secret_fields output_schema validation_of
validate_output rt j r prompt_id (obj output) = do
  spec ← get_spec rt r prompt_id
  guard spec.callable policy_not_callable
  reject_secret_fields rt (obj output)
  schema ← output_schema rt r spec
  ok (validation_of rt spec output (j.iter_errors schema output))
validate_output rt j r prompt_id _ = do
  spec ← get_spec rt r prompt_id
  guard spec.callable policy_not_callable
  err output_not_object
