-- ===== src/Prompts/Pack.antt =====
-- `validate_pack` of prompts.py: the problems of a pack, one constructor for each message.
pub mod Usable
pub mod Sound
use Prim.Native.Char.{Char, code}
use Prim.Native.String
use simulation_ai.Prelude.{
  ℕ, suc, String, Bool, true, false, not, ◌&&◌, ◌||◌, Option, none, some, List, [], ◌∷◌, ◌++◌, ◌==◌,
  leb, nat_eq, if◌then◌else◌,
}
use simulation_ai.Prelude.Texts.{str_append, str_len, is_empty, is_space, strip}
use simulation_ai.Json.{Value, str, Fields, truthy, empty_list, null}
use simulation_ai.Json.Dict.{lookup, get_or}
use simulation_ai.Result.{Error, Result, ok, err, ◌>>=◌, type_error}
use simulation_ai.Runtime.{Runtime, str_of}
use simulation_ai.Model.{one_of}
use simulation_ai.Adapters.Texts.{is_substring}
use simulation_ai.Store.{Dir, find}
use simulation_ai.Prompts.Spec.{PromptSpec, elements}
use simulation_ai.Prompts.Output.{Validator, SchemaIssue}
use simulation_ai.Prompts.Registry.{Registry, find_spec, output_schema, read_json, pack_sha256}

pub data Problem : Type 0 where
  no_prompts : Problem
  schema_without_id : String → Problem
  duplicate_schema : String → String → String → Problem
  invalid_schema : String → Problem
  manifest_contract : String → Problem
  invalid_prompt_id : String → Problem
  missing_file : String → String → Problem
  empty_file : String → Problem
  without_output_schema : String → Problem
  bad_output_schema : Error → Problem
  not_a_schema : String → Problem
  without_reminder : String → Problem
  invalid_risk : String → String → Problem
  without_modalities : String → Problem
  bypasses_gate : String → Problem
  invalid_input_field : String → String → Problem
  unknown_policy : String → String → Problem
  duplicate_workflow : String → Problem
  empty_workflow : String → Problem
  without_gates : String → Problem
  unknown_step_prompt : String → String → Problem
  invokes_policy : String → String → Problem

is_id_char : Char → Bool
is_id_char c =
    (leb b'a' (code c) && leb (code c) b'z')
    || (leb b'0' (code c) && leb (code c) b'9')
    || nat_eq (code c) b'_'

all_id_chars : String → Bool
unfolding is_id_char
all_id_chars String.[] = true
all_id_chars (String.◌∷◌ c s) = is_id_char c && all_id_chars s

-- `_SAFE_ID.fullmatch(s)`
unfoldable pub is_safe_id : String → Bool
unfolding all_id_chars str_len
is_safe_id String.[] = false
is_safe_id (String.◌∷◌ c s) =
    leb b'a' (code c)
    && leb (code c) b'z'
    && leb 1 (str_len s)
    && leb (str_len s) 63
    && all_id_chars s

-- a problem, if there is one
unfoldable pub when : Bool → Problem → List Problem
when true p = p ∷ []
when false p = []

module _ (rt : Runtime) (j : Validator) where
  -- the problems of one file of schemas, after those whose identifiers are taken
  unfoldable pub schema_problems : Dir String → String → Option Value → Dir String × List Problem
  unfolding read_json get_or str_of find
  schema_problems seen name content = elim (read_json content) [
    | err e ↦ (seen, invalid_schema name ∷ [])
    | ok d ↦ elim (j.check_schema d) [
      | some m ↦ (seen, invalid_schema name ∷ [])
      | none ↦
          let schema_id = str_of rt (get_or "$id" (str "") d) in
          if is_empty schema_id
          then (seen, schema_without_id name ∷ [])
          else elim (find schema_id seen) [
            | some other ↦ (seen, duplicate_schema schema_id other name ∷ [])
            | none ↦ ((schema_id, name) ∷ seen, [])
          ]
    ]
  ]

  unfoldable pub all_schema_problems : Dir String → Dir (Option Value) → List Problem
  unfolding schema_problems
  all_schema_problems seen [] = []
  all_schema_problems seen ((name, content) ∷ l) =
      let here = schema_problems seen name content in here.1 ++ all_schema_problems here.0 l

  contract_problems : List SchemaIssue → List Problem
  contract_problems [] = []
  contract_problems (e ∷ l) = manifest_contract e.message ∷ contract_problems l

  -- the manifest against its own schema, if there is one; a schema file that is no object raises
  unfoldable pub manifest_problems : Registry → Result (List Problem)
  unfolding contract_problems find read_json
  manifest_problems r = elim (find "prompt-manifest.schema.json" r.schema_files) [
    | none ↦ ok []
    | some content ↦ read_json content >>= λ d. ok (contract_problems (j.iter_errors d r.manifest))
  ]

  input_problems : String → List String → List Problem
  unfolding is_safe_id
  input_problems prompt_id [] = []
  input_problems prompt_id (name ∷ l) =
      when (not (is_safe_id name)) (invalid_input_field name prompt_id)
      ++ input_problems prompt_id l

  has_spec : String → List PromptSpec → Bool
  unfolding find_spec
  has_spec k specs = elim (find_spec k specs) [ none ↦ false | some s ↦ true ]

  policy_problems : List PromptSpec → String → List String → List Problem
  unfolding has_spec
  policy_problems specs prompt_id [] = []
  policy_problems specs prompt_id (policy_id ∷ l) =
      when (not (has_spec policy_id specs)) (unknown_policy policy_id prompt_id)
      ++ policy_problems specs prompt_id l

  unfoldable pub missing_schema : PromptSpec → Bool
  missing_schema s =
      elim s.output_schema [ none ↦ true | some t ↦ is_empty t ]
      || elim s.output_schema_file [ none ↦ true | some t ↦ is_empty t ]

  unfoldable pub output_problems : Registry → PromptSpec → List Problem
  unfolding missing_schema output_schema
  output_problems r s =
      if missing_schema s then without_output_schema s.id ∷ [] else elim (output_schema rt r s) [
        | err e ↦ bad_output_schema e ∷ []
        | ok d ↦ elim (j.check_schema d) [ none ↦ [] | some m ↦ not_a_schema m ∷ [] ]
      ]

  unfoldable pub callable_problems : Registry → PromptSpec → String → List Problem
  unfolding output_problems is_substring one_of
  callable_problems r s text =
      output_problems r s
      ++ when
          (not (is_substring "deterministic" (rt.lower (str_append text s.authority)))
            && one_of s.stage ("propose" ∷ "merge" ∷ []))
          (without_reminder s.id)

  no_texts : List String → Bool
  no_texts [] = true
  no_texts (s ∷ l) = false

  -- what is wrong with a prompt whose file is there
  unfoldable pub present_problems : Registry → PromptSpec → String → List Problem
  unfolding callable_problems strip is_space one_of no_texts input_problems policy_problems
  present_problems r s text =
      when (is_empty (strip is_space text)) (empty_file s.id)
      ++ ((if s.callable then callable_problems r s text else [])
          ++ (when (not (one_of s.risk_level ("low" ∷ "medium" ∷ "high" ∷ "critical" ∷ [])))
                (invalid_risk s.id s.risk_level)
              ++ (when (no_texts s.modalities) (without_modalities s.id)
                  ++ (when (s.callable && not s.deterministic_gate_required) (bypasses_gate s.id)
                      ++ (input_problems s.id (s.required_inputs ++ s.optional_inputs)
                          ++ policy_problems r.specs s.id s.shared_policies)))))

  unfoldable pub prompt_problems : Registry → PromptSpec → List Problem
  unfolding is_safe_id find present_problems
  prompt_problems r s =
      when (not (is_safe_id s.id)) (invalid_prompt_id s.id) ++ elim (find s.file r.prompt_files) [
        | none ↦ missing_file s.id s.file ∷ []
        | some text ↦ present_problems r s text
      ]

  unfoldable pub all_prompt_problems : Registry → List PromptSpec → List Problem
  unfolding prompt_problems
  all_prompt_problems r [] = []
  all_prompt_problems r (s ∷ l) = prompt_problems r s ++ all_prompt_problems r l

  -- a step of a workflow: its prompt has to be known and callable
  unfoldable pub step_spec : List PromptSpec → Value → Option PromptSpec
  unfolding find_spec
  step_spec specs (str k) = find_spec k specs
  step_spec specs _ = none

  unfoldable pub step_problems : List PromptSpec → String → List Value → List Problem
  unfolding step_spec str_of
  step_problems specs workflow_id [] = []
  step_problems specs workflow_id (v ∷ l) =
      elim (step_spec specs v) [
        | none ↦ unknown_step_prompt workflow_id (str_of rt v) ∷ []
        | some s ↦ when (not s.callable) (invokes_policy workflow_id (str_of rt v))
      ]
      ++ step_problems specs workflow_id l

  no_values : List Value → Bool
  no_values [] = true
  no_values (v ∷ l) = false

  unfoldable pub workflow_problems :
      List PromptSpec → List String → String → List Value → Value → List Problem
  unfolding one_of no_values step_problems
  workflow_problems specs seen workflow_id prompts gates =
      when (one_of workflow_id seen) (duplicate_workflow workflow_id)
      ++ (when (no_values prompts) (empty_workflow workflow_id)
          ++ (when (not (truthy gates)) (without_gates workflow_id)
              ++ step_problems specs workflow_id prompts))

  unfoldable pub all_workflow_problems :
      List PromptSpec → List String → List Fields → Result (List Problem)
  unfolding workflow_problems elements get_or str_of
  all_workflow_problems specs seen [] = ok []
  all_workflow_problems specs seen (w ∷ l) = do
    let workflow_id = str_of rt (get_or "id" (str "") w)
    prompts ← elements (get_or "prompts" empty_list w)
    rest ← all_workflow_problems specs (workflow_id ∷ seen) l
    ok (
        workflow_problems specs seen workflow_id prompts (get_or "deterministic_gates" null w)
        ++ rest)

  unfoldable pub count_problems : List PromptSpec → List Problem
  count_problems [] = no_prompts ∷ []
  count_problems (s ∷ l) = []

  unfoldable pub pack_problems : Registry → Result (List Problem)
  unfolding count_problems all_schema_problems manifest_problems all_prompt_problems
      all_workflow_problems
  pack_problems r = do
    contract ← manifest_problems r
    flows ← all_workflow_problems r.specs [] r.workflows
    ok (
        count_problems r.specs
        ++ (all_schema_problems [] r.schema_files
            ++ (contract ++ (all_prompt_problems r r.specs ++ flows))))
