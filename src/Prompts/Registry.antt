-- ===== src/Prompts/Registry.antt =====
-- `PromptRegistry` of prompts.py: the pack as it was loaded, and the reads of it.
use simulation_ai.Prelude.{
  String, not, ◌&&◌, Option, none, some, List, [], ◌∷◌, ◌++◌, ◌==◌, if◌then◌else◌,
}
use simulation_ai.Prelude.Int.{ℤ, pos}
use simulation_ai.Prelude.Texts.{is_empty, is_space, strip}
use simulation_ai.Json.{Value, null, int, str, obj, Fields, end, field, empty_list}
use simulation_ai.Json.Dict.{get_or}
use simulation_ai.Json.Equal.{py_eq}
use simulation_ai.Json.Sort.{str_lt}
use simulation_ai.Result.{
  Result, ok, err, guard, or_raise, ◌>>=◌, ◌>>◌, type_error, value_error, unknown_prompt,
  prompt_file_missing, prompt_file_empty, no_output_schema, schema_missing, schema_mismatch,
  object_required, unsupported_manifest, duplicate_prompt,
}
use simulation_ai.Runtime.{Runtime, str_of, digest}
use simulation_ai.Model.{dict}
use simulation_ai.Adapters.{int_of}
use simulation_ai.Store.{Dir, find}
use simulation_ai.Prompts.Spec.{PromptSpec, from_dict, elements}

-- `prompt_files` holds the texts of the pack's directory, `schema_files` the JSON of the files of the
-- directory of schemas in the order of their names; `none` stands for a file that is not JSON. A file of
-- the pack is named by its path below the directory.
pub record Registry : Type 0 where
  pub manifest : Fields
  pub pack_id : String
  pub pack_version : String
  pub max_input_bytes : ℤ
  pub specs : List PromptSpec
  pub workflows : List Fields
  pub prompt_files : Dir String
  pub schema_files : Dir (Option Value)

unfoldable pub read_json : Option Value → Result Fields
read_json none = err value_error
read_json (some (obj d)) = ok d
read_json (some _) = err object_required

unfoldable pub find_spec : String → List PromptSpec → Option PromptSpec
find_spec prompt_id [] = none
find_spec prompt_id (s ∷ l) =
    let rest = find_spec prompt_id l in if s.id == prompt_id then some s else rest

unfoldable pub as_dict : Value → Result Fields
as_dict (obj d) = ok d
as_dict _ = err type_error

-- the specs in the order of the manifest, none of them twice
unfoldable pub load_specs : Runtime → List Value → List PromptSpec → Result (List PromptSpec)
unfolding from_dict find_spec as_dict
load_specs rt [] specs = ok specs
load_specs rt (raw ∷ l) specs = do
  d ← as_dict raw
  spec ← from_dict rt d
  elim (find_spec spec.id specs) [
    | some s ↦ err duplicate_prompt
    | none ↦ load_specs rt l (specs ++ spec ∷ [])
  ]

unfoldable pub load_dicts : List Value → Result (List Fields)
unfolding as_dict
load_dicts [] = ok []
load_dicts (v ∷ l) = do d ← as_dict v; rest ← load_dicts l; ok (d ∷ rest)

-- `__init__`, from what the manifest's file and the directories hold
unfoldable pub load_registry :
    Runtime → Option Value → Dir String → Dir (Option Value) → Result Registry
unfolding read_json load_specs load_dicts get_or py_eq str_of int_of elements
load_registry rt manifest_file prompt_files schema_files = do
  manifest ← read_json manifest_file
  guard (py_eq (get_or "schema" null manifest) (str "nmsr.prompt-manifest/1")) unsupported_manifest
  max_input_bytes ← int_of (get_or "max_input_bytes" (int (pos 262144)) manifest)
  raws ← elements (get_or "prompts" empty_list manifest)
  specs ← load_specs rt raws []
  flows ← elements (get_or "workflows" empty_list manifest)
  workflows ← load_dicts flows
  ok (record {
    manifest = manifest;
    pack_id = str_of rt (get_or "pack_id" (str "simulation-ai") manifest);
    pack_version = str_of rt (get_or "pack_version" (str "0") manifest);
    max_input_bytes = max_input_bytes;
    specs = specs;
    workflows = workflows;
    prompt_files = prompt_files;
    schema_files = schema_files;
  })

module _ (rt : Runtime) (r : Registry) where
  -- `get`
  unfoldable pub get_spec : String → Result PromptSpec
  unfolding find_spec
  get_spec prompt_id = or_raise (find_spec prompt_id r.specs) unknown_prompt

  unfoldable pub text_of_file : PromptSpec → Result String
  unfolding find strip is_space
  text_of_file spec = do
    raw ← or_raise (find spec.file r.prompt_files) prompt_file_missing
    let text = strip is_space raw
    guard (not (is_empty text)) prompt_file_empty
    ok text

  unfoldable pub prompt_text : String → Result String
  unfolding get_spec text_of_file
  prompt_text prompt_id = do spec ← get_spec prompt_id; text_of_file spec

  -- `not spec.output_schema_file or not spec.output_schema`
  unfoldable pub schema_of : Option String → Option String → Result Fields
  unfolding find read_json get_or py_eq
  schema_of (some file) (some schema_id) = do
    guard (not (is_empty file) && not (is_empty schema_id)) no_output_schema
    content ← or_raise (find file r.schema_files) schema_missing
    d ← read_json content
    guard (py_eq (get_or "$id" null d) (str schema_id)) schema_mismatch
    ok d
  schema_of _ _ = err no_output_schema

  unfoldable pub output_schema : PromptSpec → Result Fields
  unfolding schema_of
  output_schema spec = schema_of spec.output_schema_file spec.output_schema

  insert_id : String → List String → List String
  insert_id k [] = k ∷ []
  insert_id k (j ∷ l) = if str_lt j k then j ∷ insert_id k l else k ∷ j ∷ l

  sorted_ids : List PromptSpec → List String
  unfolding insert_id str_lt
  sorted_ids [] = []
  sorted_ids (s ∷ l) = insert_id s.id (sorted_ids l)

  texts_by_id : List String → Result Fields
  unfolding prompt_text
  texts_by_id [] = ok end
  texts_by_id (k ∷ l) = do text ← prompt_text k; rest ← texts_by_id l; ok (field k (str text) rest)

  schemas_by_name : Dir (Option Value) → Result Fields
  unfolding read_json
  schemas_by_name [] = ok end
  schemas_by_name ((name, content) ∷ l) = do
    d ← read_json content
    rest ← schemas_by_name l
    ok (field name (obj d) rest)

  unfoldable pub pack_sha256 : Result String
  unfolding sorted_ids texts_by_id schemas_by_name
  pack_sha256 = do
    prompts ← texts_by_id (sorted_ids r.specs)
    schemas ← schemas_by_name r.schema_files
    ok (
        digest rt (
          obj (
            dict (
              ("manifest", obj r.manifest)
              ∷ ("prompts", obj prompts)
              ∷ ("schemas", obj schemas)
              ∷ []))))
