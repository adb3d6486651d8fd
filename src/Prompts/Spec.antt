-- ===== src/Prompts/Spec.antt =====
-- `PromptSpec` of prompts.py, read from an entry of the manifest.
use simulation_ai.Prelude.{String, Bool, true, Option, none, some, List, [], ◌∷◌, if◌then◌else◌}
use simulation_ai.Json.{
  Value, null, bool, str, arr, obj, Items, nil, cons, Fields, texts, truthy, empty_list,
}
use simulation_ai.Json.Dict.{lookup, get_or, keys}
use simulation_ai.Result.{Result, ok, err, or_raise, ◌>>=◌, key_error, type_error}
use simulation_ai.Runtime.{Runtime, str_of}
use simulation_ai.Model.{dict}

pub record PromptSpec : Type 0 where
  pub id : String
  pub title : String
  pub description : String
  pub version : String
  pub file : String
  pub stage : String
  pub authority : String
  pub output_schema : Option String
  pub output_schema_file : Option String
  pub required_inputs : List String
  pub optional_inputs : List String
  pub task_types : List String
  pub runtime_class : String
  pub callable : Bool
  pub shared_policies : List String
  pub risk_level : String
  pub latency_class : String
  pub preferred_model_class : String
  pub modalities : List String
  pub deterministic_gate_required : Bool
  pub tags : List String

-- the elements that a loop over a value runs through
characters : String → List Value
characters String.[] = []
characters (String.◌∷◌ c s) = str (String.◌∷◌ c String.[]) ∷ characters s

of_items : Items → List Value
of_items nil = []
of_items (cons v xs) = v ∷ of_items xs

of_keys : List String → List Value
of_keys [] = []
of_keys (k ∷ ks) = str k ∷ of_keys ks

unfoldable pub elements : Value → Result (List Value)
unfolding characters of_items of_keys keys
elements (arr xs) = ok (of_items xs)
elements (obj d) = ok (of_keys (keys d))
elements (str s) = ok (characters s)
elements _ = err type_error

as_texts : Runtime → List Value → List String
as_texts rt [] = []
as_texts rt (v ∷ l) = str_of rt v ∷ as_texts rt l

-- `tuple(str(item) for item in value.get(name, default))`
unfoldable pub texts_of : Runtime → String → Value → Fields → Result (List String)
unfolding elements as_texts get_or str_of
texts_of rt name default d = do l ← elements (get_or name default d); ok (as_texts rt l)

-- `str(value[name])`, `str(value.get(name, default))`
unfoldable pub text_of : Runtime → String → Fields → Result String
unfolding lookup str_of
text_of rt name d = do v ← or_raise (lookup name d) key_error; ok (str_of rt v)

unfoldable pub text_or : Runtime → String → String → Fields → String
unfolding get_or str_of
text_or rt name default d = str_of rt (get_or name (str default) d)

-- `str(value[name]) if value.get(name) else None`
unfoldable pub some_text : Runtime → String → Fields → Option String
unfolding get_or str_of
some_text rt name d =
    if truthy (get_or name null d) then some (str_of rt (get_or name null d)) else none

unfoldable pub from_dict : Runtime → Fields → Result PromptSpec
unfolding texts_of text_of text_or some_text get_or str_of
from_dict rt d = do
  id ← text_of rt "id" d
  title ← text_of rt "title" d
  version ← text_of rt "version" d
  file ← text_of rt "file" d
  stage ← text_of rt "stage" d
  authority ← text_of rt "authority" d
  required_inputs ← texts_of rt "required_inputs" empty_list d
  optional_inputs ← texts_of rt "optional_inputs" empty_list d
  task_types ← texts_of rt "task_types" empty_list d
  shared_policies ← texts_of rt "shared_policies" empty_list d
  modalities ← texts_of rt "modalities" (arr (texts ("text" ∷ "structured-data" ∷ []))) d
  tags ← texts_of rt "tags" empty_list d
  ok (record {
    id = id;
    title = title;
    description = text_or rt "description" "" d;
    version = version;
    file = file;
    stage = stage;
    authority = authority;
    output_schema = some_text rt "output_schema" d;
    output_schema_file = some_text rt "output_schema_file" d;
    required_inputs = required_inputs;
    optional_inputs = optional_inputs;
    task_types = task_types;
    runtime_class = text_or rt "runtime_class" "unspecified" d;
    callable = truthy (get_or "callable" (bool true) d);
    shared_policies = shared_policies;
    risk_level = text_or rt "risk_level" "medium" d;
    latency_class = text_or rt "latency_class" "deliberate" d;
    preferred_model_class =
        str_of rt (get_or "preferred_model_class" (get_or "runtime_class" (str "unspecified") d) d);
    modalities = modalities;
    deterministic_gate_required = truthy (get_or "deterministic_gate_required" (bool true) d);
    tags = tags;
  })

unfoldable pub optional_text : Option String → Value
optional_text none = null
optional_text (some s) = str s

-- `asdict(spec)`, its tuples as lists
unfoldable pub spec_dict : PromptSpec → Fields
unfolding optional_text texts
spec_dict s = dict (
    ("id", str s.id)
    ∷ ("title", str s.title)
    ∷ ("description", str s.description)
    ∷ ("version", str s.version)
    ∷ ("file", str s.file)
    ∷ ("stage", str s.stage)
    ∷ ("authority", str s.authority)
    ∷ ("output_schema", optional_text s.output_schema)
    ∷ ("output_schema_file", optional_text s.output_schema_file)
    ∷ ("required_inputs", arr (texts s.required_inputs))
    ∷ ("optional_inputs", arr (texts s.optional_inputs))
    ∷ ("task_types", arr (texts s.task_types))
    ∷ ("runtime_class", str s.runtime_class)
    ∷ ("callable", bool s.callable)
    ∷ ("shared_policies", arr (texts s.shared_policies))
    ∷ ("risk_level", str s.risk_level)
    ∷ ("latency_class", str s.latency_class)
    ∷ ("preferred_model_class", str s.preferred_model_class)
    ∷ ("modalities", arr (texts s.modalities))
    ∷ ("deterministic_gate_required", bool s.deterministic_gate_required)
    ∷ ("tags", arr (texts s.tags))
    ∷ [])
