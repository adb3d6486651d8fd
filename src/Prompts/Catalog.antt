-- ===== src/Prompts/Catalog.antt =====
-- What prompts.py tells of a pack: a prompt's metadata and details, the catalogue, the route of a task,
-- and the summary of the validation.
use simulation_ai.Prelude.{
  ℕ, String, Bool, true, false, not, ◌&&◌, ◌||◌, List, [], ◌∷◌, ◌==◌, ◌+◌, if◌then◌else◌,
}
use simulation_ai.Prelude.Int.{pos}
use simulation_ai.Prelude.Lists.{length}
use simulation_ai.Prelude.Texts.{is_empty, is_space, strip, replace_char}
use simulation_ai.Json.{Value, bool, int, str, arr, obj, Fields, end, items, empty_dict, empty_list}
use simulation_ai.Json.Dict.{get_or, put}
use simulation_ai.Json.Sort.{str_lt}
use simulation_ai.Json.Text.{utf8_len}
use simulation_ai.Result.{Result, ok, guard, ◌>>=◌, ◌>>◌, task_required}
use simulation_ai.Runtime.{Runtime, str_of, digest}
use simulation_ai.Model.{dict, one_of}
use simulation_ai.Prompts.Spec.{PromptSpec, spec_dict, elements}
use simulation_ai.Prompts.Output.{Validator}
use simulation_ai.Prompts.Registry.{Registry, get_spec, prompt_text, output_schema, pack_sha256}
use simulation_ai.Prompts.Strict.{strict_compatibility, visit, no_findings}
use simulation_ai.Prompts.Pack.{Problem, pack_problems}

-- dicts in a list
dicts : List Fields → List Value
dicts [] = []
dicts (d ∷ l) = obj d ∷ dicts l

-- `s.lower().replace("-", "_")`
unfoldable pub folded : Runtime → String → String
unfolding replace_char
folded rt s = replace_char b'-' "_" (rt.lower s)

folded_all : Runtime → List String → List String
unfolding folded
folded_all rt [] = []
folded_all rt (s ∷ l) = folded rt s ∷ folded_all rt l

folded_values : Runtime → List Value → List String
unfolding folded str_of
folded_values rt [] = []
folded_values rt (v ∷ l) = folded rt (str_of rt v) ∷ folded_values rt l

-- by stage, then by a second text; entries that are equal keep their order
before : String × String → String × String → Bool
unfolding str_lt
before (a, b) (c, d) = str_lt a c || (a == c && str_lt b d)

insert_spec : (PromptSpec → String) → PromptSpec → List PromptSpec → List PromptSpec
unfolding before
insert_spec key s [] = s ∷ []
insert_spec key s (t ∷ l) =
    if before (t.stage, key t) (s.stage, key s) then t ∷ insert_spec key s l else s ∷ t ∷ l

unfoldable pub sort_specs : (PromptSpec → String) → List PromptSpec → List PromptSpec
unfolding insert_spec
sort_specs key [] = []
sort_specs key (s ∷ l) = insert_spec key s (sort_specs key l)

unfoldable pub count_callable : List PromptSpec → ℕ
count_callable [] = 0
count_callable (s ∷ l) = (if s.callable then 1 else 0) + count_callable l

unfoldable pub has_no_problems : List Problem → Bool
has_no_problems [] = true
has_no_problems (p ∷ l) = false

-- the result of `validate_pack`
pub record PackValidation : Type 0 where
  pub valid : Bool
  pub pack_id : String
  pub pack_version : String
  pub prompt_count : ℕ
  pub workflow_count : ℕ
  pub pack_sha : String
  pub problems : List Problem

-- `{name: {} for name in names}`
empty_inputs : List String → Fields → Fields
unfolding put
empty_inputs [] d = d
empty_inputs (name ∷ l) d = empty_inputs l (put name empty_dict d)

module _ (rt : Runtime) (j : Validator) (r : Registry) where
  -- `_spec_metadata`
  unfoldable pub spec_metadata : PromptSpec → Result Fields
  unfolding prompt_text spec_dict put utf8_len
  spec_metadata s = do
    text ← prompt_text rt r s.id
    ok (
        put "content_bytes" (int (pos (utf8_len text)))
          (put "content_sha256" (str (digest rt (str text))) (spec_dict s)))

  unfoldable pub all_metadata : List PromptSpec → Result (List Fields)
  unfolding spec_metadata
  all_metadata [] = ok []
  all_metadata (s ∷ l) = do d ← spec_metadata s; rest ← all_metadata l; ok (d ∷ rest)

  -- the entries that `get_details` adds for a prompt that can be called
  unfoldable pub with_template : PromptSpec → Fields → Result Fields
  unfolding empty_inputs strict_compatibility output_schema put
  with_template s d = do
    schema ← output_schema rt r s
    compatibility ← strict_compatibility (obj schema)
    ok (
        put "openai_strict_compatibility" (obj compatibility)
          (put "input_template" (obj (empty_inputs s.required_inputs end)) d))

  unfoldable pub get_details : String → Bool → Result Fields
  unfolding get_spec spec_metadata prompt_text with_template put
  get_details prompt_id include_content = do
    s ← get_spec rt r prompt_id
    d ← spec_metadata s
    text ← prompt_text rt r prompt_id
    let e = if include_content then put "content" (str text) d else d
    if s.callable then with_template s e else ok e

  unfoldable pub validate_pack : Result PackValidation
  unfolding pack_problems pack_sha256 has_no_problems
  validate_pack = do
    problems ← pack_problems rt j r
    pack_sha ← pack_sha256 rt r
    ok (record {
      valid = has_no_problems problems;
      pack_id = r.pack_id;
      pack_version = r.pack_version;
      prompt_count = length r.specs;
      workflow_count = length r.workflows;
      pack_sha = pack_sha;
      problems = problems;
    })

  -- `strict_count`
  unfoldable pub count_strict : List PromptSpec → Result ℕ
  unfolding output_schema visit no_findings
  count_strict [] = ok 0
  count_strict (s ∷ l) =
      if s.callable
      then (do
        schema ← output_schema rt r s
        findings ← visit (obj schema) "$"
        rest ← count_strict l
        ok ((if no_findings findings then 1 else 0) + rest))
      else count_strict l

  shown_specs : Bool → List PromptSpec → List PromptSpec
  shown_specs include_shared [] = []
  shown_specs include_shared (s ∷ l) =
      if include_shared || s.callable
      then s ∷ shown_specs include_shared l
      else shown_specs include_shared l

  unfoldable pub catalog : Bool → Result Fields
  unfolding all_metadata validate_pack count_strict shown_specs sort_specs dicts count_callable
      pack_sha256
  catalog include_shared = do
    prompts ← all_metadata (shown_specs include_shared (sort_specs (λ s. s.title) r.specs))
    validation ← validate_pack
    strict ← count_strict r.specs
    pack_sha ← pack_sha256 rt r
    ok (
        dict (
          ("schema", str "nmsr.prompt-catalog/1")
          ∷ ("pack_id", str r.pack_id)
          ∷ ("pack_version", str r.pack_version)
          ∷ ("prompt_count", int (pos (length prompts)))
          ∷ ("callable_prompt_count", int (pos (count_callable r.specs)))
          ∷ ("openai_strict_prompt_count", int (pos strict))
          ∷ ("workflow_count", int (pos (length r.workflows)))
          ∷ ("valid", bool validation.valid)
          ∷ ("pack_sha256", str pack_sha)
          ∷ ("prompts", arr (items (dicts prompts)))
          ∷ ("workflows", arr (items (dicts r.workflows)))
          ∷ []))

  unfoldable pub matching_workflows : String → List Fields → Result (List Fields)
  unfolding elements folded_values one_of get_or
  matching_workflows clean [] = ok []
  matching_workflows clean (w ∷ l) = do
    types ← elements (get_or "task_types" empty_list w)
    rest ← matching_workflows clean l
    ok (if one_of clean (folded_values rt types) then w ∷ rest else rest)

  unfoldable pub matching_specs : String → List PromptSpec → List PromptSpec
  unfolding folded_all one_of
  matching_specs clean [] = []
  matching_specs clean (s ∷ l) =
      let rest = matching_specs clean l in
      if one_of clean (folded_all rt s.task_types) then s ∷ rest else rest

  unfoldable pub route : String → Result Fields
  unfolding folded strip is_space matching_workflows matching_specs all_metadata sort_specs dicts
  route task_type = do
    let clean = folded rt (strip is_space task_type)
    guard (not (is_empty clean)) task_required
    workflows ← matching_workflows clean r.workflows
    direct ← all_metadata (sort_specs (λ s. s.id) (matching_specs clean r.specs))
    ok (
        dict (
          ("schema", str "nmsr.prompt-route/1")
          ∷ ("task_type", str clean)
          ∷ ("workflows", arr (items (dicts workflows)))
          ∷ ("direct_prompts", arr (items (dicts direct)))
          ∷ ("requires_deterministic_gate", bool true)
          ∷ []))
