-- ===== src/Prompts/Render.antt =====
-- `render` of prompts.py: the messages of one call of a prompt, and the envelope of its inputs.
pub mod Accepts
use Prim.Native.Char.{Char, code}
use Prim.Native.String
use simulation_ai.Prelude.{
  ℕ, suc, String, Bool, true, false, not, ◌&&◌, ◌||◌, Option, none, some, List, [], ◌∷◌, ◌++◌, ◌==◌,
  nat_eq, leb, if◌then◌else◌,
}
use simulation_ai.Prelude.Int.{pos, ltb_ℤ}
use simulation_ai.Prelude.Texts.{str_append, is_empty, strip, take_str}
use simulation_ai.Prelude.Lists.{all}
use simulation_ai.Json.{Value, null, bool, str, arr, obj, Fields, items, texts}
use simulation_ai.Json.Dict.{lookup, contains, keys}
use simulation_ai.Json.Text.{canonical_json, utf8_len}
use simulation_ai.Result.{
  Result, ok, err, guard, ◌>>=◌, ◌>>◌, policy_not_callable, missing_inputs, unknown_inputs,
  input_too_large, policy_callable,
}
use simulation_ai.Runtime.{Runtime, digest, short_digest}
use simulation_ai.Model.{dict, one_of}
use simulation_ai.Render.{join}
use simulation_ai.Prompts.Secrets.{reject_secret_fields}
use simulation_ai.Prompts.Spec.{PromptSpec, optional_text}
use simulation_ai.Prompts.Registry.{Registry, get_spec, prompt_text, output_schema}
use simulation_ai.Prompts.Strict.{strict_compatibility}
use simulation_ai.Prompts.Envelope.{concat, input_envelope, response_format_name}

unfoldable pub response_format : PromptSpec → Fields → Fields
unfolding response_format_name
response_format spec schema = dict (
    ("type", str "json_schema")
    ∷ (
      "name",
      str (
          response_format_name (elim spec.output_schema [
            | none ↦ spec.id
            | some s ↦ if is_empty s then spec.id else s
          ])),
    )
    ∷ (
      "description",
      str (
          concat ("Structured candidate for " ∷ spec.title ∷ ". It has no commit authority." ∷ [])),
    )
    ∷ ("schema", obj schema)
    ∷ ("strict", bool true)
    ∷ [])

abbrev pub message : String → String → Value
message role content = obj (dict (("role", str role) ∷ ("content", str content) ∷ []))

module _ (rt : Runtime) (r : Registry) where
  -- the texts of the shared policies
  unfoldable pub policy_texts : List String → Result (List String)
  unfolding get_spec prompt_text
  policy_texts [] = ok []
  policy_texts (policy_id ∷ l) = do
    policy ← get_spec rt r policy_id
    guard (not policy.callable) policy_callable
    text ← prompt_text rt r policy_id
    rest ← policy_texts l
    ok (text ∷ rest)

  -- what has to hold of the inputs before anything is rendered
  unfoldable pub check_inputs : PromptSpec → Fields → Result (Unit {0})
  unfolding reject_secret_fields contains one_of keys canonical_json utf8_len
  check_inputs spec inputs = do
    guard spec.callable policy_not_callable
    reject_secret_fields rt (obj inputs)
    guard (all (λ name. contains name inputs) spec.required_inputs) missing_inputs
    guard (all (λ name. one_of name (spec.required_inputs ++ spec.optional_inputs)) (keys inputs))
        unknown_inputs
    guard (not (ltb_ℤ r.max_input_bytes (pos (utf8_len (canonical_json rt (obj inputs))))))
        input_too_large

  unfoldable pub prompt_digest : PromptSpec → String → Fields → String
  prompt_digest spec system_prompt schema = digest rt (
      obj (
        dict (
          ("pack", str r.pack_id)
          ∷ ("pack_version", str r.pack_version)
          ∷ ("prompt", str spec.id)
          ∷ ("prompt_version", str spec.version)
          ∷ ("system", str system_prompt)
          ∷ ("output_schema", obj schema)
          ∷ [])))

  unfoldable pub invocation_id : String → Fields → String
  invocation_id prompt_sha inputs = str_append "prompt_" (
      short_digest rt 24
        (obj (dict (("prompt_sha256", str prompt_sha) ∷ ("inputs", obj inputs) ∷ []))))

  unfoldable pub invocation :
      ℕ → PromptSpec → Fields → List String → String → Fields → Fields → Fields
  unfolding prompt_digest invocation_id input_envelope response_format optional_text texts
  invocation tick spec inputs policies system_prompt schema compatibility =
      let prompt_sha = prompt_digest spec system_prompt schema in
      dict (
        ("schema", str "nmsr.prompt-invocation/1")
        ∷ ("invocation_id", str (invocation_id prompt_sha inputs))
        ∷ ("prompt_id", str spec.id)
        ∷ ("prompt_version", str spec.version)
        ∷ ("prompt_sha256", str prompt_sha)
        ∷ ("pack_id", str r.pack_id)
        ∷ ("pack_version", str r.pack_version)
        ∷ ("authority", str spec.authority)
        ∷ ("output_schema", optional_text spec.output_schema)
        ∷ ("runtime_class", str spec.runtime_class)
        ∷ ("preferred_model_class", str spec.preferred_model_class)
        ∷ ("risk_level", str spec.risk_level)
        ∷ ("latency_class", str spec.latency_class)
        ∷ ("modalities", arr (texts spec.modalities))
        ∷ ("deterministic_gate_required", bool spec.deterministic_gate_required)
        ∷ (
          "messages",
          arr (
              items (
                message "system" system_prompt
                ∷ message "user" (input_envelope rt spec inputs)
                ∷ [])),
        )
        ∷ ("response_format", obj (response_format spec schema))
        ∷ ("openai_strict_compatibility", obj compatibility)
        ∷ ("policy_layers", arr (texts policies))
        ∷ ("created_at", str (rt.utc_now tick))
        ∷ [])

  -- `tick` is the reading of the clock for the time of the invocation
  unfoldable pub render : ℕ → String → Fields → Result Fields
  unfolding get_spec check_inputs policy_texts prompt_text output_schema strict_compatibility
      invocation join
  render tick prompt_id inputs = do
    spec ← get_spec rt r prompt_id
    check_inputs spec inputs
    policies ← policy_texts spec.shared_policies
    text ← prompt_text rt r prompt_id
    schema ← output_schema rt r spec
    compatibility ← strict_compatibility (obj schema)
    let system_prompt = join "\n\n---\n\n" (policies ++ text ∷ [])
    ok (invocation tick spec inputs spec.shared_policies system_prompt schema compatibility)
