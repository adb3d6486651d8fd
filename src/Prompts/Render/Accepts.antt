-- ===== src/Prompts/Render/Accepts.antt =====
-- What a prompt that was rendered was given, and what its envelope can hold.

use simulation_ai.Prelude.{
  not-eq_true, ℕ, String, Bool, true, false, List, [], ◌∷◌, ◌++◌, ◌==◌, ◌≡◌, arith, Bool-cases, inl,
  inr, eq_iff,
}
use simulation_ai.Prelude.Int.{pos, ltb_ℤ}
use simulation_ai.Prelude.Lists.{all}
use simulation_ai.Json.{obj, Fields}
use simulation_ai.Json.Dict.{contains, keys}
use simulation_ai.Json.Text.{canonical_json, utf8_len}
use simulation_ai.Result.{
  ok, >>=-eq-ok, guard-then, guard-eq-ok, policy_not_callable, missing_inputs, unknown_inputs,
  input_too_large,
}
use simulation_ai.Runtime.{Runtime}
use simulation_ai.Model.{one_of}
use simulation_ai.Prompts.Secrets.{is_secret, reject_secret_fields, reject_secret_fields_iff, KeyIn}
use simulation_ai.Prompts.Spec.{PromptSpec}
use simulation_ai.Prompts.Registry.{Registry, get_spec}
use simulation_ai.Prompts.Render.{render, check_inputs}

all-one_of :
    (p : String → Bool) (x : String) (l : List String)
    → all p l ≡ true
    → one_of x l ≡ true
    → p x ≡ true
unfolding one_of
all-one_of p x [] h m = cc
all-one_of p x (z ∷ l) h m = elim (Bool-cases (x == z)) [
  | inl e ↦ let q : x ≡ z = (eq_iff x z).0 e in rw q (ground arith)
  | inr e ↦ all-one_of p x l (ground arith) (ground arith)
]

-- The inputs of a prompt that was rendered.
pub record Accepts (rt : Runtime) (r : Registry) (spec : PromptSpec) (inputs : Fields)
    : Type 0 where
  pub callable : spec.callable ≡ true
  pub has_required :
      (name : String) → one_of name spec.required_inputs ≡ true → contains name inputs ≡ true
  pub only_known :
      (name : String)
      → one_of name (keys inputs) ≡ true
      → one_of name (spec.required_inputs ++ spec.optional_inputs) ≡ true
  pub no_secret : (key : String) → KeyIn key (obj inputs) → is_secret rt key ≡ false
  pub within : ltb_ℤ r.max_input_bytes (pos (utf8_len (canonical_json rt (obj inputs)))) ≡ false

module _ (rt : Runtime) (r : Registry) where
  check_inputs-Accepts :
      (spec : PromptSpec) (inputs : Fields)
      → check_inputs rt r spec inputs ≡ ok tt
      → Accepts rt r spec inputs
  unfolding check_inputs
  check_inputs-Accepts spec inputs h =
      let (callable, h1) = guard-then spec.callable policy_not_callable _ h in
      let (u, secrets, h2) = >>=-eq-ok (reject_secret_fields rt (obj inputs)) _ h1 in
      let (required, h3) =
        guard-then (all (λ name. contains name inputs) spec.required_inputs) missing_inputs _ h2 in
      let (known, h4) =
        guard-then
          (all (λ name. one_of name (spec.required_inputs ++ spec.optional_inputs)) (keys inputs))
          unknown_inputs _ h3 in
      record {
        callable = callable;
        has_required = λ name m. all-one_of _ name spec.required_inputs required m;
        only_known = λ name m. all-one_of _ name (keys inputs) known m;
        no_secret = (reject_secret_fields_iff rt (obj inputs)).0 secrets;
        within = not-eq_true _ (guard-eq-ok _ input_too_large h4);
      }

  -- A prompt that was rendered is known and callable. Its inputs have every required field and only
  -- known ones, hold no key that looks like the name of a secret at any depth, and are within the
  -- pack's limit of bytes.
  pub render-Accepts :
      (tick : ℕ) (prompt_id : String) (inputs invocation : Fields)
      → render rt r tick prompt_id inputs ≡ ok invocation
      → (spec : PromptSpec) × (get_spec rt r prompt_id ≡ ok spec) × Accepts rt r spec inputs
  unfolding render
  render-Accepts tick prompt_id inputs invocation h =
      let (spec, e, h1) = >>=-eq-ok (get_spec rt r prompt_id) _ h in
      let (u, checked, h2) = >>=-eq-ok (check_inputs rt r spec inputs) _ h1 in
      (spec, e, check_inputs-Accepts spec inputs checked)
