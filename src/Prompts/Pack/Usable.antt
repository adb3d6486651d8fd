-- ===== src/Prompts/Pack/Usable.antt =====
-- A prompt of which the check of a pack finds nothing.

use simulation_ai.Prelude.{
  not-eq_false, String, Bool, true, false, not, ◌&&◌, Option, none, some, List, [], ◌∷◌, ◌++◌, ◌≡◌,
  refl, if◌then◌else◌, Option-cases, inl, inr,
}
use simulation_ai.Prelude.Texts.{is_space, strip}
use simulation_ai.Prelude.Lists.{All}
use simulation_ai.Json.{Fields}
use simulation_ai.Result.{Result, ok, err, guard, or_raise}
use simulation_ai.Runtime.{Runtime}
use simulation_ai.Store.{find}
use simulation_ai.Prompts.Spec.{PromptSpec}
use simulation_ai.Prompts.Output.{Validator}
use simulation_ai.Prompts.Registry.{Registry, output_schema, text_of_file}
use simulation_ai.Prompts.Pack.{
  Problem, when, is_safe_id, missing_schema, output_problems, callable_problems, present_problems,
  prompt_problems, all_prompt_problems, invalid_prompt_id,
}

pub append_nil : (xs ys : List Problem) → (xs ++ ys) ≡ [] → (xs ≡ []) × (ys ≡ [])
append_nil [] ys h = (refl, h)
append_nil (x ∷ xs) ys h = cc

pub when_nil : (b : Bool) (p : Problem) → when b p ≡ [] → b ≡ false
unfolding when
when_nil true p h = cc
when_nil false p h = refl

module _ (rt : Runtime) (j : Validator) (r : Registry) where
  -- A prompt that can be rendered, and whose output can be checked.
  pub record IsUsable (s : PromptSpec) : Type 0 where
    pub safe : is_safe_id s.id ≡ true
    pub text : String
    pub has_text : text_of_file rt r s ≡ ok text
    pub schema :
        s.callable ≡ true → (d : Fields) × (output_schema rt r s ≡ ok d) × (j.check_schema d ≡ none)
    pub gated : s.callable ≡ true → s.deterministic_gate_required ≡ true

  output_case :
      (s : PromptSpec) (missing : Bool) (o : Result Fields)
      → missing_schema rt j s ≡ missing
      → output_schema rt r s ≡ o
      → output_problems rt j r s ≡ []
      → (d : Fields) × (output_schema rt r s ≡ ok d) × (j.check_schema d ≡ none)
  unfolding output_problems
  output_case s true o m e h = let bad = rw m at h in cc
  output_case s false (err x) m e h = let bad = rw (m, e) at h in cc
  output_case s false (ok d) m e h = elim (Option-cases (j.check_schema d)) [
    | inl q ↦ (d, e, q)
    | inr (text, q) ↦ let bad = rw (m, e, q) at h in cc
  ]

  callable_case :
      (s : PromptSpec) (text : String) (c : Bool)
      → s.callable ≡ c
      → (if c then callable_problems rt j r s text else []) ≡ []
      → s.callable ≡ true
      → (d : Fields) × (output_schema rt r s ≡ ok d) × (j.check_schema d ≡ none)
  unfolding callable_problems
  callable_case s text true e h q =
      output_case s _ _ refl refl (append_nil (output_problems rt j r s) _ h).0
  callable_case s text false e h q = cc

  gate_case :
      (callable gate : Bool) (p : Problem)
      → when (callable && not gate) p ≡ []
      → callable ≡ true
      → gate ≡ true
  unfolding when
  gate_case true true p h q = refl
  gate_case true false p h q = cc
  gate_case false gate p h q = cc

  present_problems-IsUsable :
      (s : PromptSpec) (text : String)
      → is_safe_id s.id ≡ true
      → find s.file r.prompt_files ≡ some text
      → present_problems rt j r s text ≡ []
      → IsUsable s
  unfolding present_problems text_of_file
  present_problems-IsUsable s text safe e h =
      let (empty, h1) = append_nil _ _ h in
      let (called, h2) = append_nil _ _ h1 in
      let (risk, h3) = append_nil _ _ h2 in
      let (modal, h4) = append_nil _ _ h3 in
      let (gate, h5) = append_nil _ _ h4 in
      let full = when_nil _ _ empty in
      record {
        safe = safe;
        text = strip is_space text;
        has_text = rw (e, or_raise) (rw (full, guard) refl);
        schema = callable_case s text s.callable refl called;
        gated = gate_case s.callable s.deterministic_gate_required _ gate;
      }

  prompt_problems-IsUsable :
      (s : PromptSpec) (o : Option String)
      → find s.file r.prompt_files ≡ o
      → prompt_problems rt j r s ≡ []
      → IsUsable s
  unfolding prompt_problems
  prompt_problems-IsUsable s none e h =
      let (name, rest) = append_nil (when (not (is_safe_id s.id)) (invalid_prompt_id s.id)) _ h in
      let bad = rw e at rest in cc
  prompt_problems-IsUsable s (some text) e h =
      let (name, rest) = append_nil (when (not (is_safe_id s.id)) (invalid_prompt_id s.id)) _ h in
      let here : present_problems rt j r s text ≡ [] = rw e at rest in
      present_problems-IsUsable s text (not-eq_false _ (when_nil _ _ name)) e here

  pub all_prompt_problems-IsUsable :
      (l : List PromptSpec) → all_prompt_problems rt j r l ≡ [] → All IsUsable l
  unfolding all_prompt_problems
  all_prompt_problems-IsUsable [] h = tt
  all_prompt_problems-IsUsable (s ∷ l) h =
      let (here, rest) = append_nil _ _ h in
      (prompt_problems-IsUsable s _ refl here, all_prompt_problems-IsUsable l rest)
