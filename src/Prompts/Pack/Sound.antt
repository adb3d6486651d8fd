-- ===== src/Prompts/Pack/Sound.antt =====
-- What a pack without problems is good for.
use mathlib.Core.Path.{subst}
use simulation_ai.Prelude.{
  not-eq_false, String, true, not, Option, none, some, List, [], ◌∷◌, ◌++◌, ◌≡◌, refl, ap, ◌∙◌,
  arith, Bool-cases, ◌==◌, inl, inr,
}
use simulation_ai.Prelude.Lists.{All}
use simulation_ai.Json.{Value, Fields, str, truthy, null, empty_list}
use simulation_ai.Json.Dict.{get_or}
use simulation_ai.Result.{ok, >>=-eq-ok, ok-injective}
use simulation_ai.Runtime.{Runtime, str_of}
use simulation_ai.Prompts.Spec.{PromptSpec, elements}
use simulation_ai.Prompts.Output.{Validator}
use simulation_ai.Prompts.Registry.{Registry, find_spec}
use simulation_ai.Prompts.Pack.{
  when, step_spec, step_problems, workflow_problems, all_workflow_problems, pack_problems,
  manifest_problems, all_schema_problems, count_problems, invokes_policy,
}
use simulation_ai.Prompts.Pack.Usable.{IsUsable, append_nil, when_nil, all_prompt_problems-IsUsable}

module _ (rt : Runtime) (j : Validator) (r : Registry) where
  All-find :
      (P : PromptSpec → Type 0) (k : String) (l : List PromptSpec) (s : PromptSpec)
      → All P l
      → find_spec k l ≡ some s
      → P s
  unfolding find_spec
  All-find P k [] s h e = cc
  All-find P k (t ∷ l) s h e = elim (Bool-cases (t.id == k)) [
    | inl q ↦ let same : t ≡ s = ground arith in subst P same h.0
    | inr q ↦ All-find P k l s h.1 (ground arith)
  ]

  -- A step that a workflow can take: its prompt is known, callable and usable.
  abbrev pub CanRun : Value → Type 0
  CanRun v =
      (s : PromptSpec) × (step_spec rt j r.specs v ≡ some s)
      × (s.callable ≡ true)
      × IsUsable rt j r s

  known :
      (s : PromptSpec) (v : Value)
      → All (IsUsable rt j r) r.specs
      → step_spec rt j r.specs v ≡ some s
      → IsUsable rt j r s
  unfolding step_spec
  known s (str k) u e = All-find (IsUsable rt j r) k r.specs s u e
  known s _ u e = cc

  step_case :
      (workflow_id : String) (v : Value) (l : List Value) (o : Option PromptSpec)
      → All (IsUsable rt j r) r.specs
      → step_spec rt j r.specs v ≡ o
      → step_problems rt j r.specs workflow_id (v ∷ l) ≡ []
      → CanRun v × (step_problems rt j r.specs workflow_id l ≡ [])
  unfolding step_problems
  step_case workflow_id v l none u e h = let bad = rw e at h in cc
  step_case workflow_id v l (some s) u e h =
      let split : (when (not s.callable) (invokes_policy workflow_id (str_of rt v))
            ++ step_problems rt j r.specs workflow_id l)
          ≡ [] =
        rw e at h in
      let (callable, rest) = append_nil _ _ split in
      ((s, e, not-eq_false _ (when_nil _ _ callable), known s v u e), rest)

  step_problems-CanRun :
      (workflow_id : String) (l : List Value)
      → All (IsUsable rt j r) r.specs
      → step_problems rt j r.specs workflow_id l ≡ []
      → All CanRun l
  step_problems-CanRun workflow_id [] u h = tt
  step_problems-CanRun workflow_id (v ∷ l) u h =
      let (here, rest) = step_case workflow_id v l (step_spec rt j r.specs v) u refl h in
      (here, step_problems-CanRun workflow_id l u rest)

  -- A workflow that has gates, and whose prompts can be called.
  pub record IsRunnable (w : Fields) : Type 0 where
    pub gates : truthy (get_or "deterministic_gates" null w) ≡ true
    pub prompts : List Value
    pub are_prompts : elements (get_or "prompts" empty_list w) ≡ ok prompts
    pub can_run : All CanRun prompts

  workflow_problems-IsRunnable :
      (seen : List String) (workflow_id : String) (w : Fields) (prompts : List Value)
      → All (IsUsable rt j r) r.specs
      → elements (get_or "prompts" empty_list w) ≡ ok prompts
      → workflow_problems rt j r.specs seen workflow_id prompts
          (get_or "deterministic_gates" null w)
        ≡ []
      → IsRunnable w
  unfolding workflow_problems
  workflow_problems-IsRunnable seen workflow_id w prompts u e h =
      let (double, h1) = append_nil _ _ h in
      let (empty, h2) = append_nil _ _ h1 in
      let (gates, steps) = append_nil _ _ h2 in
      record {
        gates = not-eq_false _ (when_nil _ _ gates);
        prompts = prompts;
        are_prompts = e;
        can_run = step_problems-CanRun workflow_id prompts u steps;
      }

  all_workflow_problems-IsRunnable :
      (seen : List String) (l : List Fields)
      → All (IsUsable rt j r) r.specs
      → all_workflow_problems rt j r.specs seen l ≡ ok []
      → All IsRunnable l
  unfolding all_workflow_problems
  all_workflow_problems-IsRunnable seen [] u h = tt
  all_workflow_problems-IsRunnable seen (w ∷ l) u h =
      let (prompts, e, h1) = >>=-eq-ok (elements (get_or "prompts" empty_list w)) _ h in
      let (rest, f, h2) = >>=-eq-ok (all_workflow_problems rt j r.specs _ l) _ h1 in
      let (here, none_left) = append_nil _ _ (ok-injective _ _ h2) in
      (
        workflow_problems-IsRunnable seen _ w prompts u e here,
        all_workflow_problems-IsRunnable (str_of rt (get_or "id" (str "") w) ∷ seen) l u
            (f ∙ ap ok none_left),
      )

  -- In a pack without problems every prompt has a safe identifier and a text, every callable one an
  -- output schema that is a schema and the deterministic gate, and every workflow has gates and names
  -- only such prompts, all of them callable.
  pub pack_problems-IsUsable :
      pack_problems rt j r ≡ ok [] → All (IsUsable rt j r) r.specs × All IsRunnable r.workflows
  unfolding pack_problems
  pack_problems-IsUsable h =
      let (contract, e, h1) = >>=-eq-ok (manifest_problems rt j r) _ h in
      let (flows, f, h2) = >>=-eq-ok (all_workflow_problems rt j r.specs [] r.workflows) _ h1 in
      let (a, h3) = append_nil (count_problems rt j r.specs) _ (ok-injective _ _ h2) in
      let (b, h4) = append_nil (all_schema_problems rt j [] r.schema_files) _ h3 in
      let (c, h5) = append_nil contract _ h4 in
      let (prompts, workflows) = append_nil _ _ h5 in
      let usable = all_prompt_problems-IsUsable rt j r r.specs prompts in
      (usable, all_workflow_problems-IsRunnable [] r.workflows usable (f ∙ ap ok workflows))
