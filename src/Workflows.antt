-- ===== src/Workflows.antt =====
-- The loop of `PromptWorkflowRunner.execute` (workflows.py). Rendering a prompt and calling the model
-- is an argument, a function of the step's number, its prompt and its inputs.
pub mod Steps
pub mod Planned
pub mod Execute
use simulation_ai.Prelude.{
  ℕ, suc, String, Bool, true, false, not, ◌&&◌, Option, none, some, List, [], ◌∷◌, if◌then◌else◌,
}
use simulation_ai.Prelude.Texts.{take_str}
use simulation_ai.Json.{Value, null, bool, str, obj, Fields, truthy, empty_dict}
use simulation_ai.Json.Dict.{lookup, get_or}
use simulation_ai.Result.{Error, Result, ok, err, ◌>>=◌, type_error}
use simulation_ai.Runtime.{Runtime}
use simulation_ai.Patch.{get_attr}
use simulation_ai.Runs.{RunStore, save_model_run}

-- The record of a run, the text of a ModelExecutionError or a PromptPackError, or another exception,
-- which the loop does not catch.
pub data Reply : Type 0 where
  replied : Fields → Reply
  refused : String → Reply
  raised : Error → Reply

pub record WorkflowStep : Type 0 where
  pub index : ℕ
  pub prompt_id : String
  pub status : Value
  pub run_id : Value
  pub output_sha256 : Value
  pub valid : Bool
  pub detail : String

unfoldable pub blank_step : ℕ → String → String → String → WorkflowStep
blank_step index prompt_id status detail = record {
  index = index;
  prompt_id = prompt_id;
  status = str status;
  run_id = str "";
  output_sha256 = str "";
  valid = false;
  detail = detail;
}

unfoldable pub run_step : ℕ → String → Fields → Bool → WorkflowStep
unfolding get_or
run_step index prompt_id stored valid = record {
  index = index;
  prompt_id = prompt_id;
  status = get_or "status" (str "unknown") stored;
  run_id = get_or "run_id" (str "") stored;
  output_sha256 = get_or "output_sha256" (str "") stored;
  valid = valid;
  detail =
      if valid then "Candidate validated locally." else "Candidate failed local schema validation.";
}

-- `bool(stored.get("validation", {}).get("valid", False))`
unfoldable pub is_valid : Fields → Result Bool
unfolding get_attr get_or
is_valid stored = do
  v ← get_attr (get_or "validation" empty_dict stored) "valid" (bool false)
  ok (truthy v)

abbrev pub StepsRun : Type 0
StepsRun = Result (List WorkflowStep × String) × RunStore

-- a step before the later ones
unfoldable pub with_step : WorkflowStep → StepsRun → StepsRun
with_step step (ok (steps, status), w) = (ok (step ∷ steps, status), w)
with_step step (err e, w) = (err e, w)

-- after a stored run: stop at an invalid one, if that is asked for
unfoldable pub after_run : Bool → ℕ → String → Fields → Result Bool → RunStore → StepsRun → StepsRun
unfolding with_step run_step
after_run stop index prompt_id stored (err e) w later = (err e, w)
after_run stop index prompt_id stored (ok valid) w later =
    if not valid && stop
    then (ok (run_step index prompt_id stored valid ∷ [], "stopped-invalid"), w)
    else with_step (run_step index prompt_id stored valid) later

-- the step of a run that was stored, or was not
unfoldable pub on_saved :
    Bool → ℕ → String → RunStore → (RunStore → StepsRun) → Result (Fields × RunStore) → StepsRun
unfolding after_run is_valid
on_saved stop index prompt_id w later (err e) = (err e, w)
on_saved stop index prompt_id w later (ok (stored, w')) =
    after_run stop index prompt_id stored (is_valid stored) w' (later w')

unfoldable pub on_reply :
    Runtime → Bool → ℕ → String → RunStore → (RunStore → StepsRun) → Reply → StepsRun
unfolding on_saved blank_step take_str
on_reply rt stop index prompt_id w later (refused message) =
    (ok (blank_step index prompt_id "failed" (take_str 500 message) ∷ [], "failed"), w)
on_reply rt stop index prompt_id w later (raised e) = (err e, w)
on_reply rt stop index prompt_id w later (replied reply) =
    on_saved stop index prompt_id w later (save_model_run rt reply w)

module _ (rt : Runtime) (invoke : ℕ → String → Fields → Reply) (stop : Bool) where
  unfoldable pub on_inputs : ℕ → String → RunStore → (RunStore → StepsRun) → Value → StepsRun
  unfolding on_reply blank_step
  on_inputs index prompt_id w later null = (
    ok (
      blank_step index prompt_id "awaiting-input" "Explicit step inputs were not supplied." ∷ [],
      "awaiting-input",
    ),
    w,
  )
  on_inputs index prompt_id w later (obj inputs) =
      on_reply rt stop index prompt_id w later (invoke index prompt_id inputs)
  on_inputs index prompt_id w later _ = (err type_error, w)

  unfoldable pub run_steps : Fields → ℕ → List String → RunStore → StepsRun
  unfolding on_inputs get_or
  run_steps step_inputs index [] w = (ok ([], "completed"), w)
  run_steps step_inputs index (prompt_id ∷ ps) w =
      on_inputs index prompt_id w (run_steps step_inputs (suc index) ps)
        (get_or prompt_id null step_inputs)
