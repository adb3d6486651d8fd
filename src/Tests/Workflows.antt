-- ===== src/Tests/Workflows.antt =====
-- A workflow of two prompts that is cut to one step, and completes.
use simulation_ai.Prelude.{ℕ, String, true, some, List, [], ◌∷◌}
use simulation_ai.Prelude.Int.{pos}
use simulation_ai.Json.{Fields, field, end, obj, str, bool}
use simulation_ai.Result.{ok, err}
use simulation_ai.Model.{dict}
use simulation_ai.Runs.{RunStore}
use simulation_ai.Workflows.{Reply, replied, WorkflowStep, StepsRun, run_steps}
use simulation_ai.Workflows.Execute.{planned_prompts}
use simulation_ai.Tests.Fixtures.{test_runtime}

abbrev no_records : RunStore
no_records = record { model_runs = []; workflow_runs = []; reviews = []; ticks = 0 }

abbrev valid_run : Fields
valid_run = dict (
    ("schema", str "nmsr.prompt-run/1")
    ∷ ("run_id", str "run_1")
    ∷ ("validation", obj (dict (("valid", bool true) ∷ [])))
    ∷ [])

abbrev online : ℕ → String → Fields → Reply
online index prompt_id inputs = replied valid_run

abbrev one_input : Fields
one_input = field "a" (obj end) end

abbrev ran : StepsRun
ran =
    run_steps test_runtime online true one_input 0 (planned_prompts (some (pos 1)) ("a" ∷ "b" ∷ []))
      no_records

abbrev steps_of : StepsRun → List WorkflowStep
steps_of (ok (steps, status), w) = steps
steps_of (err e, w) = []
