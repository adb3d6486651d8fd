-- ===== src/Workflows/Execute.antt =====
-- The rest of `PromptWorkflowRunner.execute` (workflows.py): the choice of the steps before the loop and
-- the record after it. The pack's workflows are given with their fields read.
use simulation_ai.Prelude.{
  ℕ, zero, suc, String, Bool, true, false, ◌==◌, leb, Option, none, some, List, [], ◌∷◌,
  if◌then◌else◌,
}
use simulation_ai.Prelude.Int.{ℤ, pos, negsuc}
use simulation_ai.Prelude.Texts.{str_append}
use simulation_ai.Json.{Value, bool, int, str, arr, obj, Fields, end, field, items}
use simulation_ai.Json.Dict.{keys}
use simulation_ai.Result.{Result, ok, err, unknown_workflow, unknown_step}
use simulation_ai.Runtime.{Runtime, digest, short_digest}
use simulation_ai.Model.{dict, one_of}
use simulation_ai.Engine.Boot.Genesis.{Pack}
use simulation_ai.Runs.{RunStore, save_workflow_run}
use simulation_ai.Workflows.{Reply, WorkflowStep, StepsRun, run_steps}

pub record Workflow : Type 0 where
  pub workflow_id : String
  pub title : Option String
  pub prompts : List String
  pub deterministic_gates : List String

-- `_workflow`
unfoldable pub find_workflow : String → List Workflow → Result Workflow
find_workflow workflow_id [] = err unknown_workflow
find_workflow workflow_id (x ∷ l) =
    let rest = find_workflow workflow_id l in if x.workflow_id == workflow_id then ok x else rest

unfoldable pub known_steps : List String → List String → Bool
known_steps prompts [] = true
known_steps prompts (k ∷ ks) =
    let rest = known_steps prompts ks in if one_of k prompts then rest else false

unfoldable pub first_prompts : ℕ → List String → List String
first_prompts zero l = []
first_prompts (suc n) [] = []
first_prompts (suc n) (x ∷ l) = x ∷ first_prompts n l

-- `planned_prompts`; a limit below 1 counts as 1
unfoldable pub planned_prompts : Option ℤ → List String → List String
unfolding first_prompts
planned_prompts none prompts = prompts
planned_prompts (some (negsuc n)) prompts = first_prompts 1 prompts
planned_prompts (some (pos n)) prompts =
    if leb n 0 then first_prompts 1 prompts else first_prompts n prompts

input_hashes : Runtime → Fields → Fields
input_hashes rt end = end
input_hashes rt (field k v d) = field k (str (digest rt v)) (input_hashes rt d)

texts : List String → List Value
texts [] = []
texts (s ∷ l) = str s ∷ texts l

unfoldable pub step_dict : WorkflowStep → Value
step_dict s = obj (
    dict (
      ("index", int (pos s.index))
      ∷ ("prompt_id", str s.prompt_id)
      ∷ ("status", s.status)
      ∷ ("run_id", s.run_id)
      ∷ ("output_sha256", s.output_sha256)
      ∷ ("valid", bool s.valid)
      ∷ ("detail", str s.detail)
      ∷ []))

step_dicts : List WorkflowStep → List Value
step_dicts [] = []
step_dicts (s ∷ l) = step_dict s ∷ step_dicts l

unfoldable pub title_of : Workflow → String
title_of x = elim x.title [ none ↦ x.workflow_id | some t ↦ t ]

unfoldable pub workflow_record :
    Runtime → Pack → Workflow → String → List WorkflowStep → String → ℕ → Fields
unfolding title_of step_dicts texts
workflow_record rt pack x run_id steps status tick = dict (
    ("schema", str "nmsr.prompt-workflow-run/1")
    ∷ ("workflow_run_id", str run_id)
    ∷ ("workflow_id", str x.workflow_id)
    ∷ ("workflow_title", str (title_of x))
    ∷ ("status", str status)
    ∷ ("steps", arr (items (step_dicts steps)))
    ∷ ("deterministic_gates", arr (items (texts x.deterministic_gates)))
    ∷ ("gate_status", str "pending")
    ∷ ("pack_id", str pack.pack_id)
    ∷ ("pack_version", str pack.pack_version)
    ∷ ("pack_sha256", str pack.pack_sha256)
    ∷ ("commit_authority", bool false)
    ∷ ("deterministic_gate_required", bool true)
    ∷ ("created_at", str (rt.utc_now tick))
    ∷ [])

-- `model or "default"`; no model is the empty name
unfoldable pub model_name : String → String
model_name model = if model == "" then "default" else model

unfoldable pub workflow_run_id : Runtime → Pack → String → Fields → String → Fields → String
unfolding input_hashes model_name
workflow_run_id rt pack workflow_id step_inputs model overrides = str_append "workflow_" (
    short_digest rt 24 (
      obj (
        dict (
          ("workflow", str workflow_id)
          ∷ ("pack", str pack.pack_sha256)
          ∷ ("step_input_hashes", obj (input_hashes rt step_inputs))
          ∷ ("model", str (model_name model))
          ∷ ("overrides", obj overrides)
          ∷ []))))

unfoldable pub after_record : RunStore → Result (Fields × RunStore) → Result Fields × RunStore
after_record w (err e) = (err e, record w { ticks = suc w.ticks })
after_record w (ok (stored, w')) = (ok stored, record w' { ticks = suc w.ticks })

-- the write of the record, after the loop
unfoldable pub with_record :
    Runtime → Pack → Workflow → String → StepsRun → Result Fields × RunStore
unfolding workflow_record after_record
with_record rt pack x run_id (err e, w) = (err e, w)
with_record rt pack x run_id (ok (steps, status), w) =
    after_record w (save_workflow_run rt (workflow_record rt pack x run_id steps status w.ticks) w)

-- `execute`; `invoke` has the choice of the model for a step
unfoldable pub execute :
    Runtime
    → Pack
    → List Workflow
    → (ℕ → String → Fields → Reply)
    → Bool
    → Option ℤ
    → String
    → String
    → Fields
    → Fields
    → RunStore
    → Result Fields × RunStore
unfolding find_workflow known_steps planned_prompts workflow_run_id with_record
execute rt pack workflows invoke stop max_steps model workflow_id overrides step_inputs w =
    elim (find_workflow workflow_id workflows) [
      | err e ↦ (err e, w)
      | ok x ↦
          if known_steps x.prompts (keys step_inputs)
          then with_record rt pack x
              (workflow_run_id rt pack workflow_id step_inputs model overrides)
              (run_steps rt invoke stop step_inputs 0 (planned_prompts max_steps x.prompts) w)
          else (err unknown_step, w)
    ]
