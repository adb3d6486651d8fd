-- ===== src/PromptCalls/Steps.antt =====
-- The steps of a workflow leave only runs without authority, and write no other part of the core.

use simulation_ai.Prelude.{
  ℕ, suc, String, Bool, true, false, Option, List, [], ◌∷◌, ◌≡◌, refl, sym, ap, ◌∙◌, inl, inr,
  Bool-cases,
}
use simulation_ai.Prelude.Int.{ℤ}
use simulation_ai.Json.{Value, null, obj, Fields}
use simulation_ai.Json.Dict.{get_or, keys}
use simulation_ai.Result.{Result, ok, err, >>=-eq-ok, ok-injective}
use simulation_ai.Runtime.{Runtime}
use simulation_ai.Exec.{◌>>=◌}
use simulation_ai.Runs.{RunStore, save_run, save_model_run, save_workflow_run}
use simulation_ai.Runs.Immutable.{AreRuns}
use simulation_ai.Workflows.{
  Reply, replied, refused, raised, StepsRun, with_step, after_run, on_saved, on_reply, on_inputs,
  run_steps, is_valid,
}
use simulation_ai.Workflows.Execute.{
  Workflow, find_workflow, known_steps, with_record, after_record, workflow_record, planned_prompts,
  workflow_run_id,
}
use simulation_ai.Workflows.Execute as Flows
use simulation_ai.Engine.Boot.Genesis.{Pack}
use simulation_ai.Execution.Calls.{Call}
use simulation_ai.PromptCalls.Policy.{check_policy}
use simulation_ai.PromptCalls.Separate.{Separate, save_model_run-AreRuns, policy_state}
use simulation_ai.PromptCalls.{
  Core, Setting, put_runs, run_workflow, step_reply, prompt_workflow_execute,
}

module _ (rt : Runtime) where
  abbrev Leaves : StepsRun → Type 0
  Leaves r = AreRuns rt r.1.model_runs

  with_step-Leaves : (step : _) (r : StepsRun) → Leaves r → Leaves (with_step step r)
  unfolding with_step
  with_step-Leaves step (ok (steps, status), w) h = h
  with_step-Leaves step (err e, w) h = h

  after_run-Leaves :
      (stop : Bool) (index : ℕ) (prompt_id : String) (stored : Fields) (valid : Result Bool)
      (w : RunStore) (later : StepsRun)
      → AreRuns rt w.model_runs
      → Leaves later
      → Leaves (after_run stop index prompt_id stored valid w later)
  unfolding after_run
  after_run-Leaves stop index prompt_id stored (err e) w later h l = h
  after_run-Leaves stop index prompt_id stored (ok true) w later h l = with_step-Leaves _ later l
  after_run-Leaves true index prompt_id stored (ok false) w later h l = h
  after_run-Leaves false index prompt_id stored (ok false) w later h l = with_step-Leaves _ later l

  on_saved-Leaves :
      (stop : Bool) (index : ℕ) (prompt_id : String) (run : Fields) (w : RunStore)
      (later : RunStore → StepsRun) (r : Result (Fields × RunStore))
      → save_model_run rt run w ≡ r
      → AreRuns rt w.model_runs
      → ((w' : RunStore) → AreRuns rt w'.model_runs → Leaves (later w'))
      → Leaves (on_saved stop index prompt_id w later r)
  unfolding on_saved
  on_saved-Leaves stop index prompt_id run w later (err e) q h l = h
  on_saved-Leaves stop index prompt_id run w later (ok (stored, w')) q h l =
      let h' = save_model_run-AreRuns rt run stored w w' q h in
      after_run-Leaves stop index prompt_id stored (is_valid stored) w' (later w') h' (l w' h')

  on_reply-Leaves :
      (stop : Bool) (index : ℕ) (prompt_id : String) (w : RunStore) (later : RunStore → StepsRun)
      (reply : Reply)
      → AreRuns rt w.model_runs
      → ((w' : RunStore) → AreRuns rt w'.model_runs → Leaves (later w'))
      → Leaves (on_reply rt stop index prompt_id w later reply)
  unfolding on_reply
  on_reply-Leaves stop index prompt_id w later (refused message) h l = h
  on_reply-Leaves stop index prompt_id w later (raised e) h l = h
  on_reply-Leaves stop index prompt_id w later (replied run) h l =
      on_saved-Leaves stop index prompt_id run w later (save_model_run rt run w) refl h l

  on_inputs-Leaves :
      (invoke : ℕ → String → Fields → Reply) (stop : Bool) (index : ℕ) (prompt_id : String)
      (w : RunStore) (later : RunStore → StepsRun) (v : Value)
      → AreRuns rt w.model_runs
      → ((w' : RunStore) → AreRuns rt w'.model_runs → Leaves (later w'))
      → Leaves (on_inputs rt invoke stop index prompt_id w later v)
  unfolding on_inputs
  on_inputs-Leaves invoke stop index prompt_id w later (obj inputs) h l =
      on_reply-Leaves stop index prompt_id w later (invoke index prompt_id inputs) h l
  on_inputs-Leaves invoke stop index prompt_id w later _ h l = h

  run_steps-Leaves :
      (invoke : ℕ → String → Fields → Reply) (stop : Bool) (inputs : Fields) (index : ℕ)
      (ps : List String) (w : RunStore)
      → AreRuns rt w.model_runs
      → Leaves (run_steps rt invoke stop inputs index ps w)
  unfolding run_steps
  run_steps-Leaves invoke stop inputs index [] w h = h
  run_steps-Leaves invoke stop inputs index (p ∷ ps) w h =
      on_inputs-Leaves invoke stop index p w (run_steps rt invoke stop inputs (suc index) ps)
        (get_or p null inputs) h (run_steps-Leaves invoke stop inputs (suc index) ps)

  saved_workflow :
      (run : Fields) (w : RunStore) (r : Result (Fields × RunStore))
      → save_workflow_run rt run w ≡ r
      → (stored : Fields) (w' : RunStore) → r ≡ ok (stored, w')
      → w'.model_runs ≡ w.model_runs
  unfolding save_workflow_run
  saved_workflow run w r q stored w' e =
      let (saved, _, h) =
        >>=-eq-ok (save_run rt "nmsr.prompt-workflow-run/1" "workflow_run_id" run w.workflow_runs) _
          (q ∙ e) in
      sym (ap (λ (p : Fields × RunStore). p.1.model_runs) (ok-injective _ _ h))

  stored-Leaves :
      (w : RunStore) (run : Fields) (r : Result (Fields × RunStore))
      → save_workflow_run rt run w ≡ r
      → AreRuns rt w.model_runs
      → AreRuns rt (after_record w r).1.model_runs
  unfolding after_record
  stored-Leaves w run (err e) q h = h
  stored-Leaves w run (ok (stored, w')) q h =
      let same = saved_workflow run w (ok (stored, w')) q stored w' refl in rw same h

  with_record-Leaves :
      (pack : Pack) (x : Workflow) (run_id : String) (r : StepsRun)
      → Leaves r
      → AreRuns rt (with_record rt pack x run_id r).1.model_runs
  unfolding with_record
  with_record-Leaves pack x run_id (err e, w) h = h
  with_record-Leaves pack x run_id (ok (steps, status), w) h =
      stored-Leaves w (workflow_record rt pack x run_id steps status w.ticks) _ refl h

  execute-Leaves :
      (pack : Pack) (workflows : List Workflow) (invoke : ℕ → String → Fields → Reply) (stop : Bool)
      (max_steps : Option ℤ) (model workflow_id : String) (overrides inputs : Fields) (w : RunStore)
      (found : Result Workflow)
      → find_workflow workflow_id workflows ≡ found
      → AreRuns rt w.model_runs
      → AreRuns rt
          (Flows.execute rt pack workflows invoke stop max_steps model workflow_id overrides inputs
            w).1.model_runs
  unfolding Flows.execute
  execute-Leaves pack workflows invoke stop max_steps model workflow_id overrides inputs w (err e) q
        h =
      rw (q, Flows.execute) h
  execute-Leaves pack workflows invoke stop max_steps model workflow_id overrides inputs w (ok x) q
        h =
      rw (q, Flows.execute)
        (elim (Bool-cases (known_steps x.prompts (keys inputs))) [
          | inl known ↦ rw known (
              with_record-Leaves pack x (workflow_run_id rt pack workflow_id inputs model overrides)
                _ (run_steps-Leaves invoke stop inputs 0 (planned_prompts max_steps x.prompts) w h))
          | inr unknown ↦ rw unknown h
        ])

module _ (rt : Runtime) (s : Setting) (pack : Pack) (workflows : List Workflow) (stop : Bool)
    (max_steps : Option ℤ) (choices : Call) (workflow_id : String) (overrides inputs : Fields) where
  allowed_case :
      (c : Core) (leave : Result (Unit {0}))
      → check_policy c.world ≡ leave
      → AreRuns rt c.runs.model_runs
      → Separate rt c (
          prompt_workflow_execute rt s pack workflows stop max_steps choices workflow_id overrides
            inputs c)
  unfolding prompt_workflow_execute run_workflow put_runs ◌>>=◌
  allowed_case c (err e) q h =
      rw q (record { same_world = refl; same_vault = refl; runs = h; gated = λ x g. cc })
  allowed_case c (ok tt) q h = rw q (record {
    same_world = refl;
    same_vault = refl;
    runs =
        execute-Leaves rt pack workflows (step_reply rt s c c.runs.ticks overrides choices) stop
          max_steps choices.model workflow_id overrides inputs c.runs _ refl h;
    gated = λ x g. policy_state c.world q;
  })

  -- Whatever the provider replies to the steps, the execution of a workflow changes neither the world's state
  -- nor the vault, and leaves only model runs that have no authority to commit. It gives a record only if the
  -- current state's privacy policy allows the cloud.
  pub prompt_workflow_execute-Separate :
      (c : Core)
      → AreRuns rt c.runs.model_runs
      → Separate rt c (
          prompt_workflow_execute rt s pack workflows stop max_steps choices workflow_id overrides
            inputs c)
  prompt_workflow_execute-Separate c h = allowed_case c (check_policy c.world) refl h
