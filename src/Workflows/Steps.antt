-- ===== src/Workflows/Steps.antt =====
-- A loop over the steps of a workflow that completes has run each of them.
use simulation_ai.Prelude.{
  ℕ, suc, arith, String, Bool, true, false, ◌≡◌, ◌==◌, eq_iff, refl, List, [], ◌∷◌,
}
use simulation_ai.Prelude.Lists.{length, All}
use simulation_ai.Json.{Value, null, obj, Fields}
use simulation_ai.Json.Dict.{get_or}
use simulation_ai.Result.{Result, ok, err}
use simulation_ai.Runtime.{Runtime}
use simulation_ai.Runs.{RunStore, save_model_run}
use simulation_ai.Workflows.{
  Reply, replied, refused, raised, WorkflowStep, StepsRun, run_steps, after_run, with_step,
  on_saved, on_reply, on_inputs, is_valid, run_step,
}

-- If the run says that it is completed, then it has that many steps, and they are valid.
abbrev pub Completes : ℕ → StepsRun → Type 0
Completes n (ok (steps, status), w) =
    status ≡ "completed" → (length steps ≡ n) × All (λ (s : WorkflowStep). s.valid ≡ true) steps
Completes n (err e, w) = Unit

with_step-Completes :
    (n : ℕ) (s : WorkflowStep) (r : StepsRun)
    → s.valid ≡ true
    → Completes n r
    → Completes (suc n) (with_step s r)
unfolding with_step
with_step-Completes n s (ok (steps, status), w) v h = λ e. (omega (arith, (h e).0), (v, (h e).1))
with_step-Completes n s (err x, w) v h = tt

not_completed : (s : String) → (s == "completed") ≡ false → {A : Type 0} → s ≡ "completed" → A
not_completed s h e = absurd (ground (arith, eq_iff s "completed"))

after_run-Completes :
    (n index : ℕ) (prompt_id : String) (stored : Fields) (v : Result Bool) (w : RunStore)
    (later : StepsRun)
    → Completes n later
    → Completes (suc n) (after_run true index prompt_id stored v w later)
unfolding after_run run_step
after_run-Completes n index prompt_id stored (err e) w later h = tt
after_run-Completes n index prompt_id stored (ok true) w later h =
    with_step-Completes n (run_step index prompt_id stored true) later refl h
after_run-Completes n index prompt_id stored (ok false) w later h =
    not_completed "stopped-invalid" refl

on_saved-Completes :
    (n index : ℕ) (prompt_id : String) (w : RunStore) (later : RunStore → StepsRun)
    (saved : Result (Fields × RunStore))
    → ((v : RunStore) → Completes n (later v))
    → Completes (suc n) (on_saved true index prompt_id w later saved)
unfolding on_saved
on_saved-Completes n index prompt_id w later (err e) h = tt
on_saved-Completes n index prompt_id w later (ok (stored, w')) h =
    after_run-Completes n index prompt_id stored (is_valid stored) w' (later w') (h w')

module _ (rt : Runtime) (invoke : ℕ → String → Fields → Reply) where
  on_reply-Completes :
      (n index : ℕ) (prompt_id : String) (w : RunStore) (later : RunStore → StepsRun)
      (reply : Reply)
      → ((v : RunStore) → Completes n (later v))
      → Completes (suc n) (on_reply rt true index prompt_id w later reply)
  unfolding on_reply
  on_reply-Completes n index prompt_id w later (refused message) h = not_completed "failed" refl
  on_reply-Completes n index prompt_id w later (raised e) h = tt
  on_reply-Completes n index prompt_id w later (replied reply) h =
      on_saved-Completes n index prompt_id w later (save_model_run rt reply w) h

  on_inputs-Completes :
      (n index : ℕ) (prompt_id : String) (w : RunStore) (later : RunStore → StepsRun)
      (inputs : Value)
      → ((v : RunStore) → Completes n (later v))
      → Completes (suc n) (on_inputs rt invoke true index prompt_id w later inputs)
  unfolding on_inputs
  on_inputs-Completes n index prompt_id w later null h = not_completed "awaiting-input" refl
  on_inputs-Completes n index prompt_id w later (obj inputs) h =
      on_reply-Completes n index prompt_id w later (invoke index prompt_id inputs) h
  on_inputs-Completes n index prompt_id w later _ h = tt

  -- With `stop_on_invalid`, and whatever the model replies: a loop over `ps` that ends with the status
  -- `completed` has run one step for each of them, and each step is valid.
  pub run_steps-Completes :
      (step_inputs : Fields) (index : ℕ) (ps : List String) (w : RunStore)
      → Completes (length ps) (run_steps rt invoke true step_inputs index ps w)
  unfolding run_steps
  run_steps-Completes step_inputs index [] w = λ e. (refl, tt)
  run_steps-Completes step_inputs index (prompt_id ∷ ps) w =
      on_inputs-Completes (length ps) index prompt_id w
        (run_steps rt invoke true step_inputs (suc index) ps) (get_or prompt_id null step_inputs)
        (run_steps-Completes step_inputs (suc index) ps)
