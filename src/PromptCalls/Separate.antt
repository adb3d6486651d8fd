-- ===== src/PromptCalls/Separate.antt =====
-- The calls of prompts stay apart from the world's state and from the vault, and need the policy's leave.
use mathlib.Core.Path.{subst}
use simulation_ai.Prelude.{suc, String, true, ◌≡◌, refl, ap, ◌∙◌}
use simulation_ai.Json.{Fields}
use simulation_ai.Result.{Result, ok, err, >>=-eq-ok, ok-injective, guard-eq-ok, permission_denied}
use simulation_ai.Runtime.{Runtime}
use simulation_ai.Exec.{◌>>=◌, continue}
use simulation_ai.Model.State.{SurfaceState}
use simulation_ai.Store.{Store}
use simulation_ai.Store.States.{load_state}
use simulation_ai.Runs.{RunStore, save_model_run, save_run}
use simulation_ai.Runs.Immutable.{AreRuns, save_run-Kept}
use simulation_ai.Execution.Calls.{Call}
use simulation_ai.PromptCalls.Policy.{check_policy, cloud_allowed}
use simulation_ai.PromptCalls.{
  Core, Setting, next_tick, put_run, save_run_of, run_prompt, credential, prompt_execute,
}

pub save_model_run-AreRuns :
    (rt : Runtime) (run stored : Fields) (w w' : RunStore)
    → save_model_run rt run w ≡ ok (stored, w')
    → AreRuns rt w.model_runs
    → AreRuns rt w'.model_runs
unfolding save_model_run
save_model_run-AreRuns rt run stored w w' h runs =
    let (saved, e, h1) =
      >>=-eq-ok (save_run rt "nmsr.prompt-run/1" "run_id" run w.model_runs) _ h in
    let kept = save_run-Kept rt "nmsr.prompt-run/1" "run_id" run w.model_runs saved runs e in
    let same : saved.1 ≡ w'.model_runs =
      ap (λ (p : Fields × RunStore). p.1.model_runs) (ok-injective _ _ h1) in
    subst (AreRuns rt) same kept.runs

-- What a call leaves of the core, and whose leave it had.
pub record Separate (rt : Runtime) (before : Core) (after : Result Fields × Core) : Type 0 where
  pub same_world : after.1.world ≡ before.world
  pub same_vault : after.1.vault ≡ before.vault
  pub runs : AreRuns rt after.1.runs.model_runs
  pub gated :
      (run : Fields)
      → after.0 ≡ ok run
      → (s : SurfaceState) × (load_state "HEAD" before.world ≡ ok s) × (cloud_allowed s ≡ ok true)

pub policy_state :
    (w : Store)
    → check_policy w ≡ ok tt
    → (s : SurfaceState) × (load_state "HEAD" w ≡ ok s) × (cloud_allowed s ≡ ok true)
unfolding check_policy
policy_state w h =
    let (s, e, h1) = >>=-eq-ok (load_state "HEAD" w) _ h in
    let (allowed, f, h2) = >>=-eq-ok (cloud_allowed s) _ h1 in
    (s, e, f ∙ ap ok (guard-eq-ok allowed permission_denied h2))

module _ (rt : Runtime) (s : Setting) (prompt_id : String) (inputs : Fields) (choices : Call) where
  saved_case :
      (run : Fields) (c d : Core) (r : Result (Fields × RunStore))
      → save_model_run rt run d.runs ≡ r
      → d.world ≡ c.world
      → d.vault ≡ c.vault
      → AreRuns rt d.runs.model_runs
      → check_policy c.world ≡ ok tt
      → Separate rt c (put_run r d)
  unfolding put_run
  saved_case run c d (err e) q w v runs leave = record {
    same_world = w;
    same_vault = v;
    runs = runs;
    gated = λ x h. cc;
  }
  saved_case run c d (ok (stored, runs')) q w v runs leave = record {
    same_world = w;
    same_vault = v;
    runs = save_model_run-AreRuns rt run stored d.runs runs' q runs;
    gated = λ x h. policy_state c.world leave;
  }

  run_case :
      (c d : Core) (r : Result Fields)
      → d.world ≡ c.world
      → d.vault ≡ c.vault
      → AreRuns rt d.runs.model_runs
      → check_policy c.world ≡ ok tt
      → Separate rt c (continue (save_run_of rt) (r, d))
  unfolding save_run_of
  run_case c d (err e) w v runs leave = record {
    same_world = w;
    same_vault = v;
    runs = runs;
    gated = λ x h. cc;
  }
  run_case c d (ok run) w v runs leave =
      saved_case run c d (save_model_run rt run d.runs) refl w v runs leave

  policy_case :
      (c : Core) (r : Result (Unit {0}))
      → check_policy c.world ≡ r
      → AreRuns rt c.runs.model_runs
      → Separate rt c (prompt_execute rt s prompt_id inputs choices c)
  unfolding prompt_execute ◌>>=◌ next_tick
  policy_case c (err e) q runs =
      rw q (record { same_world = refl; same_vault = refl; runs = runs; gated = λ x h. cc })
  policy_case c (ok tt) q runs =
      let d : Core = record c { runs = record c.runs { ticks = suc (suc c.runs.ticks) } } in
      rw q (
        run_case c d
          (run_prompt rt s (credential rt s c.vault) c.runs.ticks (suc c.runs.ticks) prompt_id
            inputs (ok choices))
          refl refl runs q)

  -- Whatever the provider replies, a call of a prompt changes neither the world's state nor the vault, and
  -- leaves only model runs that have no authority to commit. It gives a run only if the current state's
  -- privacy policy allows the cloud.
  pub prompt_execute-Separate :
      (c : Core)
      → AreRuns rt c.runs.model_runs
      → Separate rt c (prompt_execute rt s prompt_id inputs choices c)
  prompt_execute-Separate c runs = policy_case c (check_policy c.world) refl runs
