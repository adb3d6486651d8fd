-- ===== src/PromptCalls.antt =====
-- The calls of prompts of `SurfaceEngine` (engine.py): `prompt_execute` and `prompt_workflow_execute`.
pub mod Policy
pub mod Separate
pub mod Steps
use simulation_ai.Prelude.{
  ℕ, suc, ◌+◌, ◌*◌, String, Bool, true, false, not, ◌&&◌, ◌||◌, Option, none, some, List, [], ◌∷◌,
  ◌==◌, if◌then◌else◌,
}
use simulation_ai.Prelude.Int.{ℤ}
use simulation_ai.Json.{Value, bool, obj, str, Fields, truthy, empty_dict}
use simulation_ai.Json.Dict.{get_or, lookup}
use simulation_ai.Result.{
  Error, Result, ok, err, guard, type_error, attribute_error, permission_denied,
}
use simulation_ai.Runtime.{Runtime}
use simulation_ai.Exec.{Exec, pure, lift, gets, reads, ◌>>=◌, ◌>>◌}
use simulation_ai.Patch.{get_attr}
use simulation_ai.Model.State.{SurfaceState}
use simulation_ai.Store.{Store}
use simulation_ai.Store.States.{load_state}
use simulation_ai.Runs.{RunStore, save_model_run}
use simulation_ai.Vault.{resolve_api_key}
use simulation_ai.Vault.Records.{Crypto, VaultConfig, Vault}
use simulation_ai.Prompts.Registry.{Registry}
use simulation_ai.Prompts.Output.{Validator}
use simulation_ai.Prompts.Render.{render}
use simulation_ai.PromptCalls.Policy.{check_policy}
use simulation_ai.Execution.{execute}
use simulation_ai.Execution.Calls.{ExecutionConfig, Call, Provider}
use simulation_ai.Engine.Boot.Genesis.{Pack}
use simulation_ai.Workflows.{Reply, replied, refused, raised}
use simulation_ai.Workflows.Execute as Flows

-- What the calls write to and read: the world, the runs and the vault.
pub record Core : Type 0 where
  pub world : Store
  pub runs : RunStore
  pub vault : Vault

-- What stays the same: the parts that the engine is built from. `text_of_error` is `str(exc)`.
pub record Setting : Type 0 where
  pub crypto : Crypto
  pub vault_config : VaultConfig
  pub execution : ExecutionConfig
  pub validator : Validator
  pub registry : Registry
  pub provider : Provider
  pub text_of_error : Error → String

unfoldable pub next_tick : Exec Core ℕ
next_tick c = (ok c.runs.ticks, record c { runs = record c.runs { ticks = suc c.runs.ticks } })

unfoldable pub put_run : Result (Fields × RunStore) → Core → Result Fields × Core
put_run (ok (stored, runs)) c = (ok stored, record c { runs = runs })
put_run (err e) c = (err e, c)

unfoldable pub save_run_of : Runtime → Fields → Exec Core Fields
unfolding save_model_run put_run
save_run_of rt run c = put_run (save_model_run rt run c.runs) c

-- what a step of a workflow gets: the errors that its loop catches as texts
unfoldable pub is_model_error : Error → Bool
is_model_error Error.invalid_invocation = true
is_model_error Error.invalid_model = true
is_model_error Error.invalid_reasoning_effort = true
is_model_error Error.invalid_token_limit = true
is_model_error Error.invalid_provider_response = true
is_model_error Error.provider_http_error = true
is_model_error Error.provider_unreachable = true
is_model_error Error.provider_failure = true
is_model_error Error.response_not_completed = true
is_model_error Error.invalid_model_json = true
is_model_error Error.invalid_model_output = true
is_model_error Error.model_refusal = true
is_model_error Error.empty_model_output = true
is_model_error _ = false

unfoldable pub is_pack_error : Error → Bool
is_pack_error Error.secret_field = true
is_pack_error Error.unknown_prompt = true
is_pack_error Error.prompt_file_missing = true
is_pack_error Error.prompt_file_empty = true
is_pack_error Error.policy_not_callable = true
is_pack_error Error.missing_inputs = true
is_pack_error Error.unknown_inputs = true
is_pack_error Error.input_too_large = true
is_pack_error Error.policy_callable = true
is_pack_error Error.no_output_schema = true
is_pack_error Error.schema_missing = true
is_pack_error Error.schema_mismatch = true
is_pack_error Error.output_not_object = true
is_pack_error Error.object_required = true
is_pack_error _ = false

module _ (rt : Runtime) (s : Setting) where
  -- a call whose model is no text ends as soon as the invocation is there
  unfoldable pub execute_call : Result (String × String) → ℕ → Fields → Result Call → Result Fields
  unfolding execute
  execute_call credential later invocation (err e) = err e
  execute_call credential later invocation (ok call) =
      execute rt s.execution s.validator s.registry s.provider credential later
        (record call { invocation = invocation })

  -- `self.prompts.render` and `self.model_executor.execute`
  unfoldable pub run_prompt :
      Result (String × String) → ℕ → ℕ → String → Fields → Result Call → Result Fields
  unfolding render execute_call
  run_prompt credential tick later prompt_id inputs choices =
      elim (render rt s.registry tick prompt_id inputs) [
        | err e ↦ err e
        | ok invocation ↦ execute_call credential later invocation choices
      ]

  unfoldable pub credential : Vault → Result (String × String)
  unfolding resolve_api_key
  credential v = resolve_api_key rt s.crypto s.vault_config v

  unfoldable pub prompt_execute : String → Fields → Call → Exec Core Fields
  unfolding check_policy next_tick run_prompt credential save_run_of
  prompt_execute prompt_id inputs choices = do
    reads (λ (c : Core). check_policy c.world)
    tick ← next_tick
    later ← next_tick
    run ←
        reads
          (λ (c : Core). run_prompt (credential c.vault) tick later prompt_id inputs (ok choices))
    save_run_of rt run

  unfoldable pub reply_of : Result Fields → Reply
  unfolding is_model_error is_pack_error
  reply_of (ok run) = replied run
  reply_of (err e) =
      if is_model_error e || is_pack_error e then refused (s.text_of_error e) else raised e

  -- a truthy override that is no text has no `strip`
  overridden : Call → Value → Result Call
  unfolding truthy
  overridden choices (str m) = ok (if m == "" then choices else record choices { model = m })
  overridden choices v = if truthy v then err attribute_error else ok choices

  -- the model of a step: its override, else that of the call
  unfoldable pub model_of : Fields → Call → String → Result Call
  unfolding lookup overridden
  model_of overrides choices prompt_id = elim (lookup prompt_id overrides) [
    | none ↦ ok choices
    | some v ↦ overridden choices v
  ]

  -- the step `index` of a workflow that began at the reading `tick` of the clock: two readings each
  unfoldable pub step_reply : Core → ℕ → Fields → Call → ℕ → String → Fields → Reply
  unfolding reply_of run_prompt credential model_of
  step_reply c tick overrides choices index prompt_id inputs = reply_of (
      run_prompt (credential c.vault) (tick + 2 * index) (suc (tick + 2 * index)) prompt_id inputs
        (model_of overrides choices prompt_id))

  unfoldable pub put_runs : Core → Result Fields × RunStore → Result Fields × Core
  put_runs c (r, runs) = (r, record c { runs = runs })

  unfoldable pub run_workflow :
      Pack
      → List Flows.Workflow
      → Bool
      → Option ℤ
      → Call
      → String
      → Fields
      → Fields
      → Exec Core Fields
  unfolding Flows.execute step_reply put_runs
  run_workflow pack workflows stop max_steps choices workflow_id overrides step_inputs c =
      put_runs c (
        Flows.execute rt pack workflows (step_reply c c.runs.ticks overrides choices) stop max_steps
          choices.model workflow_id overrides step_inputs c.runs)

  unfoldable pub prompt_workflow_execute :
      Pack
      → List Flows.Workflow
      → Bool
      → Option ℤ
      → Call
      → String
      → Fields
      → Fields
      → Exec Core Fields
  unfolding check_policy run_workflow
  prompt_workflow_execute pack workflows stop max_steps choices workflow_id overrides step_inputs =
      do
        reads (λ (c : Core). check_policy c.world)
        run_workflow pack workflows stop max_steps choices workflow_id overrides step_inputs
