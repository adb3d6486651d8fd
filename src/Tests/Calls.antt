-- ===== src/Tests/Calls.antt =====
-- A provider that fails once and then answers, and a call of a prompt in a world that allows it.
use simulation_ai.Prelude.{none, ℕ, zero, suc, true, some, [], ◌∷◌, ◌≡◌, refl}
use simulation_ai.Prelude.Int.{pos}
use simulation_ai.Json.{int, str, obj, Fields, end, items}
use simulation_ai.Result.{Result, ok, err}
use simulation_ai.Model.{dict}
use simulation_ai.Store.{find}
use simulation_ai.Runs.{RunStore}
use simulation_ai.Vault.Histories.{empty_vault}
use simulation_ai.Execution.{execute}
use simulation_ai.Execution.Calls.{ExecutionConfig, Call, Provider}
use simulation_ai.Execution.Attempts.{CallReply, response, http_error, value, request}
use simulation_ai.Execution.Bounded.{IsLast, request-IsLast}
use simulation_ai.Execution.Candidate.{IsCandidate, execute-IsCandidate}
use simulation_ai.Prompts.Render.{invocation}
use simulation_ai.PromptCalls.{Core, Setting, prompt_execute}
use simulation_ai.PromptCalls.{prompt_workflow_execute}
use simulation_ai.PromptCalls.Steps.{prompt_workflow_execute-Separate}
use simulation_ai.Workflows.Execute.{Workflow}
use simulation_ai.Engine.Boot.Genesis.{Pack}
use simulation_ai.PromptCalls.Separate.{Separate, prompt_execute-Separate}
use simulation_ai.Runs.Immutable.{AreRuns}
use simulation_ai.Tests.Fixtures.{test_runtime}
use simulation_ai.Tests.Prompts.{test_registry, test_validator, goal, goal_invocation}
use simulation_ai.Tests.Vaults.{toy, toy_config}
use simulation_ai.Tests.Fixtures.{state₀, store₀, hash₀}
use simulation_ai.Json.{bool}
use simulation_ai.Json.Sort.{sort_fields}
use simulation_ai.Model.State.{as_dict}
use simulation_ai.Store.{Store}

abbrev planned : Fields
planned = dict (("step", obj (dict [])) ∷ [])

abbrev provider_answer : Fields
provider_answer = dict (("id", str "resp_1") ∷ ("output_text", str "{}") ∷ [])

-- overloaded, then an answer
flaky : ℕ → CallReply
flaky zero = http_error 503
flaky (suc n) = response 200 "req_1" (value (obj provider_answer))

request-IsLast_example : IsLast flaky 0 2 (request flaky 2)
request-IsLast_example = request-IsLast flaky 1

abbrev test_execution : ExecutionConfig
test_execution = record {
  endpoint = "https://api.openai.com/v1/responses";
  default_model = "gpt";
  default_reasoning_effort = "medium";
  default_max_output_tokens = pos 4096;
  max_attempts = 2;
}

abbrev test_provider : Provider
test_provider = record {
  replies = λ key body. flaky;
  loads = λ text. some (obj planned);
  elapsed = int (pos 5);
}

abbrev test_call : Call
test_call = record {
  invocation = goal_invocation;
  model = "";
  reasoning_effort = "";
  max_output_tokens = pos 0;
}

abbrev run_of : Result Fields → Fields
run_of (ok d) = d
run_of (err e) = end

abbrev first_run : Result Fields
first_run =
    execute test_runtime test_execution test_validator test_registry test_provider
      (ok ("sk-key", "environment")) 0 test_call

first_run_ok : first_run ≡ ok (run_of first_run)
unfolding execute flaky invocation items
first_run_ok = refl

execute-IsCandidate_example :
    IsCandidate test_runtime test_validator test_registry 2 (run_of first_run)
execute-IsCandidate_example =
    execute-IsCandidate test_runtime test_execution test_validator test_registry test_provider
      (ok ("sk-key", "environment")) 0 test_call (run_of first_run) first_run_ok

-- a world whose state allows the cloud
abbrev open_world : Store
open_world = record store₀ {
  states =
      (
        hash₀,
        sort_fields (
            as_dict (record state₀ {
              ui = obj (dict (("privacy", obj (dict (("cloud_allowed", bool true) ∷ []))) ∷ []));
            })),
      )
      ∷ [];
}

abbrev no_model_runs : RunStore
no_model_runs = record { model_runs = []; workflow_runs = []; reviews = []; ticks = 0 }

abbrev test_core : Core
test_core = record { world = open_world; runs = no_model_runs; vault = empty_vault }

abbrev test_setting : Setting
test_setting = record {
  crypto = toy;
  vault_config = record toy_config { env_key = "sk-0123456789abcdefghij" };
  execution = test_execution;
  validator = test_validator;
  registry = test_registry;
  provider = test_provider;
  text_of_error = λ e. "error";
}

none_saved : AreRuns test_runtime []
unfolding find
none_saved k v e = cc

prompt_execute-Separate_example :
    Separate test_runtime test_core
      (prompt_execute test_runtime test_setting "state_planner" goal test_call test_core)
prompt_execute-Separate_example =
    prompt_execute-Separate test_runtime test_setting "state_planner" goal test_call test_core
      none_saved

abbrev plan_once : Workflow
plan_once = record {
  workflow_id = "plan_once";
  title = none;
  prompts = "state_planner" ∷ [];
  deterministic_gates = "commit" ∷ [];
}

abbrev test_pack : Pack
test_pack = record { pack_id = "pack"; pack_version = "1"; pack_sha256 = hash₀ }

prompt_workflow_execute-Separate_example : Separate test_runtime test_core (
    prompt_workflow_execute test_runtime test_setting test_pack
      (plan_once ∷ [])
      true
      none
      test_call
      "plan_once"
      end
      (dict (("state_planner", obj goal) ∷ []))
      test_core)
prompt_workflow_execute-Separate_example =
    prompt_workflow_execute-Separate test_runtime test_setting test_pack (plan_once ∷ []) true none
      test_call "plan_once" end (dict (("state_planner", obj goal) ∷ [])) test_core none_saved
