-- ===== src/Execution.antt =====
-- `OpenAIResponsesExecutor.execute` of model_execution.py: one rendered prompt, one candidate. The
-- provider's replies, the parser of JSON texts and the time that passed are parameters.
pub mod Attempts
pub mod Bounded
pub mod Parts
pub mod Calls
pub mod Trace
pub mod Candidate
use simulation_ai.Prelude.{
  ℕ, suc, String, Bool, true, false, not, ◌&&◌, ◌||◌, Option, none, some, List, [], ◌∷◌, ◌==◌, ltb,
  if◌then◌else◌,
}
use simulation_ai.Prelude.Int.{ℤ, pos, ltb_ℤ, eqb_ℤ}
use simulation_ai.Prelude.Texts.{str_append, is_empty, is_space, strip, str_len, take_str}
use simulation_ai.Json.{
  Value, null, bool, int, str, arr, obj, Items, Fields, truthy, empty_list, empty_dict,
}
use simulation_ai.Json.Dict.{get_or, put}
use simulation_ai.Json.Equal.{py_eq}
use simulation_ai.Json.Lists.{count}
use simulation_ai.Result.{
  Result, ok, err, guard, or_raise, ◌>>=◌, ◌>>◌, invalid_invocation, invalid_model,
  invalid_reasoning_effort, invalid_token_limit, response_not_completed, invalid_model_json,
  invalid_model_output,
}
use simulation_ai.Runtime.{Runtime, str_of, digest, short_digest}
use simulation_ai.Model.{dict, one_of}
use simulation_ai.Prompts.Spec.{PromptSpec}
use simulation_ai.Prompts.Registry.{Registry, get_spec}
use simulation_ai.Prompts.Output.{Validator, validate_output}
use simulation_ai.Execution.Attempts.{CallReply, Answer, Attempted, request}
use simulation_ai.Execution.Parts.{
  provider_response_format, message_content, extract_output_text, safe_usage,
}
use simulation_ai.Execution.Calls.{ExecutionConfig, Call, Provider, Request, check_call, with_body}
use simulation_ai.Execution.Trace.{check_completed, parse_output, run_record}

-- `credential` is the outcome of the vault's `resolve_api_key`, `tick` the reading of the clock.
unfoldable pub execute :
    Runtime
    → ExecutionConfig
    → Validator
    → Registry
    → Provider
    → Result (String × String)
    → ℕ
    → Call
    → Result Fields
unfolding check_call with_body request check_completed extract_output_text parse_output
    validate_output run_record
execute rt cfg j r p credential tick c = do
  checked ← check_call rt cfg r c
  key ← credential
  q ← with_body rt c checked
  let tried = request (p.replies key.0 q.body) cfg.max_attempts
  a ← tried.answer
  status ← check_completed rt a.content
  text ← extract_output_text rt a.content
  output ← parse_output p text
  validation ← validate_output rt j r q.prompt_id (obj output)
  ok (run_record rt cfg p c q tick key.1 tried.attempts a status output validation)
