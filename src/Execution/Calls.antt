-- ===== src/Execution/Calls.antt =====
-- A call of a prompt in model_execution.py: its checks, up to the body of the request.
use simulation_ai.Prelude.{
  ℕ, String, Bool, false, not, ◌&&◌, ◌||◌, Option, List, [], ◌∷◌, ltb, if◌then◌else◌,
}
use simulation_ai.Prelude.Int.{ℤ, pos, ltb_ℤ, eqb_ℤ}
use simulation_ai.Prelude.Texts.{is_empty, is_space, strip, str_len, take_str}
use simulation_ai.Json.{
  Value, null, bool, int, str, arr, obj, Items, Fields, truthy, empty_list, empty_dict,
}
use simulation_ai.Json.Dict.{get_or, put}
use simulation_ai.Json.Equal.{py_eq}
use simulation_ai.Json.Lists.{count}
use simulation_ai.Result.{
  Result, ok, err, guard, ◌>>=◌, ◌>>◌, invalid_invocation, invalid_model, invalid_reasoning_effort,
  invalid_token_limit,
}
use simulation_ai.Runtime.{Runtime, str_of}
use simulation_ai.Model.{dict, one_of}
use simulation_ai.Prompts.Registry.{Registry, get_spec}
use simulation_ai.Execution.Attempts.{CallReply}
use simulation_ai.Execution.Parts.{provider_response_format, message_content}

-- `ModelExecutionConfig`, in seconds and tokens
pub record ExecutionConfig : Type 0 where
  pub endpoint : String
  pub default_model : String
  pub default_reasoning_effort : String
  pub default_max_output_tokens : ℤ
  pub max_attempts : ℕ

-- What a call is given: the rendered prompt, and choices that may be left open (an empty text, a zero).
pub record Call : Type 0 where
  pub invocation : Fields
  pub model : String
  pub reasoning_effort : String
  pub max_output_tokens : ℤ

-- The provider, for a key and a request's body; `json.loads` of a text; and the milliseconds that passed.
pub record Provider : Type 0 where
  pub replies : String → Fields → ℕ → CallReply
  pub loads : String → Option Value
  pub elapsed : Value

-- The choices of a call, checked.
pub record Request : Type 0 where
  pub prompt_id : String
  pub model : String
  pub effort : String
  pub token_limit : ℤ
  pub body : Fields
  pub strict : Bool

unfoldable pub or_default : String → String → String
or_default s default = if is_empty s then default else s

unfoldable pub is_strict : Value → Bool
unfolding get_or
is_strict (obj d) = truthy (get_or "compatible" (bool false) d)
is_strict _ = false

unfoldable pub as_list : Value → Result Items
unfolding count
as_list (arr xs) = do guard (not (ltb (count xs) 2)) invalid_invocation; ok xs
as_list _ = err invalid_invocation

unfoldable pub efforts : List String
efforts = "none" ∷ "minimal" ∷ "low" ∷ "medium" ∷ "high" ∷ "xhigh" ∷ []

-- `request_body`
unfoldable pub request_body :
    Runtime → Fields → String → String → String → String → String → ℤ → Fields → Fields
unfolding get_or str_of take_str
request_body rt invocation prompt_id system_text user_text model effort token_limit format = dict (
    ("model", str model)
    ∷ ("instructions", str system_text)
    ∷ ("input", str user_text)
    ∷ ("text", obj (dict (("format", obj format) ∷ [])))
    ∷ ("reasoning", obj (dict (("effort", str effort) ∷ [])))
    ∷ ("max_output_tokens", int token_limit)
    ∷ ("store", bool false)
    ∷ (
      "metadata",
      obj (
          dict (
            ("simulation_ai_prompt", str (take_str 64 prompt_id))
            ∷ (
              "simulation_ai_pack",
              str (take_str 64 (str_of rt (get_or "pack_version" (str "") invocation))),
            )
            ∷ (
              "simulation_ai_invocation",
              str (take_str 64 (str_of rt (get_or "invocation_id" (str "") invocation))),
            )
            ∷ [])),
    )
    ∷ [])

-- the checks of a call up to the key, and its messages
unfoldable pub check_call :
    Runtime → ExecutionConfig → Registry → Call → Result (Request × String × String)
unfolding or_default as_list efforts get_or py_eq str_of get_spec message_content strip is_space
    str_len one_of
check_call rt cfg r c = do
  guard (py_eq (get_or "schema" null c.invocation) (str "nmsr.prompt-invocation/1"))
      invalid_invocation
  let prompt_id = str_of rt (get_or "prompt_id" (str "") c.invocation)
  spec ← get_spec rt r prompt_id
  messages ← as_list (get_or "messages" empty_list c.invocation)
  system_text ← message_content "system" messages
  user_text ← message_content "user" messages
  let model = strip is_space (or_default c.model cfg.default_model)
  guard (not (is_empty model || ltb 128 (str_len model))) invalid_model
  let effort =
      rt.lower (strip is_space (or_default c.reasoning_effort cfg.default_reasoning_effort))
  guard (one_of effort efforts) invalid_reasoning_effort
  let token_limit =
      if eqb_ℤ c.max_output_tokens (pos 0)
      then cfg.default_max_output_tokens
      else c.max_output_tokens
  guard (not (ltb_ℤ token_limit (pos 128)) && not (ltb_ℤ (pos 100000) token_limit))
      invalid_token_limit
  ok (
    record {
      prompt_id = prompt_id;
      model = model;
      effort = effort;
      token_limit = token_limit;
      body = c.invocation;
      strict = false;
    },
    system_text,
    user_text,
  )

-- the body of the request, with the format that the provider can take
unfoldable pub with_body : Runtime → Call → Request × String × String → Result Request
unfolding provider_response_format is_strict request_body get_or put
with_body rt c (q, system_text, user_text) = do
  format ← provider_response_format (get_or "response_format" empty_dict c.invocation)
  let strict = is_strict (get_or "openai_strict_compatibility" empty_dict c.invocation)
  ok (record q {
    body =
        request_body rt c.invocation q.prompt_id system_text user_text q.model q.effort
          q.token_limit (put "strict" (bool strict) format);
    strict = strict;
  })
