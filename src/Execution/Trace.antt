-- ===== src/Execution/Trace.antt =====
-- What `execute` of model_execution.py makes of an answer: the candidate and the record of the run.
use simulation_ai.Prelude.{ℕ, String, true, false, none, some, [], ◌∷◌, if◌then◌else◌}
use simulation_ai.Prelude.Int.{pos}
use simulation_ai.Prelude.Texts.{str_append}
use simulation_ai.Json.{Value, null, bool, int, str, obj, Fields, truthy, empty_dict}
use simulation_ai.Json.Dict.{get_or}
use simulation_ai.Result.{
  Result, ok, err, response_not_completed, invalid_model_json, invalid_model_output,
}
use simulation_ai.Runtime.{Runtime, str_of, digest, short_digest}
use simulation_ai.Model.{dict, one_of}
use simulation_ai.Execution.Attempts.{Answer}
use simulation_ai.Execution.Parts.{safe_usage}
use simulation_ai.Execution.Calls.{ExecutionConfig, Call, Provider, Request}

unfoldable pub check_completed : Runtime → Fields → Result String
unfolding get_or str_of one_of
check_completed rt d =
    let status = str_of rt (get_or "status" (str "completed") d) in
    if one_of status ("completed" ∷ "incomplete" ∷ [])
    then ok status
    else err response_not_completed

-- the candidate in the answer's text
unfoldable pub parse_output : Provider → String → Result Fields
parse_output p text = elim (p.loads text) [
  | none ↦ err invalid_model_json
  | some (obj d) ↦ ok d
  | some _ ↦ err invalid_model_output
]

abbrev pub pending_approval : Fields
pending_approval = dict (
    ("status", str "pending")
    ∷ ("reviewed_by", str "")
    ∷ ("note", str "")
    ∷ ("reviewed_at", str "")
    ∷ [])

abbrev pub usage_fields : Value → Fields
usage_fields (obj d) = d
usage_fields _ = dict []

module _ (rt : Runtime) (cfg : ExecutionConfig) (p : Provider) (c : Call) (q : Request) where
  unfoldable pub request_sha : String
  request_sha = digest rt (
      obj (
        dict (("endpoint", str cfg.endpoint) ∷ ("model", str q.model) ∷ ("body", obj q.body) ∷ [])))

  unfoldable pub run_id : String → Value → String
  unfolding get_or
  run_id response_id output_sha = str_append "run_" (
      short_digest rt 24 (
        obj (
          dict (
            ("invocation_id", get_or "invocation_id" null c.invocation)
            ∷ ("model", str q.model)
            ∷ ("response_id", str response_id)
            ∷ ("output_sha256", output_sha)
            ∷ []))))

  -- the record of the run
  unfoldable pub run_record : ℕ → String → ℕ → Answer → String → Fields → Fields → Fields
  unfolding request_sha run_id safe_usage get_or str_of
  run_record tick credential_source attempts a status output validation =
      let response_id = str_of rt (get_or "id" (str "") a.content) in
      let output_sha = str (str_of rt (get_or "output_sha256" null validation)) in
      dict (
        ("schema", str "nmsr.prompt-run/1")
        ∷ ("run_id", str (run_id response_id output_sha))
        ∷ ("kind", str "model-prompt")
        ∷ (
          "status",
          str (if truthy (get_or "valid" null validation) then "validated" else "invalid"),
        )
        ∷ ("provider", str "openai")
        ∷ ("provider_response_id", str response_id)
        ∷ ("provider_request_id", str a.request_id)
        ∷ ("provider_status", str status)
        ∷ ("credential_source", str credential_source)
        ∷ ("prompt_id", str q.prompt_id)
        ∷ ("prompt_version", get_or "prompt_version" null c.invocation)
        ∷ ("prompt_sha256", get_or "prompt_sha256" null c.invocation)
        ∷ ("pack_id", get_or "pack_id" null c.invocation)
        ∷ ("pack_version", get_or "pack_version" null c.invocation)
        ∷ ("invocation_id", get_or "invocation_id" null c.invocation)
        ∷ ("request_sha256", str request_sha)
        ∷ ("model", str q.model)
        ∷ ("reasoning_effort", str q.effort)
        ∷ ("max_output_tokens", int q.token_limit)
        ∷ ("attempts", int (pos attempts))
        ∷ ("latency_ms", p.elapsed)
        ∷ ("usage", obj (safe_usage (usage_fields (get_or "usage" empty_dict a.content))))
        ∷ ("output", obj output)
        ∷ ("output_sha256", output_sha)
        ∷ ("validation", obj validation)
        ∷ ("approval", obj pending_approval)
        ∷ ("authority", str (str_of rt (get_or "authority" (str "proposal-only") c.invocation)))
        ∷ ("commit_authority", bool false)
        ∷ ("deterministic_gate_required", bool true)
        ∷ ("store_requested", bool false)
        ∷ ("provider_strict_schema", bool q.strict)
        ∷ ("created_at", str (rt.utc_now tick))
        ∷ [])
