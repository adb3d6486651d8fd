-- ===== src/Execution/Candidate.antt =====
-- What a run that was executed is: a candidate that was checked here, without authority.
use mathlib.Core.Path.{subst}
use simulation_ai.Prelude.{
  ℕ, zero, suc, ◌≤◌, String, true, false, some, ◌≡◌, refl, arith, if◌then◌else◌,
}
use simulation_ai.Prelude.Int.{pos}
use simulation_ai.Json.{null, bool, int, str, obj, Fields, truthy}
use simulation_ai.Json.Dict.{lookup, get_or}
use simulation_ai.Result.{Result, ok, >>=-eq-ok, guard-then, ok-injective, policy_not_callable}
use simulation_ai.Runtime.{Runtime}
use simulation_ai.Prompts.Secrets.{is_secret, KeyIn, reject_secret_fields, reject_secret_fields_iff}
use simulation_ai.Prompts.Registry.{Registry, get_spec}
use simulation_ai.Prompts.Output.{Validator, validate_output}
use simulation_ai.Execution.Attempts.{CallReply, Answer, request}
use simulation_ai.Execution.Bounded.{request-IsLast}
use simulation_ai.Execution.Parts.{extract_output_text}
use simulation_ai.Execution.{execute}
use simulation_ai.Execution.Calls.{ExecutionConfig, Request, Call, Provider, check_call, with_body}
use simulation_ai.Execution.Trace.{check_completed, parse_output, run_record}

pub record IsCandidate (rt : Runtime) (j : Validator) (r : Registry) (max_attempts : ℕ)
    (run : Fields) : Type 0 where
  pub prompt_id : String
  pub output : Fields
  pub validation : Fields
  pub checked : validate_output rt j r prompt_id (obj output) ≡ ok validation
  pub names_prompt : lookup "prompt_id" run ≡ some (str prompt_id)
  pub has_output : lookup "output" run ≡ some (obj output)
  pub has_validation : lookup "validation" run ≡ some (obj validation)
  pub has_status :
      lookup "status" run
      ≡ some (str (if truthy (get_or "valid" null validation) then "validated" else "invalid"))
  pub no_secret : (key : String) → KeyIn key (obj output) → is_secret rt key ≡ false
  pub no_authority : lookup "commit_authority" run ≡ some (bool false)
  pub gated : lookup "deterministic_gate_required" run ≡ some (bool true)
  pub attempts : ℕ
  pub has_attempts : lookup "attempts" run ≡ some (int (pos attempts))
  pub tried : 1 ≤ attempts
  pub within : attempts ≤ max_attempts

request-le :
    (call : ℕ → CallReply) (limit : ℕ) (a : Answer)
    → (request call limit).answer ≡ ok a
    → (1 ≤ (request call limit).attempts) × ((request call limit).attempts ≤ limit)
unfolding request
request-le call zero a h = cc
request-le call (suc more) a h =
    let l = request-IsLast call more in
    (omega (arith, l.counted), omega (arith, l.counted, l.within))

output_no_secret :
    (rt : Runtime) (j : Validator) (r : Registry) (prompt_id : String) (output validation : Fields)
    → validate_output rt j r prompt_id (obj output) ≡ ok validation
    → (key : String) → KeyIn key (obj output)
    → is_secret rt key ≡ false
unfolding validate_output
output_no_secret rt j r prompt_id output validation h =
    let (spec, e, h1) = >>=-eq-ok (get_spec rt r prompt_id) _ h in
    let (callable, h2) = guard-then spec.callable policy_not_callable _ h1 in
    let (u, secrets, h3) = >>=-eq-ok (reject_secret_fields rt (obj output)) _ h2 in
    (reject_secret_fields_iff rt (obj output)).0 secrets

run_record-IsCandidate :
    (rt : Runtime) (cfg : ExecutionConfig) (j : Validator) (r : Registry) (p : Provider) (c : Call)
    (q : Request) (tick : ℕ) (source : String) (attempts : ℕ) (a : Answer) (status : String)
    (output validation : Fields)
    → validate_output rt j r q.prompt_id (obj output) ≡ ok validation
    → 1 ≤ attempts
    → attempts ≤ cfg.max_attempts
    → IsCandidate rt j r cfg.max_attempts
        (run_record rt cfg p c q tick source attempts a status output validation)
unfolding run_record lookup
run_record-IsCandidate rt cfg j r p c q tick source attempts a status output validation e some_try
      few =
    record {
      prompt_id = q.prompt_id;
      output = output;
      validation = validation;
      checked = e;
      names_prompt = refl;
      has_output = refl;
      has_validation = refl;
      has_status = refl;
      no_secret = output_no_secret rt j r q.prompt_id output validation e;
      no_authority = refl;
      gated = refl;
      attempts = attempts;
      has_attempts = refl;
      tried = some_try;
      within = few;
    }

-- A run that was executed holds an output that was validated here under its own prompt, and says so; the
-- output has no key that looks like the name of a secret. The run has no authority to commit, requires the
-- gate, and took at least one and at most the allowed number of attempts.
pub execute-IsCandidate :
    (rt : Runtime) (cfg : ExecutionConfig) (j : Validator) (r : Registry) (p : Provider)
    (credential : Result (String × String)) (tick : ℕ) (c : Call) (run : Fields)
    → execute rt cfg j r p credential tick c ≡ ok run
    → IsCandidate rt j r cfg.max_attempts run
unfolding execute
execute-IsCandidate rt cfg j r p credential tick c run h =
    let (checked, e1, h1) = >>=-eq-ok (check_call rt cfg r c) _ h in
    let (key, e2, h2) = >>=-eq-ok credential _ h1 in
    let (q, e3, h3) = >>=-eq-ok (with_body rt c checked) _ h2 in
    let (a, e4, h4) = >>=-eq-ok (request (p.replies key.0 q.body) cfg.max_attempts).answer _ h3 in
    let (status, e5, h5) = >>=-eq-ok (check_completed rt a.content) _ h4 in
    let (text, e6, h6) = >>=-eq-ok (extract_output_text rt a.content) _ h5 in
    let (output, e7, h7) = >>=-eq-ok (parse_output p text) _ h6 in
    let (validation, e8, h8) = >>=-eq-ok (validate_output rt j r q.prompt_id (obj output)) _ h7 in
    let same = ok-injective _ _ h8 in
    let (some_try, few) = request-le (p.replies key.0 q.body) cfg.max_attempts a e4 in
    subst (IsCandidate rt j r cfg.max_attempts) same (
      run_record-IsCandidate rt cfg j r p c q tick key.1
        (request (p.replies key.0 q.body) cfg.max_attempts).attempts a status output validation e8
        some_try few)
