-- ===== src/Execution/Attempts.antt =====
-- The attempts of `execute` in model_execution.py to reach the provider, and what is read of an answer.
use simulation_ai.Prelude.{
  ℕ, zero, suc, ◌*◌, min, String, Bool, true, false, ◌||◌, List, [], ◌∷◌, nat_eq, if◌then◌else◌,
}
use simulation_ai.Json.{Value, obj, Fields}
use simulation_ai.Result.{
  Result, ok, err, invalid_provider_response, provider_http_error, provider_unreachable,
  provider_failure, value_error,
}

-- The body of a response: bytes that are not UTF-8, a text that is not JSON, or a value.
pub data Body : Type 0 where
  undecodable : Body
  malformed : Body
  value : Value → Body

-- What one request ends in: a response with its status and its request's ID, an HTTPError, or an error
-- of the network.
pub data CallReply : Type 0 where
  response : ℕ → String → Body → CallReply
  http_error : ℕ → CallReply
  unreachable : CallReply

pub record Answer : Type 0 where
  pub content : Fields
  pub status_code : ℕ
  pub request_id : String

-- The answer or the error, the requests that were made, and the waits between them in milliseconds.
pub record Attempted : Type 0 where
  pub answer : Result Answer
  pub attempts : ℕ
  pub waits : List ℕ

unfoldable pub is_transient : ℕ → Bool
is_transient code =
    nat_eq code 408
    || nat_eq code 409
    || nat_eq code 429
    || nat_eq code 500
    || nat_eq code 502
    || nat_eq code 503
    || nat_eq code 504

-- a reply after which another attempt is made, if one is left
unfoldable pub is_retried : CallReply → Bool
unfolding is_transient
is_retried (response status request_id body) = false
is_retried (http_error code) = is_transient code
is_retried unreachable = true

-- what a reply comes to when it is the last
unfoldable pub judge : CallReply → Result Answer
judge (response status request_id undecodable) = err value_error
judge (response status request_id malformed) = err invalid_provider_response
judge (response status request_id (value (obj d))) =
    ok (record { content = d; status_code = status; request_id = request_id })
judge (response status request_id (value _)) = err invalid_provider_response
judge (http_error code) = err provider_http_error
judge unreachable = err provider_unreachable

power : ℕ → ℕ
power zero = 1
power (suc n) = 2 * power n

-- `min(0.25 * (2 ** (attempt - 1)), 1.0)`, for the attempt n + 1
unfoldable pub wait_after : ℕ → ℕ
unfolding power
wait_after n = min (250 * power n) 1000

-- `call n` is the reply to the request n + 1, and `more` the attempts that are left after it.
unfoldable pub attempt : (ℕ → CallReply) → ℕ → ℕ → Attempted
unfolding is_retried judge wait_after
attempt call n zero = record { answer = judge (call n); attempts = suc n; waits = [] }
attempt call n (suc more) =
    let rest = attempt call (suc n) more in
    if is_retried (call n)
    then record rest { waits = wait_after n ∷ rest.waits }
    else record { answer = judge (call n); attempts = suc n; waits = [] }

-- the loop over `range(1, max_attempts + 1)`
unfoldable pub request : (ℕ → CallReply) → ℕ → Attempted
unfolding attempt
request call zero = record { answer = err provider_failure; attempts = 0; waits = [] }
request call (suc more) = attempt call 0 more
