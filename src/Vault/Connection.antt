-- ===== src/Vault/Connection.antt =====
-- `test_connection` of credentials.py: what is told of a provider's answer to the key.
use simulation_ai.Prelude.{
  ℕ, String, Bool, false, ◌&&◌, Option, none, some, [], ◌∷◌, leb, ltb, nat_eq, if◌then◌else◌,
}
use simulation_ai.Prelude.Int.{pos}
use simulation_ai.Prelude.Texts.{is_empty, str_append}
use simulation_ai.Json.{Value, bool, int, str, arr, obj, Fields}
use simulation_ai.Json.Dict.{lookup}
use simulation_ai.Json.Lists.{count}
use simulation_ai.Result.{Result, ok, err}
use simulation_ai.Runtime.{Runtime}
use simulation_ai.Model.{dict}
use simulation_ai.Vault.{resolve_api_key}
use simulation_ai.Vault.Records.{Crypto, VaultConfig, Vault}

-- What the request ends in: a response with its status and its JSON, if it is JSON, an HTTPError, or
-- an error of the network with the name of its class.
pub data TestReply : Type 0 where
  answered : ℕ → Option Value → TestReply
  http_error : ℕ → TestReply
  unreachable : String → TestReply

-- `_fingerprint_text`
unfoldable pub fingerprint_text : Crypto → String → String
fingerprint_text c key = if is_empty key then "" else c.short_hash key

unfoldable pub model_count : Option Value → ℕ
unfolding lookup count
model_count (some (obj d)) = elim (lookup "data" d) [
  | some (arr xs) ↦ count xs
  | some _ ↦ 0
  | none ↦ 0
]
model_count _ = 0

unfoldable pub is_success : ℕ → Bool
is_success code = leb 200 code && ltb code 300

unfoldable pub error_detail : ℕ → String
error_detail code =
    if nat_eq code 401
    then "OpenAI rejected the API key."
    else if nat_eq code 403
    then "The API key is authenticated but not permitted for this request."
    else if nat_eq code 429
    then "OpenAI accepted the request but rate limits or quota prevented the test."
    else "OpenAI returned an error while testing the key."

unfoldable pub test_result : Crypto → String × String → Bool → ℕ → ℕ → String → Fields
unfolding fingerprint_text
test_result c (key, source) fine code models detail = dict (
    ("ok", bool fine)
    ∷ ("provider", str "openai")
    ∷ ("source", str source)
    ∷ ("status_code", int (pos code))
    ∷ ("model_count", int (pos models))
    ∷ ("fingerprint", str (fingerprint_text c key))
    ∷ ("detail", str detail)
    ∷ [])

unfoldable pub told : Crypto → String × String → TestReply → Fields
unfolding test_result model_count is_success error_detail
told c key (answered code body) = test_result c key (is_success code) code (model_count body) (
    if is_success code
    then "OpenAI authentication succeeded."
    else "OpenAI returned an unexpected status.")
told c key (http_error code) = test_result c key false code 0 (error_detail code)
told c key (unreachable name) =
    test_result c key false 0 0 (str_append "OpenAI could not be reached: " (str_append name "."))

-- `call` is the request to the provider, with the key in its header.
unfoldable pub test_connection :
    Runtime → Crypto → VaultConfig → (String → TestReply) → Vault → Result Fields
unfolding resolve_api_key told
test_connection rt c cfg call v = elim (resolve_api_key rt c cfg v) [
  | ok (key, source) ↦ ok (told c (key, source) (call key))
  | err e ↦ err e
]
