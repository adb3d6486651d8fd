-- ===== src/Result.antt =====
-- The exceptions that the core raises. A function that may raise returns a `Result`; a method that
-- also changes the store returns its state beside the result, since what was written before a
-- raise stays written.
pub mod Loops
use simulation_ai.Prelude.{String, Bool, true, false, Option, none, some, ◌≡◌, refl}

-- One constructor for each message of a ValueError; the last six are Python's own exceptions.
pub data Error : Type 0 where
  stale_parent wrong_branch no_operations root_replacement : Error
  unauthorized_path identity_immutable objects_wholesale test_without_value : Error
  unsupported_operation unsupported_class relative_path bad_confidence : Error
  no_selected_object bad_coherence negative_entropy bad_namespace : Error
  missing_fields bad_render_status test_failed path_missing scalar_traversed : Error
  append_needs_add parent_not_object replace_missing remove_missing : Error
  unsupported_schema missing_key not_objects empty_event_id unsupported_kind bad_privacy : Error
  missing_state record_collision duplicate_event inconsistent_job not_verified : Error
  bad_decision branch_exists branch_missing branch_empty branch_too_long stale_packet : Error
  packet_branch unsupported_action goal_text spawn_form spawn_exists status_form : Error
  bad_retention bad_policy : Error
  record_required bad_run_id run_collision run_missing review_mismatch bad_review : Error
  unknown_workflow unknown_step : Error
  environment_key_missing not_configured invalid_vault authentication_failed : Error
  provider_mismatch invalid_api_key password_required kdf_failed weak_password : Error
  password_too_long credential_locked delete_failed : Error
  secret_field unknown_prompt prompt_file_missing prompt_file_empty task_required : Error
  policy_not_callable inputs_not_object missing_inputs unknown_inputs input_too_large : Error
  policy_callable no_output_schema schema_missing schema_mismatch output_not_object : Error
  object_required manifest_missing unsupported_manifest duplicate_prompt bad_schema : Error
  invalid_invocation invalid_model invalid_reasoning_effort invalid_token_limit : Error
  invalid_provider_response provider_http_error provider_unreachable provider_failure : Error
  response_not_completed invalid_model_json invalid_model_output model_refusal : Error
  empty_model_output permission_denied : Error
  no_content_length ranges_refused chunk_http_error network_error chunk_incomplete : Error
  chunk_missing checksum_mismatch : Error
  value_error index_error key_error type_error attribute_error file_not_found : Error

pub data Result {ℓ} (A : Type ℓ) : Type ℓ where
  ok : A → Result A
  err : Error → Result A

-- `if not b: raise e`
abbrev pub guard : Bool → Error → Result (Unit {0})
guard false e = err e
guard true e = ok tt

infixl 5 ◌>>=◌
abbrev pub ◌>>=◌ {ℓ κ} : {A : Type ℓ} {B : Type κ} → Result A → (A → Result B) → Result B
err e >>= f = err e
ok a >>= f = f a

abbrev pub or_raise {ℓ} : {A : Type ℓ} → Option A → Error → Result A
or_raise none e = err e
or_raise (some a) e = ok a

infixl 5 ◌>>◌
abbrev pub ◌>>◌ {ℓ} : {B : Type ℓ} → Result (Unit {0}) → Result B → Result B
first >> rest = first >>= λ _. rest

-- Inversion of a successful bind.
pub >>=-eq-ok {ℓ κ} :
    {A : Type ℓ} {B : Type κ} (first : Result A) (next : A → Result B) {b : B}
    → (first >>= next) ≡ ok b
    → (a : A) × (first ≡ ok a) × (next a ≡ ok b)
>>=-eq-ok (err e) next h = cc
>>=-eq-ok (ok a) next h = (a, refl, h)

pub guard-eq-ok : (b : Bool) (e : Error) {u : Unit {0}} → guard b e ≡ ok u → b ≡ true
guard-eq-ok true e h = refl
guard-eq-ok false e h = cc

pub or_raise-eq-ok {ℓ} :
    {A : Type ℓ} (o : Option A) (e : Error) {a : A} → or_raise o e ≡ ok a → o ≡ some a
or_raise-eq-ok none e h = cc
or_raise-eq-ok (some a) e h = cc

-- Inversion of a guard that let the rest run.
pub guard-then {ℓ} :
    {B : Type ℓ} (b : Bool) (e : Error) (k : Result B) {r : B}
    → (guard b e >> k) ≡ ok r
    → (b ≡ true) × (k ≡ ok r)
guard-then true e k h = (refl, h)
guard-then false e k h = cc

pub ok-injective {ℓ} : {A : Type ℓ} (a b : A) → ok a ≡ ok b → a ≡ b
ok-injective a b h = cc
