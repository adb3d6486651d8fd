-- ===== src/Vault.antt =====
-- `OpenAICredentialVault` of credentials.py: the methods. Bytes that are zeroed after use are not
-- part of the model, and a write of the file succeeds.
pub mod Records
pub mod Envelope
pub mod Spec
pub mod Opening
pub mod Stands
pub mod Refines
pub mod Histories
pub mod Connection
use simulation_ai.Prelude.{
  ℕ, suc, String, Bool, true, false, not, ◌&&◌, ◌||◌, Option, none, some, [], ◌∷◌, if◌then◌else◌,
}
use simulation_ai.Prelude.Texts.{is_empty, is_space, strip}
use simulation_ai.Json.{str, obj, Fields}
use simulation_ai.Json.Dict.{get_or}
use simulation_ai.Result.{
  Result, ok, err, guard, environment_key_missing, not_configured, password_required,
  credential_locked, delete_failed,
}
use simulation_ai.Runtime.{Runtime, str_of}
use simulation_ai.Exec.{Exec, pure, lift, gets, reads, modify, ◌>>=◌, ◌>>◌}
use simulation_ai.Vault.Records.{
  Crypto, VaultConfig, Vault, VaultFile, unreadable, holds, Opened, CredentialStatus,
}
use simulation_ai.Vault.Envelope.{
  validate_api_key, validate_password, derive_key, clear_record, envelope, read_envelope, open_file,
}

-- `os.environ.get("OPENAI_API_KEY", "").strip()`
unfoldable pub environment_key : VaultConfig → String
unfolding strip is_space
environment_key cfg = strip is_space cfg.env_key

abbrev pub is_there : Option VaultFile → Bool
is_there none = false
is_there (some f) = true

unfoldable pub has_file : Vault → Bool
has_file v = is_there v.file

unfoldable pub is_unlocked : Vault → Bool
is_unlocked v = elim v.api_key [ none ↦ false | some k ↦ true ]

-- `_read_header_metadata` and the empty header of no file: the source and the time
unfoldable pub header : Runtime → Option VaultFile → String × String
unfolding read_envelope get_or str_of
header rt none = ("", "")
header rt (some f) = elim (read_envelope (some f)) [
  | ok d ↦ (
    str_of rt (get_or "source" (str "encrypted-vault") d),
    str_of rt (get_or "createdAt" (str "") d),
  )
  | err e ↦ ("invalid-vault", "")
]

-- `_fingerprint`
unfoldable pub fingerprint : Crypto → Option String → String
fingerprint c none = ""
fingerprint c (some key) = if is_empty key then "" else c.short_hash key

unfoldable pub or_environment : Bool → String → String
or_environment env source =
    if is_empty source then (if env then "environment" else "none") else source

unfoldable pub status : Runtime → Crypto → VaultConfig → Vault → CredentialStatus
unfolding environment_key has_file is_unlocked header fingerprint or_environment
status rt c cfg v =
    let env = not (is_empty (environment_key cfg)) in
    let found = header rt v.file in
    record {
      configured = has_file v;
      unlocked = is_unlocked v;
      env_available = env;
      source = or_environment env (if is_unlocked v then v.source else found.0);
      fingerprint = fingerprint c v.api_key;
      created_at = if is_unlocked v then v.created_at else found.1;
    }

-- `_set_unlocked`
unfoldable pub set_unlocked : Opened → Vault → Vault
set_unlocked o v = record v {
  api_key = some o.api_key;
  source = o.source;
  created_at = o.created_at;
}

unfoldable pub locked : Vault → Vault
locked v = record v { api_key = none; source = ""; created_at = "" }

-- `os.urandom(n)`
unfoldable pub random : Crypto → Exec Vault String
random c v = (ok (c.urandom v.randoms), record v { randoms = suc v.randoms })

unfoldable pub now : Runtime → Exec Vault String
now rt v = (ok (rt.utc_now v.ticks), record v { ticks = suc v.ticks })

module _ (rt : Runtime) (c : Crypto) (cfg : VaultConfig) where
  unfoldable pub unlock : String → Exec Vault CredentialStatus
  unfolding open_file set_unlocked status
  unlock password = do
    o ← reads (λ (v : Vault). open_file rt c password v.file)
    modify (set_unlocked o)
    gets (status rt c cfg)

  -- an existing vault has to be opened with the password before it is replaced
  unfoldable pub prove_possession : String → Bool → Exec Vault (Unit {0})
  unfolding unlock
  prove_possession password false = pure tt
  prove_possession password true = unlock password >>= λ s. pure tt

  -- `_atomic_write` and `_set_unlocked`
  unfoldable pub store_key : Fields → Opened → Vault → Vault
  unfolding set_unlocked
  store_key d o v = set_unlocked o (record v { file = some (holds (obj d)) })

  -- a new envelope, and the key that it keeps
  unfoldable pub write_key : String → String → String → Exec Vault CredentialStatus
  unfolding random now derive_key clear_record envelope store_key status
  write_key clean_key password source = do
    salt ← random c
    nonce ← random c
    wrapping_key ← lift (derive_key c password salt cfg.scrypt_n cfg.scrypt_r cfg.scrypt_p)
    created_at ← now rt
    modify (
        store_key
          (envelope cfg source created_at salt nonce
            (c.encrypt wrapping_key nonce (clear_record clean_key source created_at)))
          (record { api_key = clean_key; source = source; created_at = created_at }))
    gets (status rt c cfg)

  unfoldable pub save : String → String → String → Exec Vault CredentialStatus
  unfolding validate_api_key validate_password prove_possession write_key has_file
  save api_key password source = do
    clean_key ← lift (validate_api_key api_key)
    lift (validate_password cfg password)
    configured ← gets has_file
    prove_possession password configured
    write_key clean_key password source

  unfoldable pub import_environment : String → Exec Vault CredentialStatus
  unfolding save environment_key
  import_environment password =
      if is_empty (environment_key cfg)
      then lift (err environment_key_missing)
      else save (environment_key cfg) password "environment-import"

  unfoldable pub lock : Exec Vault CredentialStatus
  unfolding locked status
  lock = modify locked >> gets (status rt c cfg)

  -- `_best_effort_delete`: a file that is overwritten and then not unlinked holds random bytes
  unfoldable pub delete_file : Exec Vault (Unit {0})
  delete_file v =
      if cfg.can_unlink
      then (ok tt, record v { file = none })
      else if cfg.can_wipe
      then (err delete_failed, record v { file = some unreadable })
      else (err delete_failed, v)

  -- the deletion of the file, for which the password is asked again
  unfoldable pub erase : String → Exec Vault CredentialStatus
  unfolding unlock lock delete_file status
  erase password = do s ← unlock password; t ← lock; delete_file; gets (status rt c cfg)

  unfoldable pub clear_configured : String → Exec Vault CredentialStatus
  clear_configured password =
      if is_empty password then lift (err password_required) else erase password

  unfoldable pub clear : String → Exec Vault CredentialStatus
  unfolding has_file clear_configured lock
  clear password = do
    configured ← gets has_file
    if configured then clear_configured password else lock

  -- the key for a provider's call, and where it comes from
  unfoldable pub resolve_api_key : Vault → Result (String × String)
  unfolding environment_key has_file validate_api_key
  resolve_api_key v = elim v.api_key [
    | some key ↦ ok (key, "encrypted-vault")
    | none ↦
        if not (is_empty (environment_key cfg))
        then elim (validate_api_key (environment_key cfg)) [
          | ok key ↦ ok (key, "environment")
          | err e ↦ err e
        ]
        else if has_file v
        then err credential_locked
        else err not_configured
  ]
