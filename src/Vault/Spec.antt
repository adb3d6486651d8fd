-- ===== src/Vault/Spec.antt =====
-- What the vault promises: it keeps one key under one password, and the key is open or it is not.
use simulation_ai.Prelude.{String, true, false, Option, none, some, ◌==◌, if◌then◌else◌, ◌≡◌}
use simulation_ai.Prelude.Texts.{is_empty}
use simulation_ai.Json.{obj}
use simulation_ai.Prelude.{ℕ, ◌≢◌}
use simulation_ai.Prelude.Int.{pos}
use simulation_ai.Result.{
  Result, ok, err, ◌>>=◌, ◌>>◌, environment_key_missing, not_configured, password_required,
  authentication_failed,
}
use simulation_ai.Exec.{Exec}
use simulation_ai.Runtime.{Runtime}
use simulation_ai.Vault.{environment_key, save, import_environment, unlock, lock, clear}
use simulation_ai.Vault.Records.{Crypto, VaultConfig, Vault, CredentialStatus, tampered, plain}
use simulation_ai.Vault.Envelope.{validate_api_key, validate_password, clear_record, in_policy}

pub data Command : Type 0 where
  save_key : String → String → String → Command
  import_key : String → Command
  unlock_key : String → Command
  lock_key : Command
  clear_key : String → Command

-- the method that a command calls
unfoldable pub perform : Runtime → Crypto → VaultConfig → Command → Exec Vault CredentialStatus
unfolding save import_environment unlock lock clear
perform rt c cfg (save_key api_key password source) = save rt c cfg api_key password source
perform rt c cfg (import_key password) = import_environment rt c cfg password
perform rt c cfg (unlock_key password) = unlock rt c cfg password
perform rt c cfg lock_key = lock rt c cfg
perform rt c cfg (clear_key password) = clear rt c cfg password

-- `stored` is a password and the key that it guards, `open` the key that is in memory.
pub record Safe : Type 0 where
  pub stored : Option (String × String)
  pub open_key : Option String

-- the key that a password opens
abbrev pub key_for : String → Option (String × String) → Result String
key_for password none = err not_configured
key_for password (some (p, k)) =
    if is_empty password
    then err password_required
    else if p == password
    then ok k
    else err authentication_failed

-- a replacement of what is stored needs its password
abbrev pub may_replace : String → Option (String × String) → Result (Unit {0})
may_replace password none = ok tt
may_replace password (some e) = key_for password (some e) >>= λ k. ok tt

-- a change, if nothing is raised
abbrev pub change : Result Safe → Safe → Result (Unit {0}) × Safe
change (ok t) s = (ok tt, t)
change (err e) s = (err e, s)

abbrev pub replaced : String → String → Option (String × String) → Result Safe
replaced clean_key password stored = do
  may_replace password stored
  ok (record { stored = some (password, clean_key); open_key = some clean_key })

abbrev pub kept : VaultConfig → String → String → Option (String × String) → Result Safe
kept cfg api_key password stored = do
  clean_key ← validate_api_key api_key
  validate_password cfg password
  replaced clean_key password stored

abbrev pub emptied : Result String → Result Safe
emptied (ok k) = ok (record { stored = none; open_key = none })
emptied (err e) = err e

abbrev pub cleared : String → Option (String × String) → Result Safe
cleared password none = ok (record { stored = none; open_key = none })
cleared password (some e) = emptied (key_for password (some e))

abbrev pub obey : VaultConfig → Command → Safe → Result (Unit {0}) × Safe
obey cfg (save_key api_key password source) s = change (kept cfg api_key password s.stored) s
obey cfg (import_key password) s =
    change
      (if is_empty (environment_key cfg)
        then err environment_key_missing
        else kept cfg (environment_key cfg) password s.stored)
      s
obey cfg (unlock_key password) s =
    change (key_for password s.stored >>= λ k. ok (record { stored = s.stored; open_key = some k }))
      s
obey cfg lock_key s = (ok tt, record { stored = s.stored; open_key = none })
obey cfg (clear_key password) s = change (cleared password s.stored) s

-- The password that a command is called with is one of these.
abbrev pub Uses : (String → Type 0) → Command → Type 0
Uses Used (save_key api_key password source) = Used password
Uses Used (import_key password) = Used password
Uses Used (unlock_key password) = Used password
Uses Used lock_key = Unit
Uses Used (clear_key password) = Used password

-- What is asked of the cryptography, for the passwords that are used and the random texts that are drawn. A
-- text that was encrypted under the key of a password opens with that key, and is tampered for the key that
-- another of the passwords gives with the same salt. The key derivation may give one key for two passwords
-- that are not both used. The numbers of scrypt are within the vault's own bounds.
pub record IsSound (c : Crypto) (cfg : VaultConfig) (Used : String → Type 0) : Type 0 where
  pub derives :
      (password salt : String)
      → is_empty password ≡ false
      → (key : String) × (c.derive password salt cfg.scrypt_n cfg.scrypt_r cfg.scrypt_p ≡ some key)
  pub tells_apart :
      (p q : String) (i j : ℕ) (key other k s t : String)
      → Used p
      → Used q
      → p ≢ q
      → c.derive p (c.urandom i) cfg.scrypt_n cfg.scrypt_r cfg.scrypt_p ≡ some key
      → c.derive q (c.urandom i) cfg.scrypt_n cfg.scrypt_r cfg.scrypt_p ≡ some other
      → c.decrypt other (c.urandom j) (c.encrypt key (c.urandom j) (clear_record k s t)) ≡ tampered
  pub correct :
      (key nonce k s t : String)
      → c.decrypt key nonce (c.encrypt key nonce (clear_record k s t))
        ≡ plain (obj (clear_record k s t))
  pub random_decodes : (n : ℕ) → c.decodes (c.urandom n) ≡ true
  pub sealed_decodes :
      (key nonce k s t : String) → c.decodes (c.encrypt key nonce (clear_record k s t)) ≡ true
  pub policy : in_policy (pos cfg.scrypt_n) (pos cfg.scrypt_r) (pos cfg.scrypt_p) ≡ true
  pub removable : cfg.can_unlink ≡ true
  pub some_password :
      (password : String) → validate_password cfg password ≡ ok tt → is_empty password ≡ false
