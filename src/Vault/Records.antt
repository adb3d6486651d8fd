-- ===== src/Vault/Records.antt =====
-- credentials.py: what the vault keeps, what it takes from outside, and what it tells of itself.
use simulation_ai.Prelude.{ℕ, String, Bool, false, Option, [], ◌∷◌}
use simulation_ai.Json.{Value, bool, str, Fields}
use simulation_ai.Model.{dict}

-- What the decryption of an AES-GCM text, read as JSON, turns out to be. `tampered` is InvalidTag,
-- `garbled` a text that is no JSON.
pub data Decrypted : Type 0 where
  tampered : Decrypted
  garbled : Decrypted
  plain : Value → Decrypted

-- The package `cryptography`, base64 and `os.urandom`. A byte string is given by its base64 text.
pub record Crypto : Type 0 where
  -- scrypt of a password, a salt, n, r and p; `none` for a ValueError or a MemoryError
  pub derive : String → String → ℕ → ℕ → ℕ → Option String
  -- AES-GCM under a key and a nonce, of a dict's JSON text
  pub encrypt : String → String → Fields → String
  pub decrypt : String → String → String → Decrypted
  -- whether `b64decode(s, validate=True)` decodes
  pub decodes : String → Bool
  -- the first twelve hexadecimal digits of the SHA-256 of a text
  pub short_hash : String → String
  -- the n-th reading of the system's random bytes
  pub urandom : ℕ → String

-- The arguments of `__init__`, the environment of the process, and whether the vault's file can be
-- overwritten and unlinked.
pub record VaultConfig : Type 0 where
  pub scrypt_n : ℕ
  pub scrypt_r : ℕ
  pub scrypt_p : ℕ
  pub minimum_password_characters : ℕ
  pub env_key : String
  pub can_wipe : Bool
  pub can_unlink : Bool

-- The file of the vault: larger than 1 MiB, or not JSON, or JSON.
pub data VaultFile : Type 0 where
  oversized : VaultFile
  unreadable : VaultFile
  holds : Value → VaultFile

-- `file` is what is at `path`; `randoms` and `ticks` count the readings of random bytes and of the
-- clock.
pub record Vault : Type 0 where
  pub file : Option VaultFile
  pub api_key : Option String
  pub source : String
  pub created_at : String
  pub randoms : ℕ
  pub ticks : ℕ

-- A key that a password opened, with where it came from.
pub record Opened : Type 0 where
  pub api_key : String
  pub source : String
  pub created_at : String

pub record CredentialStatus : Type 0 where
  pub configured : Bool
  pub unlocked : Bool
  pub env_available : Bool
  pub source : String
  pub fingerprint : String
  pub created_at : String

unfoldable pub status_dict : CredentialStatus → Fields
status_dict c = dict (
    ("provider", str "openai")
    ∷ ("format", str "simulation-ai-openai-vault-v1")
    ∷ ("configured", bool c.configured)
    ∷ ("unlocked", bool c.unlocked)
    ∷ ("env_available", bool c.env_available)
    ∷ ("source", str c.source)
    ∷ ("fingerprint", str c.fingerprint)
    ∷ ("created_at", str c.created_at)
    ∷ ("secret_exposed", bool false)
    ∷ [])
