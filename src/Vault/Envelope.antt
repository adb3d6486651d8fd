-- ===== src/Vault/Envelope.antt =====
-- The checks of credentials.py and the envelope that the vault's file holds. Everything here reads
-- and raises, and changes nothing.

use Prim.Native.Nat.{bit_and}
use simulation_ai.Prelude.{
  ℕ, ◌-◌, String, Bool, false, not, ◌&&◌, ◌||◌, Option, none, some, [], ◌∷◌, ltb, leb, nat_eq,
  if◌then◌else◌,
}
use simulation_ai.Prelude.Int.{ℤ, pos, negsuc}
use simulation_ai.Prelude.Texts.{str_len, is_empty, is_space, strip}
use simulation_ai.Json.{Value, int, str, obj, Fields}
use simulation_ai.Json.Dict.{lookup, get_or}
use simulation_ai.Json.Equal.{py_eq}
use simulation_ai.Json.{null}
use simulation_ai.Result.{
  Result, ok, err, guard, or_raise, ◌>>=◌, ◌>>◌, not_configured, invalid_vault,
  authentication_failed, provider_mismatch, invalid_api_key, password_required, kdf_failed,
  weak_password, password_too_long, attribute_error,
}
use simulation_ai.Runtime.{Runtime, str_of}
use simulation_ai.Model.{dict}
use simulation_ai.Adapters.{int_of}
use simulation_ai.Vault.Records.{
  Crypto, VaultConfig, VaultFile, oversized, unreadable, holds, Decrypted, tampered, garbled, plain,
  Opened,
}

-- `any(char.isspace() for char in s)`
unfoldable pub has_space : String → Bool
unfolding is_space
has_space String.[] = false
has_space (String.◌∷◌ c s) = is_space c || has_space s

unfoldable pub validate_api_key : String → Result String
unfolding has_space strip is_space str_len
validate_api_key api_key =
    let clean = strip is_space api_key in
    if ltb (str_len clean) 20 || ltb 512 (str_len clean) || has_space clean
    then err invalid_api_key
    else ok clean

unfoldable pub validate_password : VaultConfig → String → Result (Unit {0})
unfolding str_len
validate_password cfg password = do
  guard (not (ltb (str_len password) cfg.minimum_password_characters)) weak_password
  guard (not (ltb 1024 (str_len password))) password_too_long

unfoldable pub derive_key : Crypto → String → String → ℕ → ℕ → ℕ → Result String
derive_key c password salt n r p =
    if is_empty password
    then err password_required
    else or_raise (c.derive password salt n r p) kdf_failed

-- the record that is encrypted
unfoldable pub clear_record : String → String → String → Fields
clear_record api_key source created_at = dict (
    ("provider", str "openai")
    ∷ ("api_key", str api_key)
    ∷ ("source", str source)
    ∷ ("created_at", str created_at)
    ∷ [])

unfoldable pub kdf_dict : VaultConfig → String → Fields
kdf_dict cfg salt = dict (
    ("algorithm", str "scrypt")
    ∷ ("salt", str salt)
    ∷ ("n", int (pos cfg.scrypt_n))
    ∷ ("r", int (pos cfg.scrypt_r))
    ∷ ("p", int (pos cfg.scrypt_p))
    ∷ ("length", int (pos 32))
    ∷ [])

unfoldable pub cipher_dict : String → String → Fields
cipher_dict nonce cipher_text = dict (
    ("algorithm", str "AES-256-GCM")
    ∷ ("nonce", str nonce)
    ∷ ("ciphertext", str cipher_text)
    ∷ ("aad", str "simulation-ai/openai-credential/v1")
    ∷ [])

unfoldable pub envelope : VaultConfig → String → String → String → String → String → Fields
unfolding kdf_dict cipher_dict
envelope cfg source created_at salt nonce cipher_text = dict (
    ("format", str "simulation-ai-openai-vault-v1")
    ∷ ("version", int (pos 1))
    ∷ ("provider", str "openai")
    ∷ ("source", str source)
    ∷ ("createdAt", str created_at)
    ∷ ("kdf", obj (kdf_dict cfg salt))
    ∷ ("cipher", obj (cipher_dict nonce cipher_text))
    ∷ [])

unfoldable pub read_envelope : Option VaultFile → Result Fields
read_envelope none = err not_configured
read_envelope (some oversized) = err invalid_vault
read_envelope (some unreadable) = err invalid_vault
read_envelope (some (holds (obj d))) = ok d
read_envelope (some (holds _)) = err invalid_vault

-- `isinstance(v, dict)`, or the vault is invalid
unfoldable pub part : Value → Result Fields
part (obj d) = ok d
part _ = err invalid_vault

-- the bounds on scrypt's n, r and p
unfoldable pub in_policy : ℤ → ℤ → ℤ → Bool
in_policy (pos n) (pos r) (pos p) =
    not (ltb n 16384)
    && not (ltb 1048576 n)
    && nat_eq (bit_and n (n - 1)) 0
    && leb 1 r
    && leb r 32
    && leb 1 p
    && leb p 16
in_policy _ _ _ = false

-- n, r and p of a kdf, read as integers
unfoldable pub kdf_number : String → Fields → Result ℤ
unfolding int_of get_or
kdf_number name kdf = int_of (get_or name (int (pos 0)) kdf)

unfoldable pub check_kdf : Fields → Fields → Result (Unit {0})
unfolding get_or py_eq in_policy kdf_number
check_kdf kdf cipher = do
  guard (py_eq (get_or "algorithm" null kdf) (str "scrypt")) invalid_vault
  guard (py_eq (get_or "algorithm" null cipher) (str "AES-256-GCM")) invalid_vault
  n ← kdf_number "n" kdf
  r ← kdf_number "r" kdf
  p ← kdf_number "p" kdf
  guard (in_policy n r p) invalid_vault

unfoldable pub validate_envelope : Fields → Result (Fields × Fields)
unfolding get_or py_eq part check_kdf
validate_envelope d = do
  guard (py_eq (get_or "format" null d) (str "simulation-ai-openai-vault-v1")) invalid_vault
  guard (py_eq (get_or "provider" null d) (str "openai")) invalid_vault
  kdf ← part (get_or "kdf" null d)
  cipher ← part (get_or "cipher" null d)
  check_kdf kdf cipher
  ok (kdf, cipher)

-- `b64decode(str(d[name]), validate=True)`
unfoldable pub decoded : Runtime → Crypto → String → Fields → Result String
unfolding lookup str_of
decoded rt c name d = do
  v ← or_raise (lookup name d) invalid_vault
  guard (c.decodes (str_of rt v)) invalid_vault
  ok (str_of rt v)

nat_of : ℤ → ℕ
nat_of (pos n) = n
nat_of (negsuc n) = 0

-- the decrypted record, whose provider and key are checked
unfoldable pub open_record : Runtime → Fields → Value → Result Opened
unfolding get_or py_eq validate_api_key str_of
open_record rt d (obj payload) = do
  guard (py_eq (get_or "provider" null payload) (str "openai")) provider_mismatch
  api_key ← validate_api_key (str_of rt (get_or "api_key" (str "") payload))
  ok (record {
    api_key = api_key;
    source = str_of rt (get_or "source" (get_or "source" (str "encrypted-vault") d) payload);
    created_at = str_of rt (get_or "created_at" (get_or "createdAt" (str "") d) payload);
  })
open_record rt d _ = err attribute_error

unfoldable pub on_decrypted : Runtime → Fields → Decrypted → Result Opened
unfolding open_record
on_decrypted rt d tampered = err authentication_failed
on_decrypted rt d garbled = err invalid_vault
on_decrypted rt d (plain v) = open_record rt d v

-- `unlock` up to the change of the vault
unfoldable pub open_file : Runtime → Crypto → String → Option VaultFile → Result Opened
unfolding read_envelope validate_envelope decoded kdf_number nat_of derive_key on_decrypted
open_file rt c password file = do
  d ← read_envelope file
  parts ← validate_envelope d
  salt ← decoded rt c "salt" parts.0
  nonce ← decoded rt c "nonce" parts.1
  cipher_text ← decoded rt c "ciphertext" parts.1
  n ← kdf_number "n" parts.0
  r ← kdf_number "r" parts.0
  p ← kdf_number "p" parts.0
  key ← derive_key c password salt (nat_of n) (nat_of r) (nat_of p)
  on_decrypted rt d (c.decrypt key nonce cipher_text)
