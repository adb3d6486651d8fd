-- ===== src/Vault/Opening.antt =====
-- What a password opens: the file that `save` writes, read by `open_file`.

use simulation_ai.Prelude.{ℕ, String, Bool, true, false, some, ◌≡◌, ◌≢◌, refl, arith, if◌then◌else◌}
use simulation_ai.Prelude.Texts.{is_empty, is_space, lstrip, rstrip, strip}
use simulation_ai.Json.{obj, Fields}
use simulation_ai.Json.Dict.{lookup, get_or}
use simulation_ai.Json.Equal.{py_eq}
use simulation_ai.Result.{ok, err, ◌>>=◌, authentication_failed, password_required, invalid_api_key}
use simulation_ai.Runtime.{Runtime, str_of}
use simulation_ai.Adapters.{int_of}
use simulation_ai.Vault.Records.{Crypto, VaultConfig, VaultFile, holds}
use simulation_ai.Vault.Envelope.{
  has_space, validate_api_key, derive_key, clear_record, envelope, open_file, on_decrypted,
  open_record,
}
use simulation_ai.Vault.Spec.{IsSound}

lstrip-no_space : (s : String) → has_space s ≡ false → lstrip is_space s ≡ s
unfolding has_space lstrip
lstrip-no_space String.[] h = refl
lstrip-no_space (String.◌∷◌ c s) h = ground arith

rstrip-no_space : (s : String) → has_space s ≡ false → rstrip is_space s ≡ s
unfolding has_space rstrip
rstrip-no_space String.[] h = refl
rstrip-no_space (String.◌∷◌ c s) h = ground (arith, rstrip-no_space s)

strip-no_space : (s : String) → has_space s ≡ false → strip is_space s ≡ s
unfolding strip
strip-no_space s h = rw (lstrip-no_space s h) (rstrip-no_space s h)

-- A key that was accepted is accepted again, as it is.
checked_again :
    (b : Bool) (clean k : String)
    → (if b then err invalid_api_key else ok clean) ≡ ok k
    → (b ≡ false) × (clean ≡ k)
checked_again true clean k h = cc
checked_again false clean k h = (refl, cc)

pub validate_api_key_again :
    (k clean : String) → validate_api_key k ≡ ok clean → validate_api_key clean ≡ ok clean
unfolding validate_api_key
validate_api_key_again k clean h =
    let (fine, same) = checked_again _ _ _ h in
    let e : strip is_space clean ≡ clean =
      rw (← same) (strip-no_space (strip is_space k) (ground arith)) in
    rw e (rw (← same) (rw fine refl))

module _ (rt : Runtime) (c : Crypto) (cfg : VaultConfig) (Used : String → Type 0)
    (sound : IsSound c cfg Used) where
  -- The file that `save` writes passes every check up to the decryption.
  open_file-envelope :
      (password source created_at salt nonce cipher_text : String)
      → c.decodes salt ≡ true
      → c.decodes nonce ≡ true
      → c.decodes cipher_text ≡ true
      → open_file rt c password
          (some (holds (obj (envelope cfg source created_at salt nonce cipher_text))))
        ≡ (derive_key c password salt cfg.scrypt_n cfg.scrypt_r cfg.scrypt_p >>= λ key.
            on_decrypted rt
              (envelope cfg source created_at salt nonce cipher_text)
              (c.decrypt key nonce cipher_text))
  unfolding open_file envelope int_of lookup get_or py_eq str_of
  open_file-envelope password source created_at salt nonce cipher_text s n t =
      rw (sound.policy, open_file) (rw (s, open_file) (rw (n, open_file) (rw (t, open_file) refl)))

  clear_record_opens :
      (d : Fields) (k source created_at : String)
      → validate_api_key k ≡ ok k
      → open_record rt d (obj (clear_record k source created_at))
        ≡ ok (record { api_key = k; source = source; created_at = created_at })
  unfolding open_record clear_record lookup get_or py_eq str_of
  clear_record_opens d k source created_at v = rw (v, open_record) refl

  -- A file that keeps the key `k` under the password `p`.
  pub record Seals (f : VaultFile) (p k : String) : Type 0 where
    pub source : String
    pub created_at : String
    pub salt : ℕ
    pub nonce : ℕ
    pub key : String
    pub is_file :
        f
        ≡ holds (
            obj (
              envelope cfg source created_at
                (c.urandom salt)
                (c.urandom nonce)
                (c.encrypt key (c.urandom nonce) (clear_record k source created_at))))
    pub derived : c.derive p (c.urandom salt) cfg.scrypt_n cfg.scrypt_r cfg.scrypt_p ≡ some key
    pub used : Used p
    pub checked : validate_api_key k ≡ ok k
    pub present : is_empty p ≡ false

  Seals-open_file :
      (f : VaultFile) (p k password : String) (s : Seals f p k)
      → open_file rt c password (some f) ≡ (
          derive_key c password (c.urandom s.salt) cfg.scrypt_n cfg.scrypt_r cfg.scrypt_p >>= λ key.
          on_decrypted rt
            (envelope cfg s.source s.created_at
              (c.urandom s.salt)
              (c.urandom s.nonce)
              (c.encrypt s.key (c.urandom s.nonce) (clear_record k s.source s.created_at)))
            (c.decrypt key
              (c.urandom s.nonce)
              (c.encrypt s.key (c.urandom s.nonce) (clear_record k s.source s.created_at))))
  Seals-open_file f p k password s = rw s.is_file (
      open_file-envelope password s.source s.created_at (c.urandom s.salt) (c.urandom s.nonce) _
        (sound.random_decodes s.salt) (sound.random_decodes s.nonce)
        (sound.sealed_decodes s.key (c.urandom s.nonce) k s.source s.created_at))

  -- The password opens the key that was kept.
  pub opens :
      (f : VaultFile) (p k : String) (s : Seals f p k)
      → open_file rt c p (some f)
        ≡ ok (record { api_key = k; source = s.source; created_at = s.created_at })
  unfolding derive_key on_decrypted
  opens f p k s = rw (Seals-open_file f p k p s) (
      rw (s.present, derive_key)
        (rw (s.derived, derive_key)
          (rw (sound.correct s.key (c.urandom s.nonce) k s.source s.created_at) (
            clear_record_opens
              (envelope cfg s.source s.created_at (c.urandom s.salt) (c.urandom s.nonce)
                (c.encrypt s.key (c.urandom s.nonce) (clear_record k s.source s.created_at)))
              k s.source s.created_at s.checked))))

  -- Another password opens nothing.
  pub refuses :
      (f : VaultFile) (p k password : String) (s : Seals f p k)
      → is_empty password ≡ false
      → Used password
      → p ≢ password
      → open_file rt c password (some f) ≡ err authentication_failed
  unfolding derive_key on_decrypted
  refuses f p k password s present used other =
      let (key, e) = sound.derives password (c.urandom s.salt) present in
      rw (Seals-open_file f p k password s) (
        rw (present, derive_key)
          (rw (e, derive_key)
            (rw
              (sound.tells_apart p password s.salt s.nonce s.key key k s.source s.created_at s.used
                used other s.derived e)
              refl)))

  pub wants_password :
      (f : VaultFile) (p k password : String) (s : Seals f p k)
      → is_empty password ≡ true
      → open_file rt c password (some f) ≡ err password_required
  unfolding derive_key
  wants_password f p k password s empty =
      rw (Seals-open_file f p k password s) (rw (empty, derive_key) refl)
