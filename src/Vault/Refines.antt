-- ===== src/Vault/Refines.antt =====
-- The vault keeps its promise: each method does what the safe does, and raises where it refuses.
use simulation_ai.Prelude.{
  suc, String, Bool, true, false, Option, none, some, ◌≡◌, refl, if◌then◌else◌,
}
use simulation_ai.Prelude.Texts.{is_empty}
use simulation_ai.Result.{Result, ok, err}
use simulation_ai.Runtime.{Runtime}
use simulation_ai.Exec.{◌>>=◌, ◌>>◌}
use simulation_ai.Vault.{
  environment_key, is_there, has_file, set_unlocked, locked, prove_possession, write_key, random,
  now, store_key, save, import_environment, unlock, lock, clear, clear_configured, delete_file,
  erase,
}
use simulation_ai.Vault.Records.{Crypto, VaultConfig, Vault, VaultFile, Opened}
use simulation_ai.Vault.Envelope.{validate_api_key, validate_password, derive_key, open_file}
use simulation_ai.Vault.Spec.{
  Uses, Command, save_key, import_key, unlock_key, lock_key, clear_key, perform, Safe, key_for,
  change, replaced, emptied, kept, cleared, obey, IsSound,
}
use simulation_ai.Vault.Opening.{validate_api_key_again}
use simulation_ai.Vault.Stands.{
  key_of, Guards, Stands, Agrees, open_file-key_for, unlock-Agrees, lock-Agrees,
}

module _ (rt : Runtime) (c : Crypto) (cfg : VaultConfig) (Used : String → Type 0)
    (sound : IsSound c cfg Used) where
  write_key-Agrees :
      (clean_key password source : String) (v : Vault)
      → Used password
      → validate_api_key clean_key ≡ ok clean_key
      → is_empty password ≡ false
      → Agrees rt c cfg Used sound
          (write_key rt c cfg clean_key password source v)
          (ok tt, record { stored = some (password, clean_key); open_key = some clean_key })
  unfolding write_key ◌>>=◌ random now derive_key store_key set_unlocked
  write_key-Agrees clean_key password source v u k present =
      let (key, e) = sound.derives password (c.urandom v.randoms) present in
      rw present (
        rw (e, write_key)
          (
            refl,
            record {
              guards = record {
                source = source;
                created_at = rt.utc_now v.ticks;
                salt = v.randoms;
                nonce = suc v.randoms;
                key = key;
                is_file = refl;
                derived = e;
                used = u;
                checked = k;
                present = present;
              };
              opened = refl;
            },
          ))

  module _ (clean_key password source : String) (u : Used password)
      (k : validate_api_key clean_key ≡ ok clean_key) (present : is_empty password ≡ false) where
    replace_case :
        (v : Vault) (s : Safe) (e : String × String) (r : Result Opened)
        → open_file rt c password v.file ≡ r
        → key_of r ≡ key_for password (some e)
        → Stands rt c cfg Used sound v s
        → Agrees rt c cfg Used sound
            ((prove_possession rt c cfg password true
                >> write_key rt c cfg clean_key password source)
              v)
            (change (replaced clean_key password (some e)) s)
    unfolding prove_possession unlock ◌>>=◌
    replace_case v s e (ok o) h m st =
        rw h (rw (← m) (write_key-Agrees clean_key password source (set_unlocked o v) u k present))
    replace_case v s e (err x) h m st = rw h (rw (← m) (refl, st))

    replace-Agrees :
        (v : Vault) (s : Safe) (file : Option VaultFile) (stored : Option (String × String))
        → Guards rt c cfg Used sound file stored
        → key_of (open_file rt c password v.file) ≡ key_for password stored
        → Stands rt c cfg Used sound v s
        → Agrees rt c cfg Used sound
            ((prove_possession rt c cfg password (is_there file)
                >> write_key rt c cfg clean_key password source)
              v)
            (change (replaced clean_key password stored) s)
    unfolding ◌>>=◌ prove_possession
    replace-Agrees v s none none g m st = write_key-Agrees clean_key password source v u k present
    replace-Agrees v s none (some e) g m st = absurd g
    replace-Agrees v s (some x) none g m st = absurd g
    replace-Agrees v s (some x) (some e) g m st =
        replace_case v s e (open_file rt c password v.file) refl m st

  kept_case :
      (api_key password source : String) (v : Vault) (s : Safe) (key : Result String)
      (word : Result (Unit {0}))
      → validate_api_key api_key ≡ key
      → validate_password cfg password ≡ word
      → Used password
      → Stands rt c cfg Used sound v s
      → Agrees rt c cfg Used sound
          (save rt c cfg api_key password source v)
          (change (kept cfg api_key password s.stored) s)
  unfolding save ◌>>=◌ has_file
  kept_case api_key password source v s (err x) word e f u st = rw e (refl, st)
  kept_case api_key password source v s (ok clean_key) (err x) e f u st = rw e (rw f (refl, st))
  kept_case api_key password source v s (ok clean_key) (ok tt) e f u st = rw e (
      rw f (
        replace-Agrees clean_key password source u (validate_api_key_again api_key clean_key e)
          (sound.some_password password f) v s v.file s.stored st.guards
          (open_file-key_for rt c cfg Used sound v.file s.stored password u st.guards) st))

  save-Agrees :
      (api_key password source : String) (v : Vault) (s : Safe)
      → Used password
      → Stands rt c cfg Used sound v s
      → Agrees rt c cfg Used sound
          (save rt c cfg api_key password source v)
          (obey cfg (save_key api_key password source) s)
  save-Agrees api_key password source v s u st =
      kept_case api_key password source v s (validate_api_key api_key)
        (validate_password cfg password) refl refl u st

  import_case :
      (password : String) (v : Vault) (s : Safe) (empty : Bool)
      → is_empty (environment_key cfg) ≡ empty
      → Used password
      → Stands rt c cfg Used sound v s
      → Agrees rt c cfg Used sound
          (import_environment rt c cfg password v)
          (obey cfg (import_key password) s)
  unfolding import_environment
  import_case password v s true e u st = rw e (refl, st)
  import_case password v s false e u st =
      rw e (save-Agrees (environment_key cfg) password "environment-import" v s u st)

  erase_case :
      (password : String) (v : Vault) (s : Safe) (r : Result Opened)
      → open_file rt c password v.file ≡ r
      → Stands rt c cfg Used sound v s
      → Agrees rt c cfg Used sound (erase rt c cfg password v) (change (emptied (key_of r)) s)
  unfolding erase unlock lock delete_file ◌>>=◌ locked
  erase_case password v s (err x) h st = rw h (refl, st)
  erase_case password v s (ok o) h st =
      rw h (rw (sound.removable, delete_file) (refl, record { guards = tt; opened = refl }))

  clear_case :
      (password : String) (v : Vault) (s : Safe) (e : String × String)
      → key_of (open_file rt c password v.file) ≡ key_for password (some e)
      → (empty : Bool) → is_empty password ≡ empty
      → Stands rt c cfg Used sound v s
      → Agrees rt c cfg Used sound
          (clear_configured rt c cfg password v)
          (change (cleared password (some e)) s)
  unfolding clear_configured
  clear_case password v s (p, k) m true q st = rw q (refl, st)
  clear_case password v s (p, k) m false q st =
      rw (← m) (rw q (erase_case password v s (open_file rt c password v.file) refl st))

  no_file : (v : Vault) → v.file ≡ none → Guards rt c cfg Used sound v.file none
  no_file v e = rw e tt

  clear_files :
      (password : String) (v : Vault) (s : Safe) (file : Option VaultFile)
      (stored : Option (String × String))
      → Guards rt c cfg Used sound file stored
      → key_of (open_file rt c password v.file) ≡ key_for password stored
      → v.file ≡ file
      → Stands rt c cfg Used sound v s
      → Agrees rt c cfg Used sound
          ((if is_there file then clear_configured rt c cfg password else lock rt c cfg) v)
          (change (cleared password stored) s)
  unfolding lock ◌>>=◌ locked
  clear_files password v s none none g m e st =
      (refl, record { guards = no_file v e; opened = refl })
  clear_files password v s none (some e) g m q st = absurd g
  clear_files password v s (some x) none g m q st = absurd g
  clear_files password v s (some x) (some e) g m q st = clear_case password v s e m _ refl st

  -- Each method ends as the safe does, with the same error or with none, and in a vault that stands for
  -- the safe that is left.
  pub perform-Agrees :
      (command : Command) (v : Vault) (s : Safe)
      → Uses Used command
      → Stands rt c cfg Used sound v s
      → Agrees rt c cfg Used sound (perform rt c cfg command v) (obey cfg command s)
  unfolding perform clear has_file ◌>>=◌
  perform-Agrees (save_key api_key password source) v s u st =
      save-Agrees api_key password source v s u st
  perform-Agrees (import_key password) v s u st = import_case password v s _ refl u st
  perform-Agrees (unlock_key password) v s u st =
      unlock-Agrees rt c cfg Used sound password v s u st
  perform-Agrees lock_key v s u st = lock-Agrees rt c cfg Used sound v s st
  perform-Agrees (clear_key password) v s u st =
      clear_files password v s v.file s.stored st.guards
        (open_file-key_for rt c cfg Used sound v.file s.stored password u st.guards) refl st
