-- ===== src/Vault/Stands.antt =====
-- When a vault stands for a safe, and the opening and the locking of both.
use simulation_ai.Prelude.{
  String, Bool, true, false, Option, none, some, ◌≡◌, ◌≢◌, refl, arith, ◌==◌, eq_iff,
}
use simulation_ai.Prelude.Texts.{is_empty}
use simulation_ai.Result.{Result, ok, err}
use simulation_ai.Runtime.{Runtime}
use simulation_ai.Exec.{◌>>=◌}
use simulation_ai.Vault.{set_unlocked, locked, unlock, lock}
use simulation_ai.Vault.Records.{Crypto, VaultConfig, Vault, VaultFile, Opened, CredentialStatus}
use simulation_ai.Vault.Envelope.{open_file, read_envelope}
use simulation_ai.Vault.Spec.{unlock_key, lock_key, Safe, key_for, obey, IsSound}
use simulation_ai.Vault.Opening.{Seals, opens, refuses, wants_password}

-- the key that was opened, and whether a method raised
abbrev pub key_of : Result Opened → Result String
key_of (ok o) = ok o.api_key
key_of (err e) = err e

abbrev pub outcome : Result CredentialStatus → Result (Unit {0})
outcome (ok s) = ok tt
outcome (err e) = err e

module _ (rt : Runtime) (c : Crypto) (cfg : VaultConfig) (Used : String → Type 0)
    (sound : IsSound c cfg Used) where
  abbrev pub Guards : Option VaultFile → Option (String × String) → Type 0
  Guards none none = Unit
  Guards (some f) (some (p, k)) = Seals rt c cfg Used sound f p k
  Guards _ _ = ⊥

  -- A vault that stands for a safe.
  pub record Stands (v : Vault) (s : Safe) : Type 0 where
    pub guards : Guards v.file s.stored
    pub opened : v.api_key ≡ s.open_key

  abbrev pub Agrees : Result CredentialStatus × Vault → Result (Unit {0}) × Safe → Type 0
  Agrees (r, v) (q, s) = (outcome r ≡ q) × Stands v s

  password_cases :
      (f : VaultFile) (p k password : String) (s : Seals rt c cfg Used sound f p k)
      (empty same : Bool)
      → Used password
      → is_empty password ≡ empty
      → (p == password) ≡ same
      → key_of (open_file rt c password (some f)) ≡ key_for password (some (p, k))
  password_cases f p k password s true same u e d =
      rw (wants_password rt c cfg Used sound f p k password s e) (rw e refl)
  password_cases f p k password s false true u e d =
      let q : p ≡ password = (eq_iff p password).0 d in
      rw (← q)
        (rw (opens rt c cfg Used sound f p k s) (rw (s.present) (rw ((eq_iff p p).1 refl) refl)))
  password_cases f p k password s false false u e d =
      let other : p ≢ password = λ q. ground (arith, eq_iff p password) in
      rw (refuses rt c cfg Used sound f p k password s e u other) (rw e (rw d refl))

  pub open_file-key_for :
      (file : Option VaultFile) (stored : Option (String × String)) (password : String)
      → Used password
      → Guards file stored
      → key_of (open_file rt c password file) ≡ key_for password stored
  open_file-key_for none none password u g = unfold open_file read_envelope in refl
  open_file-key_for none (some e) password u g = absurd g
  open_file-key_for (some f) none password u g = absurd g
  open_file-key_for (some f) (some (p, k)) password u g =
      password_cases f p k password g _ _ u refl refl

  unlock_case :
      (password : String) (v : Vault) (s : Safe) (r : Result Opened)
      → open_file rt c password v.file ≡ r
      → key_of r ≡ key_for password s.stored
      → Stands v s
      → Agrees (unlock rt c cfg password v) (obey cfg (unlock_key password) s)
  unfolding unlock ◌>>=◌ set_unlocked
  unlock_case password v s (ok o) e q st =
      rw e (rw (← q) (refl, record { guards = st.guards; opened = refl }))
  unlock_case password v s (err x) e q st = rw e (rw (← q) (refl, st))

  pub unlock-Agrees :
      (password : String) (v : Vault) (s : Safe)
      → Used password
      → Stands v s
      → Agrees (unlock rt c cfg password v) (obey cfg (unlock_key password) s)
  unlock-Agrees password v s u st =
      unlock_case password v s (open_file rt c password v.file) refl
        (open_file-key_for v.file s.stored password u st.guards) st

  pub lock-Agrees :
      (v : Vault) (s : Safe) → Stands v s → Agrees (lock rt c cfg v) (obey cfg lock_key s)
  unfolding lock ◌>>=◌ locked
  lock-Agrees v s st = (refl, record { guards = st.guards; opened = refl })
