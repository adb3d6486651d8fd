-- ===== src/Vault/Histories.antt =====
-- A whole life of the vault: commands one after the other, and the key that a provider's call gets.
use simulation_ai.Prelude.{
  String, Bool, true, false, not, Option, none, some, List, [], ◌∷◌, ◌≡◌, refl, arith,
  if◌then◌else◌,
}
use simulation_ai.Prelude.Texts.{is_empty}
use simulation_ai.Prelude.Lists.{All}
use simulation_ai.Result.{Result, ok, err, credential_locked, not_configured}
use simulation_ai.Runtime.{Runtime}
use simulation_ai.Vault.{environment_key, is_there, has_file, resolve_api_key}
use simulation_ai.Vault.Records.{Crypto, VaultConfig, Vault, VaultFile}
use simulation_ai.Vault.Envelope.{validate_api_key}
use simulation_ai.Vault.Spec.{Uses, Command, perform, Safe, obey, IsSound}
use simulation_ai.Vault.Stands.{outcome, Guards, Stands}
use simulation_ai.Vault.Refines.{perform-Agrees}

-- the outcomes of the commands, and what is left
abbrev pub perform_all :
    Runtime → Crypto → VaultConfig → List Command → Vault → List (Result (Unit {0})) × Vault
perform_all rt c cfg [] v = ([], v)
perform_all rt c cfg (x ∷ xs) v =
    let r = perform rt c cfg x v in
    let rest = perform_all rt c cfg xs r.1 in (outcome r.0 ∷ rest.0, rest.1)

abbrev pub obey_all : VaultConfig → List Command → Safe → List (Result (Unit {0})) × Safe
obey_all cfg [] s = ([], s)
obey_all cfg (x ∷ xs) s =
    let r = obey cfg x s in let rest = obey_all cfg xs r.1 in (r.0 ∷ rest.0, rest.1)

abbrev pub is_stored : Option (String × String) → Bool
is_stored none = false
is_stored (some e) = true

-- the key in memory, else that of the environment
abbrev pub provide : VaultConfig → Safe → Result (String × String)
provide cfg s = elim s.open_key [
  | some key ↦ ok (key, "encrypted-vault")
  | none ↦
      if not (is_empty (environment_key cfg))
      then elim (validate_api_key (environment_key cfg)) [
        | ok key ↦ ok (key, "environment")
        | err e ↦ err e
      ]
      else if is_stored s.stored
      then err credential_locked
      else err not_configured
]

abbrev pub empty_vault : Vault
empty_vault = record {
  file = none;
  api_key = none;
  source = "";
  created_at = "";
  randoms = 0;
  ticks = 0;
}

abbrev pub empty_safe : Safe
empty_safe = record { stored = none; open_key = none }

module _ (rt : Runtime) (c : Crypto) (cfg : VaultConfig) (Used : String → Type 0)
    (sound : IsSound c cfg Used) where
  perform_all-Stands :
      (xs : List Command) (v : Vault) (s : Safe)
      → All (Uses Used) xs
      → Stands rt c cfg Used sound v s
      → ((perform_all rt c cfg xs v).0 ≡ (obey_all cfg xs s).0)
        × Stands rt c cfg Used sound (perform_all rt c cfg xs v).1 (obey_all cfg xs s).1
  perform_all-Stands [] v s us st = (refl, st)
  perform_all-Stands (x ∷ xs) v s us st =
      let (e, next) = perform-Agrees rt c cfg Used sound x v s us.0 st in
      let (es, last) = perform_all-Stands xs (perform rt c cfg x v).1 (obey cfg x s).1 us.1 next in
      (cc, last)

  guarded :
      (file : Option VaultFile) (stored : Option (String × String))
      → Guards rt c cfg Used sound file stored
      → is_there file ≡ is_stored stored
  guarded none none g = refl
  guarded none (some e) g = absurd g
  guarded (some f) none g = absurd g
  guarded (some f) (some e) g = refl

  provides :
      (v : Vault) (s : Safe) (key : Option String)
      → v.api_key ≡ key
      → s.open_key ≡ key
      → is_there v.file ≡ is_stored s.stored
      → resolve_api_key rt c cfg v ≡ provide cfg s
  unfolding resolve_api_key has_file
  provides v s none e f same = ground arith
  provides v s (some key) e f same = ground arith

  -- Over a cipher and a key derivation that tell the passwords of the commands apart: whatever the commands
  -- on a new vault are, each raises what the safe's rules say, or raises nothing where they allow it, and a
  -- provider's call then gets the key that the safe holds open, else that of the environment, else the error
  -- for a locked or an empty safe.
  pub perform_all-obey_all :
      (xs : List Command)
      → All (Uses Used) xs
      → ((perform_all rt c cfg xs empty_vault).0 ≡ (obey_all cfg xs empty_safe).0)
        × (resolve_api_key rt c cfg (perform_all rt c cfg xs empty_vault).1
            ≡ provide cfg (obey_all cfg xs empty_safe).1)
  perform_all-obey_all xs us =
      let (e, st) =
        perform_all-Stands xs empty_vault empty_safe us (record { guards = tt; opened = refl }) in
      let v = (perform_all rt c cfg xs empty_vault).1 in
      let s = (obey_all cfg xs empty_safe).1 in
      (e, provides v s s.open_key st.opened refl (guarded v.file s.stored st.guards))
