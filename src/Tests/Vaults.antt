-- ===== src/Tests/Vaults.antt =====
-- A cipher that keeps its parts apart, and a life of a vault over it.
use Prim.Native.Char.{code}
use simulation_ai.Prelude.{ℕ, none, some}
use simulation_ai.Prelude.{
  String, true, false, none, some, List, [], ◌∷◌, ◌≡◌, ◌≢◌, refl, ap, ◌==◌, eq_iff, inl, inr,
  Bool-cases, nat_eq, if◌then◌else◌,
}
use simulation_ai.Prelude.Texts.{is_empty, str_len}
use simulation_ai.Json.{str, obj, Fields}
use simulation_ai.Json.Dict.{lookup}
use simulation_ai.Result.{ok}
use simulation_ai.Vault.{resolve_api_key}
use simulation_ai.Vault.Records.{Crypto, VaultConfig, Decrypted, tampered, plain}
use simulation_ai.Vault.Envelope.{clear_record, validate_password, in_policy}
use simulation_ai.Vault.Spec.{IsSound, Command, save_key, unlock_key, lock_key}
use simulation_ai.Vault.Histories.{
  perform_all, obey_all, provide, empty_vault, empty_safe, perform_all-obey_all,
}
use simulation_ai.Tests.Fixtures.{test_runtime}

-- a text, and what follows it
join : String → String → String
join String.[] rest = String.◌∷◌ "0" rest
join (String.◌∷◌ c s) rest = String.◌∷◌ "1" (String.◌∷◌ c (join s rest))

first : String → String
first String.[] = String.[]
first (String.◌∷◌ d String.[]) = String.[]
first (String.◌∷◌ d (String.◌∷◌ c s)) =
    let more = first s in if nat_eq (code d) 49 then String.◌∷◌ c more else String.[]

second : String → String
second String.[] = String.[]
second (String.◌∷◌ d String.[]) = String.[]
second (String.◌∷◌ d (String.◌∷◌ c s)) =
    let more = second s in if nat_eq (code d) 49 then more else String.◌∷◌ c s

first-join : (s rest : String) → first (join s (String.◌∷◌ "." rest)) ≡ s
unfolding first join
first-join String.[] rest = refl
first-join (String.◌∷◌ c s) rest = ap (String.◌∷◌ c) (first-join s rest)

second-join : (s rest : String) → second (join s (String.◌∷◌ "." rest)) ≡ String.◌∷◌ "." rest
unfolding second join
second-join String.[] rest = refl
second-join (String.◌∷◌ c s) rest = second-join s rest

rest_of : String → String
rest_of String.[] = String.[]
rest_of (String.◌∷◌ d s) = s

after : String → String
unfolding second rest_of
after s = rest_of (second s)

text_at : String → Fields → String
unfolding lookup
text_at k d = elim (lookup k d) [ none ↦ "" | some (str s) ↦ s | some _ ↦ "" ]

pub sealed : String → String → Fields → String
unfolding join text_at
sealed key nonce d = join key (
    String.◌∷◌ "." (
      join (text_at "api_key" d) (
        String.◌∷◌ "." (
          join (text_at "source" d)
            (String.◌∷◌ "." (join (text_at "created_at" d) (String.◌∷◌ "." String.[])))))))

opened_text : String → Decrypted
unfolding first after
opened_text s = plain (obj (clear_record (first s) (first (after s)) (first (after (after s)))))

pub unsealed : String → String → String → Decrypted
unfolding first after opened_text
unsealed key nonce s = if first s == key then opened_text (after s) else tampered

abbrev pub toy : Crypto
toy = record {
  derive = λ password salt n r p. some password;
  encrypt = sealed;
  decrypt = unsealed;
  decodes = λ s. true;
  short_hash = λ s. s;
  urandom = λ n. "random";
}

abbrev pub toy_config : VaultConfig
toy_config = record {
  scrypt_n = 32768;
  scrypt_r = 8;
  scrypt_p = 1;
  minimum_password_characters = 12;
  env_key = "";
  can_wipe = true;
  can_unlink = true;
}

toy_tells_apart :
    (p q : String) (i j : ℕ) (key other k s t : String)
    → Unit {0}
    → Unit {0}
    → p ≢ q
    → some p ≡ some key
    → some q ≡ some other
    → unsealed other (toy.urandom j) (sealed key (toy.urandom j) (clear_record k s t)) ≡ tampered
unfolding unsealed sealed
toy_tells_apart p q i j key other k s t u w apart e f =
    rw (first-join key _) (elim (Bool-cases (key == other)) [
      | inl same ↦ absurd (apart (cc ((eq_iff key other).0 same)))
      | inr differ ↦ rw differ refl
    ])

toy_correct :
    (key nonce k s t : String)
    → unsealed key nonce (sealed key nonce (clear_record k s t)) ≡ plain (obj (clear_record k s t))
unfolding unsealed sealed after opened_text text_at clear_record lookup rest_of
toy_correct key nonce k s t =
    simp (first-join, second-join, (eq_iff key key).1 refl) (rw (first-join t String.[]) refl)

toy_password :
    (password : String) → validate_password toy_config password ≡ ok tt → is_empty password ≡ false
unfolding validate_password str_len
toy_password String.[] h = cc
toy_password (String.◌∷◌ c s) h = refl

toy-IsSound : IsSound toy toy_config (λ p. Unit)
unfolding in_policy
toy-IsSound = record {
  derives = λ password salt h. (password, refl);
  tells_apart = toy_tells_apart;
  correct = toy_correct;
  random_decodes = λ n. refl;
  sealed_decodes = λ key nonce k s t. refl;
  policy = refl;
  removable = refl;
  some_password = toy_password;
}

abbrev life : List Command
life =
    unlock_key "correct horse"
    ∷ save_key " sk-0123456789abcdefghij " "correct horse" "settings-entry"
    ∷ lock_key
    ∷ unlock_key "battery staple"
    ∷ save_key "sk-another-key-0123456789" "battery staple" "settings-entry"
    ∷ unlock_key "correct horse"
    ∷ []

perform_all-obey_all_example :
    ((perform_all test_runtime toy toy_config life empty_vault).0
      ≡ (obey_all toy_config life empty_safe).0)
    × (resolve_api_key test_runtime toy toy_config
          (perform_all test_runtime toy toy_config life empty_vault).1
        ≡ provide toy_config (obey_all toy_config life empty_safe).1)
perform_all-obey_all_example =
    perform_all-obey_all test_runtime toy toy_config (λ p. Unit) toy-IsSound life
      (tt, (tt, (tt, (tt, (tt, (tt, tt))))))
