-- ===== src/Store/Directory.antt =====
-- A directory of JSON files: `_write_json_once` and `_atomic_write_json`.
use simulation_ai.Prelude.{
  ◌≡◌, refl, arith, String, Bool, true, false, Option, none, some, List, [], ◌∷◌, ◌++◌, ◌==◌,
  eq_iff, if◌then◌else◌,
}
use simulation_ai.Json.{Fields, obj}
use simulation_ai.Json.Equal.{py_eq}
use simulation_ai.Result.{Result, ok, err, record_collision}

-- the stem of the file's name, and its content
abbrev pub Dir {ℓ} : Type ℓ → Type ℓ
Dir A = List (String × A)

module _ {ℓ} {A : Type ℓ} where
  unfoldable pub find : String → Dir A → Option A
  find key [] = none
  find key ((k, a) ∷ d) = if k == key then some a else find key d

  -- `path.exists()`
  unfoldable pub exists : String → Dir A → Bool
  exists key [] = false
  exists key ((k, a) ∷ d) = let rest = exists key d in if k == key then true else rest

  unfoldable pub remove : String → Dir A → Dir A
  remove key [] = []
  remove key ((k, a) ∷ d) = let rest = remove key d in if k == key then rest else (k, a) ∷ rest

  -- `_atomic_write_json`: the file is replaced, and its time of change is the latest
  unfoldable pub overwrite : String → A → Dir A → Dir A
  overwrite key a d = remove key d ++ (key, a) ∷ []

  unfoldable pub contents : Dir A → List A
  contents [] = []
  contents ((k, a) ∷ d) = a ∷ contents d

  -- `_write_json_once`, with the dict of a content
  unfoldable pub write_once : (A → Fields) → String → A → Dir A → Result (Dir A)
  write_once to_dict key a d = elim (find key d) [
    | none ↦ ok (d ++ (key, a) ∷ [])
    | some b ↦ if py_eq (obj (to_dict b)) (obj (to_dict a)) then ok d else err record_collision
  ]

  pub find-append :
      (key : String) (d : Dir A) (k : String) (a : A)
      → find key (d ++ (k, a) ∷ [])
        ≡ elim (find key d) [ none ↦ (if k == key then some a else none) | some b ↦ some b ]
  unfolding find
  find-append key [] k a = refl
  find-append key ((j, b) ∷ d) k a = ground (arith, find-append key d k a)

  pub exists-find :
      (key : String) (d : Dir A) → exists key d ≡ elim (find key d) [ none ↦ false | some _ ↦ true ]
  unfolding exists find
  exists-find key [] = refl
  exists-find key ((k, a) ∷ d) = ground (arith, exists-find key d)

  pub find-remove :
      (key : String) (d : Dir A) (k : String)
      → find key (remove k d) ≡ (if k == key then none else find key d)
  unfolding find remove
  find-remove key [] k = ground arith
  find-remove key ((j, b) ∷ d) k =
      ground (arith, find-remove key d k, eq_iff j k, eq_iff j key, eq_iff k key)

  -- The last write is what is read.
  pub find-overwrite :
      (key : String) (d : Dir A) (k : String) (a : A)
      → find key (overwrite k a d) ≡ (if k == key then some a else find key d)
  unfolding overwrite
  find-overwrite key d k a = ground (arith, find-append key (remove k d) k a, find-remove key d k)

  -- A write of an immutable record that does not raise keeps the content of every file that was
  -- there, its own included.
  pub find-write_once :
      (to_dict : A → Fields) (key : String) (d : Dir A) (k : String) (a b : A) {d' : Dir A}
      → write_once to_dict k a d ≡ ok d'
      → find key d ≡ some b
      → find key d' ≡ some b
  unfolding write_once
  find-write_once to_dict key d k a b h e = ground (arith, find-append key d k a)

  -- After a write that does not raise the file is there, with the content that was there before
  -- it or else with what was written.
  pub find-write_once_self :
      (to_dict : A → Fields) (d : Dir A) (k : String) (a : A) {d' : Dir A}
      → write_once to_dict k a d ≡ ok d'
      → find k d' ≡ elim (find k d) [ none ↦ some a | some b ↦ some b ]
  unfolding write_once
  find-write_once_self to_dict d k a h = ground (arith, find-append k d k a, eq_iff k k)
