-- ===== src/Engine/Consistent/Files.antt =====
-- Writing a state into the directory keeps the files, the refs and the log.
use mathlib.Core.Path.{subst}
use simulation_ai.Prelude.{
  ℕ, suc, String, Bool, true, false, ◌≡◌, ◌∙◌, refl, arith, some, List, [], ◌∷◌, ◌++◌, ◌==◌, eq_iff,
  if◌then◌else◌, inl, inr, Bool-cases, Option-cases,
}
use simulation_ai.Prelude.Texts.{strip, is_space}
use simulation_ai.Json.{Fields, obj}
use simulation_ai.Json.Equal.{py_eq}
use simulation_ai.Result.{Error, record_collision, ok, err, ok-injective}
use simulation_ai.Runtime.{Runtime}
use simulation_ai.Model.Event.{EventEnvelope}
use simulation_ai.Store.{
  Dir, find, exists, write_once, exists-find, find-write_once, find-write_once_self,
}
use simulation_ai.Store.States.{sealed, itself}
use simulation_ai.Engine.Consistent.{AreFiles, AreRefs, IsStateFile, IsLog}

if-guard :
    {B : Type 0} (b : Bool) (e : Error) {x y : B}
    → (if b then ok x else err e) ≡ ok y
    → (b ≡ true) × (ok x ≡ ok y)
if-guard true e h = (refl, h)
if-guard false e h = cc

some-injective : {A : Type 0} (a b : A) → some a ≡ some b → a ≡ b
some-injective a b h = cc

pub exists_of_find :
    {A : Type 0} (k : String) (d : Dir A) (a : A) → find k d ≡ some a → exists k d ≡ true
exists_of_find k d a e = exists-find k d ∙ (rw e refl)

pub find_of_exists :
    {A : Type 0} (k : String) (d : Dir A) → exists k d ≡ true → (a : A) × (find k d ≡ some a)
find_of_exists k d e = elim (Option-cases (find k d)) [
  | inl absent ↦ let bad = rw (exists-find k d, absent) at e in cc
  | inr found ↦ found
]

-- Every file of the first directory is in the second.
abbrev pub Grows : Dir Fields → Dir Fields → Type 0
Grows states states' = (h : String) → exists h states ≡ true → exists h states' ≡ true

pub IsLog-Grows :
    (rt : Runtime) (states states' : Dir Fields) (n : ℕ) (seen : List String)
    (es : List EventEnvelope)
    → Grows states states'
    → IsLog rt states n seen es
    → IsLog rt states' n seen es
IsLog-Grows rt states states' n seen [] g h = tt
IsLog-Grows rt states states' n seen (e ∷ es) g (i, fresh, sealed, parent, result, rest) = (
  i,
  fresh,
  sealed,
  g e.parent_state_hash parent,
  g e.resulting_state_hash result,
  IsLog-Grows rt states states' (suc n) (e.event_id ∷ seen) es g rest,
)

pub write_once-Grows :
    (k : String) (d : Fields) (states : Dir Fields) {states' : Dir Fields}
    → write_once itself k d states ≡ ok states'
    → Grows states states'
write_once-Grows k d states {states' = states'} e h there =
    let (a, found) = find_of_exists h states there in
    exists_of_find h states' a (find-write_once itself h states k d a e found)

pub AreFiles-find :
    (rt : Runtime) (states : Dir Fields) (h : String) (d : Fields)
    → AreFiles rt states
    → find h states ≡ some d
    → IsStateFile rt h d
unfolding find
AreFiles-find rt [] h d fs e = cc
AreFiles-find rt ((k, b) ∷ states) h d (f, fs) e = elim (Bool-cases (k == h)) [
  | inl here ↦
      let at : k ≡ h = ground (arith, here, eq_iff k h) in
      let is : some b ≡ some d = rw here at e in
      subst (λ x. IsStateFile rt h x) (some-injective b d is) (subst (λ x. IsStateFile rt x b) at f)
  | inr later ↦ AreFiles-find rt states h d fs (rw later at e)
]

AreFiles-append :
    (rt : Runtime) (states : Dir Fields) (h : String) (d : Fields)
    → AreFiles rt states
    → IsStateFile rt h d
    → AreFiles rt (states ++ (h, d) ∷ [])
AreFiles-append rt [] h d fs f = (f, tt)
AreFiles-append rt (x ∷ states) h d (g, fs) f = (g, AreFiles-append rt states h d fs f)

pub write_once-AreFiles :
    (rt : Runtime) (k : String) (d : Fields) (states : Dir Fields) {states' : Dir Fields}
    → AreFiles rt states
    → IsStateFile rt k d
    → write_once itself k d states ≡ ok states'
    → AreFiles rt states'
unfolding write_once
write_once-AreFiles rt k d states {states' = states'} fs f e = elim (Option-cases (find k states)) [
  | inl absent ↦
      subst (AreFiles rt) (ok-injective _ _ (rw (absent, write_once) at e))
        (AreFiles-append rt states k d fs f)
  | inr (b, found) ↦
      let (_, same) =
        if-guard (py_eq (obj b) (obj d)) record_collision (rw (found, write_once) at e) in
      subst (AreFiles rt) (ok-injective _ _ same) fs
]

pub AreRefs-Grows :
    (states states' : Dir Fields) (refs : Dir String)
    → Grows states states'
    → AreRefs states refs
    → AreRefs states' refs
AreRefs-Grows states states' [] g h = tt
AreRefs-Grows states states' ((n, h) ∷ refs) g (there, rest) =
    (g (strip is_space h) there, AreRefs-Grows states states' refs g rest)

pub write_once-exists :
    (k : String) (d : Fields) (states : Dir Fields) {states' : Dir Fields}
    → write_once itself k d states ≡ ok states'
    → exists k states' ≡ true
write_once-exists k d states {states' = states'} e = elim (Option-cases (find k states)) [
  | inl absent ↦
      exists_of_find k states' d (rw absent at (find-write_once_self itself states k d e))
  | inr (b, found) ↦
      exists_of_find k states' b (rw found at (find-write_once_self itself states k d e))
]
