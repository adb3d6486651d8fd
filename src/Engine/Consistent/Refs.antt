-- ===== src/Engine/Consistent/Refs.antt =====
-- Moving a ref to a stored state keeps the invariant.
use mathlib.Core.Path.{subst}
use simulation_ai.Prelude.{
  String, true, ◌≡◌, ◌∙◌, sym, ap, refl, [], ◌∷◌, ◌++◌, ◌==◌, inl, inr, Bool-cases,
}
use simulation_ai.Prelude.Texts.{strip, is_space}
use simulation_ai.Result.{guard-then, ok, ok-injective, missing_state}
use simulation_ai.Runtime.{Runtime, digest}
use simulation_ai.Json.{Fields}
use simulation_ai.Json.Sort.{sort_keys}
use simulation_ai.Model.State.{SurfaceState, seal, payload}
use simulation_ai.Store.{Store, Dir, exists, overwrite, remove}
use simulation_ai.Store.States.{set_ref, state_exists}
use simulation_ai.Exec.{writes}
use simulation_ai.Exec.Triple.{Triple, Triple-writes}
use simulation_ai.Engine.Consistent.Files.{AreFiles-find, find_of_exists}
use simulation_ai.Engine.Consistent.{AreFiles, AreRefs, IsSealed, IsConsistent, IsHex}

-- The hash of a sealed state is a digest, and so has no white space at its ends.
pub stripped_hash :
    (rt : Runtime) (s : SurfaceState)
    → IsHex rt
    → IsSealed rt s
    → strip is_space s.state_hash ≡ s.state_hash
unfolding seal digest
stripped_hash rt s hex is = ap (strip is_space) (sym is) ∙ hex.stripped (sort_keys (payload s)) ∙ is

-- The names of the stored states are digests.
stored_hash :
    (rt : Runtime) (states : Dir Fields) (h : String)
    → IsHex rt
    → AreFiles rt states
    → exists h states ≡ true
    → strip is_space h ≡ h
stored_hash rt states h hex fs there =
    let (d, found) = find_of_exists h states there in
    let f = AreFiles-find rt states h d fs found in
    subst (λ x. strip is_space x ≡ x) f.named (stripped_hash rt f.state hex f.sealed)

AreRefs-remove :
    (states : Dir Fields) (key : String) (refs : Dir String)
    → AreRefs states refs
    → AreRefs states (remove key refs)
unfolding remove
AreRefs-remove states key [] hs = tt
AreRefs-remove states key ((n, h) ∷ refs) (there, hs) = elim (Bool-cases (n == key)) [
  | inl same ↦ rw same (AreRefs-remove states key refs hs)
  | inr other ↦ rw other (there, AreRefs-remove states key refs hs)
]

AreRefs-append :
    (states : Dir Fields) (refs : Dir String) (name h : String)
    → AreRefs states refs
    → exists (strip is_space h) states ≡ true
    → AreRefs states (refs ++ (name, h) ∷ [])
AreRefs-append states [] name h hs there = (there, tt)
AreRefs-append states (r ∷ refs) name h (x, hs) there =
    (x, AreRefs-append states refs name h hs there)

AreRefs-overwrite :
    (states : Dir Fields) (refs : Dir String) (name h : String)
    → AreRefs states refs
    → exists (strip is_space h) states ≡ true
    → AreRefs states (overwrite name h refs)
unfolding overwrite
AreRefs-overwrite states refs name h hs there =
    AreRefs-append states (remove name refs) name h (AreRefs-remove states name refs hs) there

-- The store after `set_ref`.
pub record Moved (rt : Runtime) (h : String) (w w' : Store) : Type 0 where
  pub consistent : IsConsistent rt w'
  pub same_states : w'.states ≡ w.states
  pub same_events : w'.events ≡ w.events
  pub there : exists h w.states ≡ true

pub set_ref-Moved :
    (rt : Runtime) (hex : IsHex rt) (name h : String) (w w' : Store)
    → IsConsistent rt w
    → set_ref name h w ≡ ok w'
    → Moved rt h w w'
unfolding set_ref state_exists
set_ref-Moved rt hex name h w w' c e =
    let moved : Store = record w { refs = overwrite name h w.refs } in
    let (there, r) = guard-then (exists h w.states) missing_state (ok moved) e in
    let clean = stored_hash rt w.states h hex c.files there in
    subst (Moved rt h w) (ok-injective _ _ r) (record {
      consistent = record {
        files = c.files;
        heads = AreRefs-overwrite w.states w.refs name h c.heads (rw clean there);
        log = c.log;
      };
      same_states = refl;
      same_events = refl;
      there = there;
    })

pub set_ref-Triple :
    (rt : Runtime) (hex : IsHex rt) (name h : String)
    → Triple (IsConsistent rt) (writes (set_ref name h)) (λ _. IsConsistent rt) (IsConsistent rt)
set_ref-Triple rt hex name h =
    Triple-writes (set_ref name h) (λ w w' p e. (set_ref-Moved rt hex name h w w' p e).consistent)
      (λ w p. p)
