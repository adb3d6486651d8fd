-- ===== src/Engine/Consistent/States.antt =====
-- Saving a state, moving a ref and reading a state keep the invariant.
use mathlib.Core.Path.{subst}
use simulation_ai.Prelude.{
  String, true, ◌≡◌, ◌∙◌, refl, sym, [], inl, inr, Bool-cases, ◌&&◌, nat_eq,
}
use simulation_ai.Prelude.Texts.{str_len, is_empty}
use simulation_ai.Json.{Fields}
use simulation_ai.Json.Sort.{sort_fields}
use simulation_ai.Result.{ok, or_raise, >>=-eq-ok, or_raise-eq-ok, ok-injective, file_not_found}
use simulation_ai.Runtime.{Runtime}
use simulation_ai.Model.State.{SurfaceState, as_dict, payload, seal}
use simulation_ai.Model.State.RoundTrip.{
  reload, reload-state_hash, from_dict-sort_fields, hash-reload,
}
use simulation_ai.Store.{Store, Dir, find, exists, write_once}
use simulation_ai.Store.States.{
  sealed, save_state, state_exists, read_state, read_ref, load_state, itself,
}
use simulation_ai.Engine.Consistent.{IsSealed, IsStateFile, IsConsistent}
use simulation_ai.Engine.Consistent.Files.{
  Grows, IsLog-Grows, AreFiles-find, exists_of_find, write_once-Grows, write_once-AreFiles,
  AreRefs-Grows, write_once-exists,
}

pub sealed-hash :
    (rt : Runtime) (s : SurfaceState) → IsSealed rt s → (sealed rt s).state_hash ≡ s.state_hash
unfolding sealed
sealed-hash rt s h = elim (Bool-cases (is_empty s.state_hash)) [
  | inl none_yet ↦ rw none_yet h
  | inr there ↦ rw there refl
]

pub seal-IsSealed : (rt : Runtime) (s : SurfaceState) → IsSealed rt (seal rt s)
unfolding seal payload
seal-IsSealed rt s = refl

sealed-IsSealed : (rt : Runtime) (s : SurfaceState) → IsSealed rt s → IsSealed rt (sealed rt s)
unfolding sealed
sealed-IsSealed rt s h = elim (Bool-cases (is_empty s.state_hash)) [
  | inl none_yet ↦ rw none_yet (seal-IsSealed rt s)
  | inr there ↦ rw there h
]

-- The store after `save_state`, and what it leaves alone.
pub record Saved (rt : Runtime) (s : SurfaceState) (w w' : Store) : Type 0 where
  pub consistent : IsConsistent rt w'
  pub there : exists s.state_hash w'.states ≡ true
  pub grows : Grows w.states w'.states
  pub same_events : w'.events ≡ w.events
  pub same_refs : w'.refs ≡ w.refs

module _ (rt : Runtime) (s : SurfaceState) (w : Store) (sound : IsSealed rt s)
    (c : IsConsistent rt w) where
  abbrev file : Fields
  file = sort_fields (as_dict (sealed rt s))

  file-IsStateFile : IsStateFile rt (sealed rt s).state_hash file
  file-IsStateFile = record {
    state = sealed rt s;
    written = refl;
    named = refl;
    sealed = sealed-IsSealed rt s sound;
  }

  written-Saved :
      (states : Dir Fields)
      → write_once itself (sealed rt s).state_hash file w.states ≡ ok states
      → Saved rt s w (record w { states = states })
  written-Saved states e =
      let grows = write_once-Grows (sealed rt s).state_hash file w.states e in
      record {
        consistent = record {
          files =
              write_once-AreFiles rt (sealed rt s).state_hash file w.states c.files file-IsStateFile
                e;
          heads = AreRefs-Grows w.states states w.refs grows c.heads;
          log = IsLog-Grows rt w.states states 1 [] w.events grows c.log;
        };
        there =
            subst (λ k. exists k states ≡ true) (sealed-hash rt s sound)
              (write_once-exists (sealed rt s).state_hash file w.states e);
        grows = grows;
        same_events = refl;
        same_refs = refl;
      }

  pub save_state-Saved : (w' : Store) → save_state rt s w ≡ ok w' → Saved rt s w w'
  unfolding save_state
  save_state-Saved w' h =
      let (states, e, r) =
        >>=-eq-ok (write_once itself (sealed rt s).state_hash file w.states) _ h in
      subst (Saved rt s w) (ok-injective _ _ r) (written-Saved states e)

-- A state that was read is sealed, has the hash of its file, and the file is there.
pub record Loaded (rt : Runtime) (h : String) (w : Store) (s : SurfaceState) : Type 0 where
  pub named : s.state_hash ≡ h
  pub sealed : IsSealed rt s
  pub there : exists s.state_hash w.states ≡ true

reload-Loaded :
    (rt : Runtime) (h : String) (w : Store) (s : SurfaceState)
    → s.state_hash ≡ h
    → IsSealed rt s
    → exists h w.states ≡ true
    → Loaded rt h w (reload s)
reload-Loaded rt h w s n is there = record {
  named = reload-state_hash s ∙ n;
  sealed = hash-reload rt s ∙ is ∙ sym (reload-state_hash s);
  there = rw (reload-state_hash s, n) there;
}

pub read_state-Loaded :
    (rt : Runtime) (w : Store) (h : String) (s : SurfaceState)
    → IsConsistent rt w
    → read_state h w ≡ ok s
    → Loaded rt h w s
unfolding read_state
read_state-Loaded rt w h s c e =
    let (d, found, read) = >>=-eq-ok (or_raise (find h w.states) file_not_found) _ e in
    let here = or_raise-eq-ok (find h w.states) file_not_found found in
    let f = AreFiles-find rt w.states h d c.files here in
    let is : reload f.state ≡ s =
      ok-injective _ _ (sym (from_dict-sort_fields f.state) ∙ (rw f.written at read)) in
    subst (Loaded rt h w) is
      (reload-Loaded rt h w f.state f.named f.sealed (exists_of_find h w.states d here))

-- What is loaded from a consistent store, by a ref or a hash, is a sealed state that is stored
-- under its hash.
pub load_state-Loaded :
    (rt : Runtime) (w : Store) (ref : String) (s : SurfaceState)
    → IsConsistent rt w
    → load_state ref w ≡ ok s
    → Loaded rt s.state_hash w s
unfolding load_state
load_state-Loaded rt w ref s c e =
    elim (Bool-cases (nat_eq (str_len ref) 64 && state_exists ref w)) [
      | inl by_hash ↦
          let l = read_state-Loaded rt w ref s c (rw by_hash at e) in
          subst (λ k. Loaded rt k w s) (sym l.named) l
      | inr by_ref ↦
          let (h, named, read) = >>=-eq-ok (read_ref ref w) _ (rw by_ref at e) in
          let l = read_state-Loaded rt w h s c read in subst (λ k. Loaded rt k w s) (sym l.named) l
    ]
