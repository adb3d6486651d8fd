-- ===== src/Patch/Invariants.antt =====
-- What every state looks like that `validate_state_invariants` accepts and a patch returns.
use mathlib.Core.Path.{subst₂}
use simulation_ai.Prelude.{
  inl, inr, Bool-cases, ◌≡◌, refl, arith, String, Bool, true, false, not, ◌&&◌, ◌||◌, some, ◌==◌,
  eq_iff,
}
use simulation_ai.Prelude.Int.{pos, ltb_ℤ}
use simulation_ai.Prelude.Texts.{startswith}
use simulation_ai.Json.{Value, null, str, obj, Fields, end, field}
use simulation_ai.Json.Dict.{lookup, contains}
use simulation_ai.Json.Equal.{py_eq}
use simulation_ai.Result.{
  ok, guard, >>=-eq-ok, guard-eq-ok, bad_namespace, missing_fields, no_selected_object,
  bad_coherence, negative_entropy,
}
use simulation_ai.Runtime.{Runtime}
use simulation_ai.Model.{in_unit}
use simulation_ai.Model.Patch.{PatchProposal}
use simulation_ai.Model.State.{SurfaceState, seal}
use simulation_ai.Patch.Rules.{
  check_selected, check_object, check_objects, has_required, check_render,
  validate_state_invariants,
}
use simulation_ai.Patch.{apply_proposal}
use simulation_ai.Patch.Protected.Outcome.{apply_proposal-Applied}

-- An object's ID lies in one of the two namespaces, and the object is a dict with both fields.
pub record IsObject (object_id : String) (value : Value) : Type 0 where
  pub namespace : (startswith object_id "node." || startswith object_id "world.") ≡ true
  pub fields : Fields
  pub is_dict : value ≡ obj fields
  pub has_type : contains "type" fields ≡ true
  pub has_status : contains "status" fields ≡ true

-- What the invariants promise of a committed state.
pub record IsSound (s : SurfaceState) : Type 0 where
  pub objects : (k : String) (v : Value) → lookup k s.objects ≡ some v → IsObject k v
  pub selected :
      (k : String)
      → s.selected_object_id ≡ str k
      → (contains k s.objects || k == "surface.command") ≡ true
  pub coherence : in_unit s.coherence ≡ true
  pub entropy : ltb_ℤ s.entropy_bits (pos 0) ≡ false

both : (a b : Bool) → (a && b) ≡ true → (a ≡ true) × (b ≡ true)
both a b h = ground arith

required_fields :
    (k : String) (v : Value)
    → (startswith k "node." || startswith k "world.") ≡ true
    → has_required v ≡ true
    → IsObject k v
unfolding has_required
required_fields k (obj d) n h =
    let (t, s) = both (contains "type" d) (contains "status" d) h in
    record { namespace = n; fields = d; is_dict = refl; has_type = t; has_status = s }
required_fields k null n h = cc
required_fields k _ n h = cc

check_object-IsObject :
    (k : String) (v : Value) {u : Unit {0}} → check_object k v ≡ ok u → IsObject k v
unfolding check_object
check_object-IsObject k v h =
    let test = startswith k "node." || startswith k "world." in
    let (_, e, h') = >>=-eq-ok (guard test bad_namespace) _ h in
    required_fields k v (guard-eq-ok test bad_namespace e) (guard-eq-ok _ missing_fields h')

check_objects-IsObject :
    (d : Fields) {u : Unit {0}}
    → check_objects d ≡ ok u
    → (k : String) (v : Value) → lookup k d ≡ some v
    → IsObject k v
unfolding check_objects lookup
check_objects-IsObject end h k v e = cc
check_objects-IsObject (field j w d) h k v e =
    let (_, first, rest) = >>=-eq-ok (check_object j w) (λ _. check_objects d) h in
    elim (Bool-cases (j == k)) [
      | inl same ↦
          let here : w ≡ v = (let e' = rw same at e in cc) in
          subst₂ IsObject ((eq_iff j k).0 same) here (check_object-IsObject j w first)
      | inr differ ↦ check_objects-IsObject d rest k v (rw differ at e)
    ]

check_selected-eq-ok :
    (s : SurfaceState) {u : Unit {0}}
    → check_selected s ≡ ok u
    → (k : String) → s.selected_object_id ≡ str k
    → (contains k s.objects || k == "surface.command") ≡ true
unfolding check_selected py_eq
check_selected-eq-ok s h k e =
    guard-eq-ok (contains k s.objects || k == "surface.command") no_selected_object (rw e at h)

not-true : (b : Bool) → not b ≡ true → b ≡ false
not-true b h = ground arith

pub validate_state_invariants-IsSound :
    (rt : Runtime) (s : SurfaceState) → validate_state_invariants rt s ≡ ok tt → IsSound s
unfolding validate_state_invariants
validate_state_invariants-IsSound rt s h =
    let (_, sel, h₁) = >>=-eq-ok (check_selected s) _ h in
    let (_, coh, h₂) = >>=-eq-ok (guard (in_unit s.coherence) bad_coherence) _ h₁ in
    let (_, ent, h₃) =
      >>=-eq-ok (guard (not (ltb_ℤ s.entropy_bits (pos 0))) negative_entropy) _ h₂ in
    let (_, obs, _) = >>=-eq-ok (check_objects s.objects) (λ _. check_render rt s) h₃ in
    record {
      objects = check_objects-IsObject s.objects obs;
      selected = check_selected-eq-ok s sel;
      coherence = guard-eq-ok (in_unit s.coherence) bad_coherence coh;
      entropy = not-true _ (guard-eq-ok (not (ltb_ℤ s.entropy_bits (pos 0))) negative_entropy ent);
    }

-- A state that `apply_proposal` returns has every object in one of the two namespaces, a dict with a type
-- and a status; its selected text is an object's ID or the command surface; its coherence lies
-- between 0 and 1, and its entropy is not negative.
pub apply_proposal-IsSound :
    (rt : Runtime) (s : SurfaceState) (p : PatchProposal) {t : SurfaceState}
    → apply_proposal rt s p ≡ ok t
    → IsSound t
unfolding seal
apply_proposal-IsSound rt s p h =
    let a = apply_proposal-Applied rt s p h in
    let sound = validate_state_invariants-IsSound rt a.unsealed a.invariants in
    rw a.sealed (record {
      objects = sound.objects;
      selected = sound.selected;
      coherence = sound.coherence;
      entropy = sound.entropy;
    })
