-- ===== src/Patch/Protected.antt =====
-- The operations of a proposal leave the roots that are not in `ALLOWED_ROOTS` alone.
pub mod Stamped
pub mod Outcome
use mathlib.Core.Logic.{◌⊎◌}
use simulation_ai.Prelude.{
  ℕ, suc, ◌≡◌, ◌≢◌, refl, ap, ◌∙◌, arith, String, Bool, true, false, not, ◌||◌, Option, none, some,
  List, [], ◌∷◌, ◌==◌, eq_iff, inl, inr, Bool-cases, if◌then◌else◌,
}
use simulation_ai.Prelude.Int.{ℤ, pos}
use simulation_ai.Prelude.Lists.{All}
use simulation_ai.Json.{Value, int, float, str, obj, Fields, end, empty_dict, empty_list}
use simulation_ai.Json.Dict.{lookup, put, lookup-put_ne, lookup-put_self}
use simulation_ai.Json.Equal.{py_eq}
use simulation_ai.Result.{
  Result, ok, err, guard, ◌>>=◌, ◌>>◌, >>=-eq-ok, guard-eq-ok, test_failed, type_error,
  unauthorized_path,
}
use simulation_ai.Result.Loops.{fold, fold_inv, each, each-All}
use simulation_ai.Runtime.{Runtime, digest}
use simulation_ai.Model.{one_of}
use simulation_ai.Model.Patch.{PatchOperation, PatchProposal}
use simulation_ai.Model.State.{
  SurfaceState, as_dict, from_dict, payload, seal, known_names, text_field, int_field, count_field,
  float_field, dict_field, value_field,
}
use simulation_ai.Patch.Pointer.{segments, get, set, remove}
use simulation_ai.Patch.Rules.{
  allowed_roots, protected_roots, check_segments, check_path, validate_proposal,
  validate_state_invariants,
}
use simulation_ai.Patch.Lens.{SameBut, set-obj, remove-obj}
use simulation_ai.Patch.{apply_operation, as_object, stamp, apply_proposal}

-- The document has the entries of `d₀` at every root that no patch may name.
pub record Keeps (d₀ : Fields) (document : Value) : Type 0 where
  pub fields : Fields
  pub is_obj : document ≡ obj fields
  pub same : (k : String) → one_of k allowed_roots ≡ false → lookup k fields ≡ lookup k d₀

allowed_ne :
    (root k : String) → one_of root allowed_roots ≡ true → one_of k allowed_roots ≡ false → root ≢ k
allowed_ne root k a n e = cc (ap (λ s. one_of s allowed_roots) e)

guard_allowed : (p a : Bool) → not (p || not a) ≡ true → a ≡ true
guard_allowed true a h = cc
guard_allowed false true h = refl
guard_allowed false false h = h

check_segments-root :
    (o : PatchOperation) (root : String) (rest : List String) {u : Unit {0}}
    → check_segments o (root ∷ rest) ≡ ok u
    → one_of root allowed_roots ≡ true
unfolding check_segments
check_segments-root o root rest h =
    let test = not (one_of root protected_roots || not (one_of root allowed_roots)) in
    let (_, e, _) = >>=-eq-ok (guard test unauthorized_path) _ h in
    guard_allowed (one_of root protected_roots) (one_of root allowed_roots)
      (guard-eq-ok test unauthorized_path e)

module _ (d₀ : Fields) (o : PatchOperation) {d d' : Value} where
  set-Keeps :
      (path : List String)
      → check_segments o path ≡ ok tt
      → Keeps d₀ d
      → set d path o.value (o.op == "add") ≡ ok d'
      → Keeps d₀ d'
  unfolding check_segments
  set-Keeps [] c k h = cc
  set-Keeps (root ∷ rest) c k h =
      let add = o.op == "add" in
      let (fields, e, same) = set-obj k.fields root rest o.value add (rw k.is_obj at h) in
      record {
        fields = fields;
        is_obj = e;
        same = λ j out.
            same j (allowed_ne root j (check_segments-root o root rest c) out) ∙ k.same j out;
      }

  remove-Keeps :
      (path : List String)
      → check_segments o path ≡ ok tt
      → Keeps d₀ d
      → remove d path ≡ ok d'
      → Keeps d₀ d'
  unfolding check_segments
  remove-Keeps [] c k h = cc
  remove-Keeps (root ∷ rest) c k h =
      let (fields, e, same) = remove-obj k.fields root rest (rw k.is_obj at h) in
      record {
        fields = fields;
        is_obj = e;
        same = λ j out.
            same j (allowed_ne root j (check_segments-root o root rest c) out) ∙ k.same j out;
      }

-- A `test` changes nothing.
pub test-eq-ok :
    (d : Value) (path : List String) (v : Value) {d' : Value}
    → (do actual ← get d path; guard (py_eq actual v) test_failed; ok d) ≡ ok d'
    → d ≡ d'
test-eq-ok d path v h =
    let (actual, e, h') = >>=-eq-ok (get d path) _ h in
    let (_, _, h'') = >>=-eq-ok (guard (py_eq actual v) test_failed) (λ _. ok d) h' in cc

pub apply_operation-Keeps :
    (d₀ : Fields) (d d' : Value) (o : PatchOperation)
    → check_path o ≡ ok tt
    → Keeps d₀ d
    → apply_operation d o ≡ ok d'
    → Keeps d₀ d'
unfolding apply_operation check_path
apply_operation-Keeps d₀ d d' o c k h = elim (Bool-cases (o.op == "test")) [
  | inl test ↦
      let same = test-eq-ok d (segments o.path) o.value (rw test at h) in
      record { fields = k.fields; is_obj = rw (← same) k.is_obj; same = k.same }
  | inr other ↦ elim (Bool-cases (o.op == "remove")) [
    | inl removes ↦ remove-Keeps d₀ o (segments o.path) c k (rw (other, removes) at h)
    | inr sets ↦ set-Keeps d₀ o (segments o.path) c k (rw (other, sets) at h)
  ]
]
