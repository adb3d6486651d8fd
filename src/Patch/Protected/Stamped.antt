-- ===== src/Patch/Protected/Stamped.antt =====
-- What `from_dict` reads of a document whose protected fields are kept, once it is stamped.

use simulation_ai.Prelude.{
  ℕ, suc, ◌≡◌, refl, sym, ap, ◌∙◌, arith, String, Bool, false, ◌||◌, some, ◌==◌,
}
use simulation_ai.Prelude.Int.{ℤ, pos}
use simulation_ai.Json.{Value, int, float, str, obj, Fields, end, empty_dict, empty_list}
use simulation_ai.Json.Dict.{lookup, lookup-put}
use simulation_ai.Result.{ok, guard, ◌>>=◌, ◌>>◌, >>=-eq-ok, guard-then, type_error}
use simulation_ai.Model.{one_of, layer_names}
use simulation_ai.Model.State.{
  SurfaceState, as_dict, from_dict, known_names, text_field, int_field, count_field, float_field,
  dict_field, value_field, empty_layers,
}
use simulation_ai.Patch.Rules.{allowed_roots}
use simulation_ai.Patch.{stamp}
use simulation_ai.Patch.Protected.{Keeps}

text_field-some :
    (k s default : String) (d : Fields) → lookup k d ≡ some (str s) → text_field k default d ≡ ok s
unfolding text_field
text_field-some k s default d e = rw (e, text_field)

int_field-some :
    (k : String) (n default : ℤ) (d : Fields)
    → lookup k d ≡ some (int n)
    → int_field k default d ≡ ok n
unfolding int_field
int_field-some k n default d e = rw (e, int_field)

count_field-some :
    (k : String) (n default : ℕ) (d : Fields)
    → lookup k d ≡ some (int (pos n))
    → count_field k default d ≡ ok n
unfolding count_field
count_field-some k n default d e = rw (e, count_field)

float_field-some :
    (k : String) (m default : ℤ) (d : Fields)
    → lookup k d ≡ some (float m)
    → float_field k default d ≡ ok m
unfolding float_field
float_field-some k m default d e = rw (e, float_field)

pub value_field-some :
    (k : String) (v default : Value) (d : Fields)
    → lookup k d ≡ some v
    → value_field k default d ≡ v
unfolding value_field
value_field-some k v default d e = rw (e, value_field)

unfoldable pub is_stamped : String → Bool
is_stamped k = "state_hash" == k || "logical_time" == k || "parent_state_hash" == k

pub lookup-stamp :
    (s : SurfaceState) (d : Fields) (k : String)
    → is_stamped k ≡ false
    → lookup k (stamp s d) ≡ lookup k d
unfolding stamp is_stamped
lookup-stamp s d k h = simp lookup-put (ground arith)

module _ (s : SurfaceState) {document : Value} (kept : Keeps (as_dict s) document) where
  unfoldable pub stamped : Fields
  stamped = stamp s kept.fields

  lookup_kept :
      (k : String)
      → is_stamped k ≡ false
      → one_of k allowed_roots ≡ false
      → lookup k stamped ≡ lookup k (as_dict s)
  unfolding stamped
  lookup_kept k h out = lookup-stamp s kept.fields k h ∙ kept.same k out

  time_stamped : lookup "logical_time" stamped ≡ some (int (pos (suc s.logical_time)))
  unfolding stamped stamp
  time_stamped = simp lookup-put

  parent_stamped : lookup "parent_state_hash" stamped ≡ some (str s.state_hash)
  unfolding stamped stamp
  parent_stamped = simp lookup-put

  hash_stamped : lookup "state_hash" stamped ≡ some (str "")
  unfolding stamped stamp
  hash_stamped = simp lookup-put

  -- what is left of `from_dict` when the protected fields are known
  abbrev pub rebuilt : Fields → SurfaceState
  rebuilt objects = record s {
    logical_time = suc s.logical_time;
    parent_state_hash = s.state_hash;
    state_hash = "";
    selected_object_id = value_field "selected_object_id" (str "node.surface") stamped;
    active_focus_id = value_field "active_focus_id" (str "surface.viewport") stamped;
    objects = objects;
    ui = value_field "ui" empty_dict stamped;
    goals = value_field "goals" empty_list stamped;
    plans = value_field "plans" empty_list stamped;
    hypotheses = value_field "hypotheses" empty_list stamped;
    claims = value_field "claims" empty_list stamped;
    layer_state = value_field "layer_state" (obj (empty_layers layer_names)) stamped;
    render = value_field "render" empty_dict stamped;
  }

  from_dict-stamped : from_dict stamped ≡ (
      guard (known_names stamped) type_error
      >> (dict_field "objects" end stamped >>= λ objects. ok (rebuilt objects)))
  unfolding from_dict is_stamped one_of as_dict lookup
  from_dict-stamped =
      rw
        (
          text_field-some "schema_version" s.schema_version "nmsr.surface-state/2" stamped
              (lookup_kept "schema_version" refl refl),
          text_field-some "map_id" s.map_id "simulation-ai" stamped
              (lookup_kept "map_id" refl refl),
          text_field-some "target" s.target "semantic-topology" stamped
              (lookup_kept "target" refl refl),
          text_field-some "profile" s.profile "world-surface-studio" stamped
              (lookup_kept "profile" refl refl),
          text_field-some "mode" s.mode "hybrid" stamped (lookup_kept "mode" refl refl),
          int_field-some "seed" s.seed (pos 42) stamped (lookup_kept "seed" refl refl),
          count_field-some "logical_time" (suc s.logical_time) 0 stamped time_stamped,
          text_field-some "branch" s.branch "main" stamped (lookup_kept "branch" refl refl),
          text_field-some "parent_state_hash" s.state_hash "" stamped parent_stamped,
          text_field-some "state_hash" "" "" stamped hash_stamped,
          float_field-some "entropy_bits" s.entropy_bits (pos 720000) stamped
              (lookup_kept "entropy_bits" refl refl),
          float_field-some "coherence" s.coherence (pos 940000) stamped
              (lookup_kept "coherence" refl refl),
          value_field-some "provenance" s.provenance empty_dict stamped
              (lookup_kept "provenance" refl refl),
          ◌>>=◌,
        )
        refl

  pub from_dict-rebuilt :
      (t : SurfaceState) → from_dict stamped ≡ ok t → (objects : Fields) × (rebuilt objects ≡ t)
  from_dict-rebuilt t h =
      let (_, h') = guard-then (known_names stamped) type_error _ (rw from_dict-stamped at h) in
      let (objects, _, e) =
        >>=-eq-ok (dict_field "objects" end stamped) (λ objects. ok (rebuilt objects)) h' in
      (objects, cc)

  pub from_dict-layer_state :
      (t : SurfaceState)
      → from_dict (stamp s kept.fields) ≡ ok t
      → t.layer_state
        ≡ value_field "layer_state" (obj (empty_layers layer_names)) (stamp s kept.fields)
  unfolding stamped
  from_dict-layer_state t h =
      let (objects, same) = from_dict-rebuilt t h in
      ap (λ (u : SurfaceState). u.layer_state) (sym same)
