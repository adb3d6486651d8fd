-- ===== src/Model/State/RoundTrip.antt =====
-- `SurfaceState.from_dict` undoes `as_dict`.
use simulation_ai.Prelude.{sym, ◌∙◌, ap, ◌≡◌, refl}
use simulation_ai.Result.{ok, ok-injective}
use simulation_ai.Json.Sort.{sort_keys, sort_fields}
use simulation_ai.Json.Sorted.{sort_keys_idem, sort_fields_idem}
use simulation_ai.Runtime.{Runtime}
use simulation_ai.Model.State.{SurfaceState, as_dict, from_dict, payload, seal}

-- A state survives `as_dict` and `from_dict` unchanged.
pub from_dict-as_dict : (s : SurfaceState) → from_dict (as_dict s) ≡ ok s
unfolding from_dict as_dict
from_dict-as_dict s = refl

-- The state that a written state is read back as: its dicts have their keys sorted.
pub reload : SurfaceState → SurfaceState
reload s = record s {
  selected_object_id = sort_keys s.selected_object_id;
  active_focus_id = sort_keys s.active_focus_id;
  objects = sort_fields s.objects;
  ui = sort_keys s.ui;
  goals = sort_keys s.goals;
  plans = sort_keys s.plans;
  hypotheses = sort_keys s.hypotheses;
  claims = sort_keys s.claims;
  layer_state = sort_keys s.layer_state;
  render = sort_keys s.render;
  provenance = sort_keys s.provenance;
}

-- A state written with sorted keys is read back as `reload` says.
pub from_dict-sort_fields : (s : SurfaceState) → from_dict (sort_fields (as_dict s)) ≡ ok (reload s)
unfolding from_dict as_dict sort_keys reload
from_dict-sort_fields s = refl

sort_payload : (s : SurfaceState) → sort_keys (payload (reload s)) ≡ sort_keys (payload s)
unfolding payload reload sort_keys as_dict
sort_payload s = cc (
  sort_keys_idem s.selected_object_id,
  sort_keys_idem s.active_focus_id,
  sort_fields_idem s.objects,
  sort_keys_idem s.ui,
  sort_keys_idem s.goals,
  sort_keys_idem s.plans,
  sort_keys_idem s.hypotheses,
  sort_keys_idem s.claims,
  sort_keys_idem s.layer_state,
  sort_keys_idem s.render,
  sort_keys_idem s.provenance,
)

-- The digest of the payload of the state that is read back.
pub hash-reload :
    (rt : Runtime) (s : SurfaceState) → (seal rt (reload s)).state_hash ≡ (seal rt s).state_hash
unfolding seal
hash-reload rt s = ap rt.sha256 (sort_payload s)

pub reload-state_hash : (s : SurfaceState) → (reload s).state_hash ≡ s.state_hash
unfolding reload
reload-state_hash s = refl

-- A state that is read from the file of another, whose keys are sorted, has the digest of that state's payload.
pub seal-from_dict :
    (rt : Runtime) (s t : SurfaceState)
    → from_dict (sort_fields (as_dict s)) ≡ ok t
    → (seal rt t).state_hash ≡ (seal rt s).state_hash
seal-from_dict rt s t h =
    let same : reload s ≡ t = ok-injective _ _ (sym (from_dict-sort_fields s) ∙ h) in
    ap (λ (x : SurfaceState). (seal rt x).state_hash) (sym same) ∙ hash-reload rt s
