-- ===== src/Patch/Identity.antt =====
-- The identity layer, which `validate_proposal` means to keep from patches: a path into it is
-- refused, but a path to the whole of `layer_state` is not.
use simulation_ai.Prelude.{suc, ◌≡◌, refl, false, [], ◌∷◌, eq_refl}
use simulation_ai.Prelude.Int.{pos}
use simulation_ai.Json.{Value, obj, nil, end}
use simulation_ai.Json.Dict.{contains, put}
use simulation_ai.Result.{ok, ◌>>=◌}
use simulation_ai.Result.Loops.{fold, each}
use simulation_ai.Runtime.{Runtime}
use simulation_ai.Model.Patch.{PatchProposal}
use simulation_ai.Model.State.{SurfaceState, as_dict, from_dict, seal}
use simulation_ai.Patch.Rules.{
  check_path, validate_proposal, validate_state_invariants, check_selected, check_render,
}
use simulation_ai.Patch.Pointer.{segments, set, set_in}
use simulation_ai.Patch.{apply_operation, as_object, stamp, apply_proposal}

-- A proposal whose one operation replaces all layers.
abbrev pub replace_layers : SurfaceState → Value → PatchProposal
replace_layers s layers = record {
  proposal_id = "proposal_layers";
  event_id = "evt_layers";
  parent_state_hash = s.state_hash;
  branch = s.branch;
  intent = end;
  operations =
      record {
        op = "replace";
        path = "/layer_state";
        value = layers;
        evidence_ids = [];
        epistemic_class = "observed";
        confidence = pos 1000000;
      }
      ∷ [];
  expected_postconditions = nil;
  invariants_expected_to_hold = [];
  render_impact = end;
  uncertainties = [];
  requires_review = false;
  model_id = "external";
  schema = "nmsr.patch-proposal/1";
}

layers_valid :
    (s : SurfaceState) (layers : Value) → validate_proposal (replace_layers s layers) s ≡ ok tt
unfolding validate_proposal check_path each
layers_valid s layers = rw (eq_refl s.state_hash, eq_refl s.branch, ◌>>=◌) refl

layers_run :
    (s : SurfaceState) (layers : Value)
    → fold apply_operation (obj (as_dict s)) (replace_layers s layers).operations
      ≡ ok (obj (as_dict (record s { layer_state = layers })))
unfolding fold apply_operation segments set set_in as_dict put contains
layers_run s layers = refl

-- the state behind such a proposal, before it is sealed
abbrev pub relayered : SurfaceState → Value → SurfaceState
relayered s layers = record s {
  logical_time = suc s.logical_time;
  parent_state_hash = s.state_hash;
  state_hash = "";
  layer_state = layers;
}

layers_read :
    (s : SurfaceState) (layers : Value)
    → from_dict (stamp s (as_dict (record s { layer_state = layers }))) ≡ ok (relayered s layers)
unfolding stamp put as_dict from_dict
layers_read s layers = refl

layers_checked :
    (rt : Runtime) (s : SurfaceState) (layers : Value)
    → validate_state_invariants rt (relayered s layers) ≡ validate_state_invariants rt s
unfolding validate_state_invariants check_selected check_render
layers_checked rt s layers = refl

-- For every state that keeps the invariants and every value, the proposal that replaces
-- `/layer_state` by that value is accepted, and the value is the whole layer state of the result,
-- the entry of the identity layer included.
pub apply_proposal-replace_layers :
    (rt : Runtime) (s : SurfaceState) (layers : Value)
    → validate_state_invariants rt s ≡ ok tt
    → apply_proposal rt s (replace_layers s layers) ≡ ok (seal rt (relayered s layers))
unfolding apply_proposal as_object
apply_proposal-replace_layers rt s layers h = rw (
  layers_valid s layers,
  layers_run s layers,
  layers_read s layers,
  layers_checked rt s layers,
  h,
  ◌>>=◌,
)
