-- ===== src/Engine/Branches/Fork.antt =====
-- The state and the event of a new branch.
use simulation_ai.Prelude.{ℕ, suc, String, [], ◌∷◌}
use simulation_ai.Prelude.Texts.{str_append}
use simulation_ai.Json.{Value, str, obj}
use simulation_ai.Json.Dict.{lookup}
use simulation_ai.Result.{Result, ok, err, or_raise, ◌>>=◌, key_error, type_error}
use simulation_ai.Runtime.{Runtime, short_digest, digest}
use simulation_ai.Model.{dict}
use simulation_ai.Model.State.{SurfaceState, seal}
use simulation_ai.Model.Event
use simulation_ai.Model.Event.{EventEnvelope}
use simulation_ai.Engine.Clock.{put_item}

-- `v[key]` for a text key
unfoldable pub get_item : Value → String → Result Value
get_item (obj d) key = or_raise (lookup key d) key_error
get_item _ key = err type_error

-- the two writes to `layer_state["meta_model"]`
unfoldable pub fork_layers : SurfaceState → Result Value
unfolding get_item put_item
fork_layers current = do
  meta ← get_item current.layer_state "meta_model"
  meta₁ ← put_item meta "forked_from" (str current.branch)
  meta₂ ← put_item meta₁ "fork_state_hash" (str current.state_hash)
  put_item current.layer_state "meta_model" meta₂

unfoldable pub fork_state : Runtime → String → SurfaceState → Result SurfaceState
unfolding fork_layers seal
fork_state rt clean current = do
  layers ← fork_layers current
  ok (
      seal rt (record current {
        parent_state_hash = current.state_hash;
        logical_time = suc current.logical_time;
        branch = clean;
        layer_state = layers;
      }))

unfoldable pub fork_event : Runtime → String → ℕ → SurfaceState → SurfaceState → EventEnvelope
unfolding digest
fork_event rt created_at index current branch = Event.seal rt (record {
  index = index;
  event_id = str_append "evt_branch_" (
      short_digest rt 18
        (obj (dict (("name", str branch.branch) ∷ ("parent", str current.state_hash) ∷ []))));
  action = "branch:create";
  arguments = dict (("name", str branch.branch) ∷ ("forked_from", str current.branch) ∷ []);
  target_id = "node.surface";
  logical_time = branch.logical_time;
  parent_state_hash = current.state_hash;
  resulting_state_hash = branch.state_hash;
  branch = branch.branch;
  evidence_ids = [];
  proposal_id = "";
  epistemic_class = "counterfactual";
  status = "committed";
  actor = "surface-core";
  created_at = created_at;
  event_hash = "";
})
