-- ===== src/Adapters.antt =====
-- adapters.py: the deterministic observer, and the proposer of patches by rules. The packet has
-- passed `validate_interaction`, so its action and its target are dicts.
pub mod Texts
mod Commands
pub mod Propose
pub mod Secrets
unfoldable pub use Texts.{
  cut, after_first, split_at_most, after_last, is_substring, safe_key, escape,
}
unfoldable pub use Commands.{
  operation, replace_op, switch, command_operations, goal_command, spawn_command, status_command,
  spawn_id,
}
pub use Commands.{Outcome}
use simulation_ai.Prelude.{
  nat_eq, ◌-◌, ℕ, suc, String, Bool, true, false, ◌&&◌, ◌||◌, Option, none, some, List, [], ◌∷◌,
  ◌==◌, if◌then◌else◌,
}
use simulation_ai.Prelude.Int.{ℤ, pos, negsuc}
use simulation_ai.Prelude.{◌/◌}
use simulation_ai.Prelude.Texts.{str_append, startswith, py_int}
use simulation_ai.Json.{
  Value, null, bool, int, float, str, arr, obj, nil, cons, Fields, end, truthy, empty_list,
  empty_dict,
}
use simulation_ai.Json.Dict.{lookup, get_or, put, contains}
use simulation_ai.Json.Equal.{py_eq}
use simulation_ai.Result.{Result, ok, err, or_raise, ◌>>=◌, key_error, type_error, value_error}
use simulation_ai.Runtime.{Runtime, str_of, short_digest, digest}
use simulation_ai.Model.{dict}
use simulation_ai.Model.State.{SurfaceState}
use simulation_ai.Model.Records.{ObservationReport}

-- `int(v)`; of a float the part before the point
unfoldable pub int_of : Value → Result ℤ
unfolding py_int
int_of (bool true) = ok (pos 1)
int_of (bool false) = ok (pos 0)
int_of (int i) = ok i
int_of (float (pos n)) = ok (pos (n / 1000000))
int_of (float (negsuc n)) =
    ok (if nat_eq (suc n / 1000000) 0 then pos 0 else negsuc ((suc n / 1000000) - 1))
int_of (str s) = or_raise (py_int s) value_error
int_of _ = err type_error

-- `packet.get(key) or {}`, a dict
unfoldable pub part_of : String → Fields → Result Fields
unfolding get_or
part_of key packet = elim (get_or key null packet) [
  | obj d ↦ ok d
  | v ↦ if truthy v then err type_error else ok end
]

-- the action as the observation reports it: a secret text is taken out
unfoldable pub telemetry : Bool → Fields → Result Fields
unfolding int_of get_or
telemetry sensitive action =
    if sensitive && py_eq (get_or "kind" null action) (str "type")
    then (do
      count ← int_of (get_or "typed_character_count" (int (pos 0)) action)
      ok (put "typed_character_count" (int count) (put "text" null action)))
    else ok action

unfoldable pub target_exists : String → SurfaceState → Bool
unfolding contains startswith
target_exists target_id state =
    contains target_id state.objects
    || (startswith target_id "surface." || startswith target_id "world.")

-- `DeterministicObserver.observe`
unfoldable pub observe : Runtime → Fields → SurfaceState → Result ObservationReport
unfolding part_of telemetry target_exists get_or str_of digest
observe rt packet state = do
  action ← part_of "action" packet
  target ← part_of "target" packet
  let target_id = str_of rt (get_or "node_id" (str "surface.unknown") target)
  let sensitive = truthy (get_or "sensitive" (bool false) target)
  reported ← telemetry sensitive action
  let known = target_exists target_id state
  let confidence = if known then pos 1000000 else pos 580000
  event ← or_raise (lookup "event_id" packet) key_error
  let event_id = str_of rt event
  let kind = get_or "kind" null reported
  ok (record {
    observation_id = str_append "obs_" (
        short_digest rt 24
          (obj (dict (("event", str event_id) ∷ ("state", str state.state_hash) ∷ []))));
    event_id = event_id;
    logical_time = suc state.logical_time;
    branch = state.branch;
    action = dict (
        ("kind", kind)
        ∷ ("status", str (if known then "accepted" else "ambiguous"))
        ∷ ("target_id", str target_id)
        ∷ ("target_label", get_or "accessible_label" null target)
        ∷ ("telemetry", obj reported)
        ∷ ("sensitive", bool sensitive)
        ∷ []);
    before = dict (
        ("focus_id", state.active_focus_id)
        ∷ ("selected_object_id", state.selected_object_id)
        ∷ []);
    after = dict (
        ("focus_id", str target_id)
        ∷ ("visible_objects_added", empty_list)
        ∷ ("visible_objects_removed", empty_list)
        ∷ ("visible_properties_changed", empty_list)
        ∷ []);
    candidate_effects =
        cons
          (obj (
            dict (
              (
                "description",
                str (
                    str_append "Apply "
                      (str_append (str_of rt kind) (str_append " to " target_id))),
              )
              ∷ ("evidence_ids", empty_list)
              ∷ ("confidence", float confidence)
              ∷ [])))
          nil;
    contradictions =
        if known
        then []
        else str_append "Target "
            (str_append target_id " was not present in committed object state.")
          ∷ [];
    unknowns = if known then [] else "semantic target identity" ∷ [];
    confidence = confidence;
    source = "deterministic-observer-v1";
    schema = "nmsr.observation/1";
  })
