-- ===== src/Adapters/Propose.antt =====
-- `RulePatchProposer.propose`: the operations for an interaction, and the proposal around them.
use simulation_ai.Prelude.{
  String, Bool, true, false, ◌||◌, List, [], ◌∷◌, ◌++◌, ◌==◌, if◌then◌else◌,
}
use simulation_ai.Prelude.Int.{pos}
use simulation_ai.Prelude.Texts.{str_append, str_len, take_str, strip, is_space}
use simulation_ai.Json.{
  Value, null, bool, int, float, str, arr, obj, nil, cons, Items, Fields, items, truthy, empty_list,
  empty_dict,
}
use simulation_ai.Json.Dict.{lookup, get_or, contains}
use simulation_ai.Json.Equal.{py_eq}
use simulation_ai.Result.{
  Result, ok, err, or_raise, ◌>>=◌, key_error, type_error, unsupported_action,
}
use simulation_ai.Runtime.{Runtime, str_of, short_digest, digest}
use simulation_ai.Model.{dict, one_of}
use simulation_ai.Model.Patch.{PatchOperation, PatchProposal, make_operation, operation_dicts}
use simulation_ai.Model.State.{SurfaceState}
use simulation_ai.Model.Records.{ObservationReport}
use simulation_ai.Patch.{get_attr}
use simulation_ai.Adapters.{
  Outcome, operation, replace_op, command_operations, part_of, int_of, safe_key, escape,
  is_substring,
}

-- `text in v`
has_value : Value → Items → Bool
has_value v nil = false
has_value v (cons w xs) = py_eq w v || has_value v xs

unfoldable pub is_in : String → Value → Result Bool
unfolding has_value is_substring contains
is_in text (obj d) = ok (contains text d)
is_in text (arr xs) = ok (has_value (str text) xs)
is_in text (str s) = ok (is_substring text s)
is_in text _ = err type_error

-- a click, a double click, a focus, a drag or a scroll
unfoldable pub point : String → String → SurfaceState → List String → Result (List PatchOperation)
unfolding replace_op make_operation escape contains one_of
point kind target_id state evidence_ids =
    if contains target_id state.objects
    then (do
      o₁ ← replace_op "/selected_object_id" (str target_id) evidence_ids
      o₂ ← replace_op "/active_focus_id" (str target_id) evidence_ids
      o₃ ←
          replace_op (str_append "/objects/" (str_append (escape target_id) "/status"))
            (str (if one_of kind ("click" ∷ "double_click" ∷ []) then "selected" else "active"))
            evidence_ids
      ok (o₁ ∷ o₂ ∷ o₃ ∷ []))
    else (do
      o ←
          make_operation "replace" "/active_focus_id" (str target_id) evidence_ids "inferred"
            (pos 580000)
      ok (o ∷ []))

-- the value of an input: a secret text is only counted
unfoldable pub typed_value : Runtime → Fields → Fields → Result Value
unfolding get_or int_of str_of str_len take_str
typed_value rt action target =
    if truthy (get_or "sensitive" (bool false) target)
    then (do
      count ← int_of (get_or "typed_character_count" (int (pos 0)) action)
      ok (obj (dict (("sensitive", bool true) ∷ ("character_count", int count) ∷ []))))
    else (let text = str_of rt (get_or "text" (str "") action) in
        ok (
          obj (
            dict (
              ("sensitive", bool false)
              ∷ ("text", str (take_str 4000 text))
              ∷ ("character_count", int (pos (str_len text)))
              ∷ []))))

unfoldable pub type_text :
    Runtime → Fields → Fields → String → SurfaceState → List String → Result (List PatchOperation)
unfolding typed_value is_in safe_key operation replace_op get_attr
type_text rt action target target_id state evidence_ids = do
  value ← typed_value rt action target
  inputs ← get_attr state.ui "inputs" empty_dict
  known ← is_in (safe_key target_id) inputs
  o₁ ←
      operation (if known then "replace" else "add") (str_append "/ui/inputs/" (safe_key target_id))
        value evidence_ids
  o₂ ← replace_op "/active_focus_id" (str target_id) evidence_ids
  ok (o₁ ∷ o₂ ∷ [])

abbrev pub point_kinds : List String
point_kinds = "click" ∷ "double_click" ∷ "focus" ∷ "drag" ∷ "scroll" ∷ []

-- behind the test of the selection
native : String → Result (List PatchOperation) → List PatchOperation → Result Outcome
native target_id more first = do
  os ← more
  ok (record {
    operations = first ++ os;
    render_class = "native_ui";
    affected = str target_id ∷ [];
  })

-- `str(action.get("name", "")).strip()`
unfoldable pub command_of : Runtime → Fields → String
unfolding str_of get_or strip is_space
command_of rt action = strip is_space (str_of rt (get_or "name" (str "") action))

-- the operations of the action; a command drops the test of the selection
unfoldable pub operations_of :
    Runtime → String → Fields → Fields → String → SurfaceState → List String → Result Outcome
unfolding operation point type_text native command_operations command_of one_of
operations_of rt kind action target target_id state evidence_ids = do
  check ← operation "test" "/selected_object_id" state.selected_object_id evidence_ids
  if one_of kind point_kinds
      then native target_id (point kind target_id state evidence_ids) (check ∷ [])
      else if kind == "type"
      then native target_id (type_text rt action target target_id state evidence_ids) (check ∷ [])
      else if kind == "command"
      then command_operations rt (command_of rt action) state evidence_ids
      else err unsupported_action

unfoldable pub intent_summary : Runtime → String → String → Fields → String
unfolding command_of
intent_summary rt kind target_id action =
    if kind == "command"
    then str_append "Execute surface command: " (command_of rt action)
    else str_append "Apply " (str_append kind (str_append " to " target_id))

any_text : List String → Bool
any_text [] = false
any_text (s ∷ l) = true

-- the proposal with its ID from the event, the parent and the operations
unfoldable pub proposal_from :
    Runtime
    → Value
    → SurfaceState
    → ObservationReport
    → String
    → Outcome
    → List PatchOperation
    → PatchProposal
unfolding operation_dicts any_text digest str_of
proposal_from rt event state observation summary outcome operations = record {
  proposal_id = str_append "proposal_" (
      short_digest rt 24 (
        obj (
          dict (
            ("event", event)
            ∷ ("parent", str state.state_hash)
            ∷ ("operations", arr (operation_dicts operations))
            ∷ []))));
  event_id = str_of rt event;
  parent_state_hash = state.state_hash;
  branch = state.branch;
  intent = dict (
      ("summary", str summary)
      ∷ ("confidence", float observation.confidence)
      ∷ ("goal_id", null)
      ∷ []);
  operations = operations;
  expected_postconditions =
      cons
        (obj (dict (("path", str "/logical_time") ∷ ("predicate", str "increments by one") ∷ [])))
        nil;
  invariants_expected_to_hold =
      "state hash is canonical" ∷ "identity and rights boundary unchanged"
      ∷ "selected object exists or is a surface control"
      ∷ "generated pixels remain non-authoritative" ∷ [];
  render_impact = dict (
      ("class", str outcome.render_class)
      ∷ ("affected_object_ids", arr (items outcome.affected))
      ∷ ("affected_regions", empty_list)
      ∷ []);
  uncertainties = observation.unknowns;
  requires_review = any_text observation.contradictions;
  model_id = "rule-patch-proposer-v2";
  schema = "nmsr.patch-proposal/1";
}

unfoldable pub propose : Runtime → Fields → ObservationReport → SurfaceState → Result PatchProposal
unfolding operations_of replace_op intent_summary proposal_from part_of get_or str_of
propose rt packet observation state = do
  action ← part_of "action" packet
  target ← part_of "target" packet
  let kind = str_of rt (get_or "kind" (str "unknown") action)
  let target_id = str_of rt (get_or "node_id" (str "surface.unknown") target)
  let evidence_ids = observation.observation_id ∷ []
  outcome ← operations_of rt kind action target target_id state evidence_ids
  event ← or_raise (lookup "event_id" packet) key_error
  last ←
      replace_op "/layer_state/events/last_action"
        (obj (dict (("kind", str kind) ∷ ("target_id", str target_id) ∷ ("event_id", event) ∷ [])))
        evidence_ids
  ok (
      proposal_from rt event state observation (intent_summary rt kind target_id action) outcome
        (outcome.operations ++ last ∷ []))
