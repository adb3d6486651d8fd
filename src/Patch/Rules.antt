-- ===== src/Patch/Rules.antt =====
-- `validate_proposal`, `validate_state_invariants` and `validate_interaction` of validation.py.
use simulation_ai.Prelude.{String, Bool, true, false, not, ◌&&◌, ◌||◌, List, [], ◌∷◌, ◌==◌}
use simulation_ai.Prelude.Int.{pos, ltb_ℤ}
use simulation_ai.Prelude.Texts.{startswith, strip, is_space, is_empty}
use simulation_ai.Json.{Value, null, str, arr, obj, Fields, end, field, empty_dict, truthy}
use simulation_ai.Json.Dict.{contains, get_or}
use simulation_ai.Json.Equal.{py_eq}
use simulation_ai.Result.{
  Result, ok, err, guard, ◌>>=◌, ◌>>◌, stale_parent, wrong_branch, no_operations, root_replacement,
  unauthorized_path, identity_immutable, objects_wholesale, test_without_value, no_selected_object,
  bad_coherence, negative_entropy, bad_namespace, missing_fields, bad_render_status,
  unsupported_schema, missing_key, not_objects, empty_event_id, unsupported_kind, bad_privacy,
  type_error, attribute_error,
}
use simulation_ai.Result.Loops.{each}
use simulation_ai.Runtime.{Runtime, str_of}
use simulation_ai.Model.{one_of, in_unit}
use simulation_ai.Model.Patch.{PatchOperation, PatchProposal}
use simulation_ai.Model.State.{SurfaceState}
use simulation_ai.Patch.Pointer.{segments}

-- `PROTECTED_ROOTS`
abbrev pub protected_roots : List String
protected_roots =
    "schema_version" ∷ "map_id" ∷ "target" ∷ "profile" ∷ "mode" ∷ "seed" ∷ "logical_time" ∷ "branch"
    ∷ "parent_state_hash" ∷ "state_hash" ∷ "provenance" ∷ []

-- `ALLOWED_ROOTS`
abbrev pub allowed_roots : List String
allowed_roots =
    "selected_object_id" ∷ "active_focus_id" ∷ "objects" ∷ "ui" ∷ "goals" ∷ "plans" ∷ "hypotheses"
    ∷ "claims" ∷ "layer_state" ∷ "render" ∷ []

is_none : Value → Bool
is_none null = true
is_none _ = false

-- `len(segments) > 1 and segments[1] == name`, of the segments behind the root
unfoldable pub second_is : String → List String → Bool
second_is name [] = false
second_is name (s ∷ l) = s == name

unfoldable pub no_more : List String → Bool
no_more [] = true
no_more (s ∷ l) = false

unfoldable pub check_segments : PatchOperation → List String → Result (Unit {0})
unfolding is_none second_is no_more one_of
check_segments o [] = err root_replacement
check_segments o (root ∷ rest) = do
  guard (not (one_of root protected_roots || not (one_of root allowed_roots))) unauthorized_path
  guard (not (root == "layer_state" && second_is "identity" rest)) identity_immutable
  guard (not (root == "objects" && no_more rest)) objects_wholesale
  guard (not (o.op == "test" && is_none o.value)) test_without_value

-- one round of the loop over the operations
unfoldable pub check_path : PatchOperation → Result (Unit {0})
unfolding check_segments segments
check_path o = check_segments o (segments o.path)

unfoldable pub has_operations : List PatchOperation → Bool
has_operations [] = false
has_operations (o ∷ os) = true

unfoldable pub validate_proposal : PatchProposal → SurfaceState → Result (Unit {0})
unfolding has_operations
validate_proposal proposal current = do
  guard (proposal.parent_state_hash == current.state_hash) stale_parent
  guard (proposal.branch == current.branch) wrong_branch
  guard (has_operations proposal.operations) no_operations
  each check_path proposal.operations

-- `v in d`: a list or a dict cannot be hashed, and no value but a text equals a key
unfoldable pub in_dict : Value → Fields → Result Bool
in_dict (str s) d = ok (contains s d)
in_dict (arr xs) d = err type_error
in_dict (obj e) d = err type_error
in_dict _ d = ok false

unfoldable pub check_selected : SurfaceState → Result (Unit {0})
unfolding in_dict
check_selected s = do
  found ← in_dict s.selected_object_id s.objects
  guard (found || py_eq s.selected_object_id (str "surface.command")) no_selected_object

unfoldable pub has_required : Value → Bool
has_required (obj d) = contains "type" d && contains "status" d
has_required _ = false

unfoldable pub check_object : String → Value → Result (Unit {0})
unfolding has_required startswith
check_object object_id value = do
  guard (startswith object_id "node." || startswith object_id "world.") bad_namespace
  guard (has_required value) missing_fields

unfoldable pub check_objects : Fields → Result (Unit {0})
unfolding check_object
check_objects end = ok tt
check_objects (field object_id value d) = check_object object_id value >> check_objects d

-- `v.get(key, default)`
unfoldable pub get_attr : Value → String → Value → Result Value
get_attr (obj d) key default = ok (get_or key default d)
get_attr _ key default = err attribute_error

abbrev pub render_statuses : List String
render_statuses = "verified" ∷ "queued" ∷ "candidate" ∷ "fallback" ∷ "rejected" ∷ []

unfoldable pub check_render : Runtime → SurfaceState → Result (Unit {0})
unfolding get_attr
check_render rt s = do
  status ← get_attr s.render "status" (str "verified")
  guard (one_of (str_of rt status) render_statuses) bad_render_status

unfoldable pub validate_state_invariants : Runtime → SurfaceState → Result (Unit {0})
validate_state_invariants rt s = do
  check_selected s
  guard (in_unit s.coherence) bad_coherence
  guard (not (ltb_ℤ s.entropy_bits (pos 0))) negative_entropy
  check_objects s.objects
  check_render rt s

abbrev pub action_kinds : List String
action_kinds = "click" ∷ "double_click" ∷ "drag" ∷ "scroll" ∷ "type" ∷ "command" ∷ "focus" ∷ []

unfoldable pub as_dict_value : Value → Result Fields
as_dict_value (obj d) = ok d
as_dict_value _ = err not_objects

is_dict : Value → Bool
is_dict (obj d) = true
is_dict _ = false

unfoldable pub validate_interaction : Runtime → Fields → Result (Unit {0})
unfolding as_dict_value is_dict
validate_interaction rt packet = do
  guard (py_eq (get_or "schema" null packet) (str "nmsr.interaction/1")) unsupported_schema
  each (λ key. guard (contains key packet) missing_key)
      ("event_id" ∷ "session_id" ∷ "branch" ∷ "action" ∷ "target" ∷ [])
  action ← as_dict_value (get_or "action" null packet)
  target ← as_dict_value (get_or "target" null packet)
  guard (not (is_empty (strip is_space (str_of rt (get_or "event_id" null packet))))) empty_event_id
  guard (one_of (str_of rt (get_or "kind" (str "") action)) action_kinds) unsupported_kind
  let privacy = get_or "privacy" empty_dict packet
  guard (not (truthy privacy && not (is_dict privacy))) bad_privacy
