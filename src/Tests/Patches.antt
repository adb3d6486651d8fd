-- ===== src/Tests/Patches.antt =====
-- Runs of patches, and of the theorems on them.
use simulation_ai.Prelude.{true, String, false, Option, some, List, [], ◌∷◌, ◌≡◌, refl}
use simulation_ai.Json.{Value, Fields, str, obj, end, null}
use simulation_ai.Json.Dict.{lookup, put}
use simulation_ai.Result.{ok}
use simulation_ai.Model.{dict}
use simulation_ai.Model.Patch.{PatchOperation}
use simulation_ai.Model.State
use simulation_ai.Model.State.{SurfaceState, as_dict, from_dict}
use simulation_ai.Patch.{
  apply_proposal, apply_operation, validate_proposal, validate_state_invariants,
}
use simulation_ai.Result.Loops.{each, fold}
use simulation_ai.Patch.{
  check_path, get, child, set, set_in, with_child, stamp, check_selected, check_objects,
  check_render, list_place, remove, remove_in, segments, check_object, check_segments, get_attr,
  has_operations, has_required, in_dict, no_more, second_is, as_object,
}
use simulation_ai.Json.Equal.{py_eq, number}
use simulation_ai.Json.Dict.{contains, erase, get_or, size}
use simulation_ai.Json.Lists.{
  append_item, count, delete_item, insert_item, insert_place, item_at, place, set_item,
}
use simulation_ai.Json.Sort.{insert_field, sort_keys, str_lt}
use simulation_ai.Model.{in_unit, one_of}
use simulation_ai.Runtime.{str_of, digest, show_nat}
use simulation_ai.Prelude.Texts.{
  is_space, lstrip, py_int, replace_pair, rstrip, split, startswith, strip,
}
use simulation_ai.Patch.Lens.{get-set, Apart, parts, below}
use simulation_ai.Patch.Framed.{get-apply_operation}
use simulation_ai.Patch.Identity.{replace_layers, relayered, apply_proposal-replace_layers}
use simulation_ai.Patch.Layers.{apply_proposal-identity}
use simulation_ai.Prelude.{◌≢◌, arith, eq_iff}
use simulation_ai.Prelude.Lists.{All}
use simulation_ai.Adapters.{part_of}
use simulation_ai.Adapters.Propose.{propose}
use simulation_ai.Adapters.Secrets.{propose-secret}
use simulation_ai.Model.Records.{ObservationReport}
use simulation_ai.Prelude.Int.{pos}
use simulation_ai.Json.{bool, int, nil, truthy}
use simulation_ai.Tests.Fixtures.{
  text_of, test_runtime, hash₀, hash₁, node, state₀, proposal₁, patch_operation,
}

abbrev state₁ : SurfaceState
state₁ = record state₀ {
  logical_time = 1;
  parent_state_hash = hash₀;
  state_hash = hash₁;
  objects = dict (
      (
        "node.surface",
        obj (
            dict
              (("type", str "panel") ∷ ("status", str "active") ∷ ("label", str "Surface") ∷ [])),
      )
      ∷ ("node.renderer", node "Renderer")
      ∷ []);
  layer_state = obj (
      dict (
        ("identity", obj (dict (("name", str "surface") ∷ [])))
        ∷ ("meta_model", obj (dict (("note", str "x") ∷ [])))
        ∷ []));
}

applied : apply_proposal test_runtime state₀ proposal₁ ≡ ok state₁
unfolding text_of apply_proposal State.seal as_dict from_dict validate_proposal apply_operation
    validate_state_invariants each fold check_path get child py_eq set set_in contains with_child
    put stamp check_selected in_unit check_objects check_render str_of erase get_or lookup size
    number append_item count delete_item insert_item insert_place item_at place set_item
    insert_field sort_keys str_lt State.count_field State.dict_field State.empty_layers
    State.float_field State.int_field State.known_names State.payload State.text_field
    State.value_field one_of list_place remove remove_in segments check_object check_segments
    get_attr has_operations has_required in_dict no_more second_is as_object is_space lstrip py_int
    replace_pair rstrip split startswith strip digest show_nat
applied = refl

state₀-valid : validate_state_invariants test_runtime state₀ ≡ ok tt
unfolding validate_state_invariants check_selected check_objects check_object check_render in_dict
    contains in_unit has_required startswith get_attr get_or lookup one_of str_of
state₀-valid = refl

apply_proposal-replace_layers_example :
    apply_proposal test_runtime state₀ (replace_layers state₀ (obj end))
    ≡ ok (State.seal test_runtime (relayered state₀ (obj end)))
apply_proposal-replace_layers_example =
    apply_proposal-replace_layers test_runtime state₀ (obj end) state₀-valid

document : Value
document = obj state₀.objects

renamed : Value
renamed = obj (
    put "node.surface"
      (obj (dict (("type", str "panel") ∷ ("status", str "ready") ∷ ("label", str "Desk") ∷ [])))
      state₀.objects)

label_path : List String
label_path = "node.surface" ∷ "label" ∷ []

label_set : set document label_path (str "Desk") false ≡ ok renamed
unfolding set document renamed label_path child with_child set_in lookup put contains
label_set = refl

get-set_example : get renamed label_path ≡ ok (str "Desk")
get-set_example = get-set document label_path (str "Desk") label_set

labels-Apart : Apart document label_path ("node.surface" ∷ "status" ∷ [])
unfolding document label_path child lookup
labels-Apart =
    below (node "Surface") "node.surface" refl
      (parts (as_fields (node "Surface")) "label" "status" [] [] refl differ)
  where
    as_fields : Value → Fields
    as_fields (obj d) = d
    as_fields _ = end

    differ : ◌≢◌ {A = String} "label" "status"
    differ = ground (arith, eq_iff "label" "status")

unlabelled : Value
unlabelled = obj (
    put "node.surface" (obj (dict (("type", str "panel") ∷ ("status", str "ready") ∷ [])))
      state₀.objects)

abbrev no_label : PatchOperation
no_label = patch_operation "remove" "/node.surface/label" null

label_removed : apply_operation document no_label ≡ ok unlabelled
unfolding apply_operation segments remove document unlabelled child with_child remove_in lookup put
    contains erase
label_removed = refl

get-apply_operation_example :
    get unlabelled ("node.surface" ∷ "status" ∷ []) ≡ get document ("node.surface" ∷ "status" ∷ [])
unfolding segments label_path
get-apply_operation_example =
    get-apply_operation document no_label ("node.surface" ∷ "status" ∷ []) labels-Apart
      label_removed

not_one : (a b c : String) (l : List String) → a ∷ b ∷ l ≢ c ∷ []
not_one a b c l = λ e. cc

identity_entry : Option Value
identity_entry = some (obj (dict (("name", str "surface") ∷ [])))

layers₀ : Fields
layers₀ =
    dict (("identity", obj (dict (("name", str "surface") ∷ []))) ∷ ("meta_model", obj end) ∷ [])

below_layers : All (λ o. segments o.path ≢ "layer_state" ∷ []) proposal₁.operations
unfolding segments split replace_pair
below_layers = (not_one _ _ _ _, (not_one _ _ _ _, (not_one _ _ _ _, tt)))

apply_proposal-identity_example :
    (layers' : Fields) × (state₁.layer_state ≡ obj layers')
    × (lookup "identity" layers' ≡ lookup "identity" layers₀)
unfolding layers₀
apply_proposal-identity_example =
    apply_proposal-identity test_runtime state₀ proposal₁ layers₀ refl below_layers applied

-- Typing into a password field.
typing : Fields
typing = dict (("kind", str "type") ∷ ("typed_character_count", int (pos 6)) ∷ [])

password : Fields
password = dict (("node_id", str "node.surface") ∷ ("sensitive", bool true) ∷ [])

typed_packet : Fields
typed_packet = dict (("event_id", str "evt_1") ∷ ("target", obj password) ∷ [])

seen : ObservationReport
seen = record {
  observation_id = "obs_1";
  event_id = "evt_1";
  logical_time = 1;
  branch = "main";
  action = end;
  before = end;
  after = end;
  candidate_effects = nil;
  contradictions = [];
  unknowns = [];
  confidence = pos 1000000;
  source = "deterministic-observer-v1";
  schema = "nmsr.observation/1";
}

password_read : part_of "target" typed_packet ≡ ok password
unfolding part_of get_or lookup typed_packet
password_read = refl

password_sensitive : truthy (get_or "sensitive" (bool false) password) ≡ true
unfolding get_or lookup password truthy
password_sensitive = refl

typing_kind : str_of test_runtime (get_or "kind" (str "unknown") typing) ≡ "type"
unfolding get_or lookup typing str_of
typing_kind = refl

propose-secret_example :
    propose test_runtime
      (put "action" (obj (put "text" (str "secret") typing)) typed_packet)
      seen
      state₀
    ≡ propose test_runtime (put "action" (obj typing) typed_packet) seen state₀
propose-secret_example =
    propose-secret test_runtime typed_packet typing password (str "secret") seen state₀
      password_read password_sensitive typing_kind
