-- ===== src/Model/State.antt =====
-- `SurfaceState` of model.py. Under an annotation such as `str` any JSON value may stand in a field
-- that a patch can write, so those fields are values, but for `objects`, whose root no patch
-- replaces. `entropy_bits` and `coherence` are in millionths.
pub mod RoundTrip
use simulation_ai.Prelude.{ℕ, String, Bool, true, false, ◌&&◌, Option, none, some, List, [], ◌∷◌}
use simulation_ai.Prelude.Int.{ℤ, pos}
use simulation_ai.Json.{
  Value, null, bool, int, float, str, arr, obj, nil, Fields, end, field, empty_dict, empty_list,
}
use simulation_ai.Json.Dict.{lookup}
use simulation_ai.Result.{Result, ok, err, guard, ◌>>=◌, ◌>>◌, type_error}
use simulation_ai.Runtime.{Runtime, digest}
use simulation_ai.Model.{dict, one_of, layer_names}

pub record SurfaceState : Type 0 where
  pub schema_version : String
  pub map_id : String
  pub target : String
  pub profile : String
  pub mode : String
  pub seed : ℤ
  pub logical_time : ℕ
  pub branch : String
  pub parent_state_hash : String
  pub state_hash : String
  pub entropy_bits : ℤ
  pub coherence : ℤ
  pub selected_object_id : Value
  pub active_focus_id : Value
  pub objects : Fields
  pub ui : Value
  pub goals : Value
  pub plans : Value
  pub hypotheses : Value
  pub claims : Value
  pub layer_state : Value
  pub render : Value
  pub provenance : Value

-- `asdict`
unfoldable pub as_dict : SurfaceState → Fields
as_dict s = dict (
    ("schema_version", str s.schema_version)
    ∷ ("map_id", str s.map_id)
    ∷ ("target", str s.target)
    ∷ ("profile", str s.profile)
    ∷ ("mode", str s.mode)
    ∷ ("seed", int s.seed)
    ∷ ("logical_time", int (pos s.logical_time))
    ∷ ("branch", str s.branch)
    ∷ ("parent_state_hash", str s.parent_state_hash)
    ∷ ("state_hash", str s.state_hash)
    ∷ ("entropy_bits", float s.entropy_bits)
    ∷ ("coherence", float s.coherence)
    ∷ ("selected_object_id", s.selected_object_id)
    ∷ ("active_focus_id", s.active_focus_id)
    ∷ ("objects", obj s.objects)
    ∷ ("ui", s.ui)
    ∷ ("goals", s.goals)
    ∷ ("plans", s.plans)
    ∷ ("hypotheses", s.hypotheses)
    ∷ ("claims", s.claims)
    ∷ ("layer_state", s.layer_state)
    ∷ ("render", s.render)
    ∷ ("provenance", s.provenance)
    ∷ [])

unfoldable pub payload : SurfaceState → Value
unfolding as_dict
payload s = obj (as_dict (record s { state_hash = "" }))

unfoldable pub seal : Runtime → SurfaceState → SurfaceState
unfolding payload digest
seal rt s = record s { state_hash = digest rt (payload s) }

-- The names that `SurfaceState(**value)` accepts; any other is a TypeError.
abbrev pub field_names : List String
field_names =
    "schema_version" ∷ "map_id" ∷ "target" ∷ "profile" ∷ "mode" ∷ "seed" ∷ "logical_time" ∷ "branch"
    ∷ "parent_state_hash" ∷ "state_hash" ∷ "entropy_bits" ∷ "coherence" ∷ "selected_object_id"
    ∷ "active_focus_id" ∷ "objects" ∷ "ui" ∷ "goals" ∷ "plans" ∷ "hypotheses" ∷ "claims"
    ∷ "layer_state" ∷ "render" ∷ "provenance" ∷ []

unfoldable pub known_names : Fields → Bool
unfolding one_of
known_names end = true
known_names (field k v d) = one_of k field_names && known_names d

unfoldable pub text_field : String → String → Fields → Result String
unfolding lookup
text_field k default d = elim (lookup k d) [
  | none ↦ ok default
  | some v ↦ elim v [ str s ↦ ok s | _ ↦ err type_error ]
]

unfoldable pub int_field : String → ℤ → Fields → Result ℤ
unfolding lookup
int_field k default d = elim (lookup k d) [
  | none ↦ ok default
  | some v ↦ elim v [ int n ↦ ok n | _ ↦ err type_error ]
]

unfoldable pub count_field : String → ℕ → Fields → Result ℕ
unfolding lookup
count_field k default d = elim (lookup k d) [
  | none ↦ ok default
  | some v ↦ elim v [ int n ↦ elim n [ pos m ↦ ok m | _ ↦ err type_error ] | _ ↦ err type_error ]
]

unfoldable pub float_field : String → ℤ → Fields → Result ℤ
unfolding lookup
float_field k default d = elim (lookup k d) [
  | none ↦ ok default
  | some v ↦ elim v [ float m ↦ ok m | _ ↦ err type_error ]
]

unfoldable pub dict_field : String → Fields → Fields → Result Fields
unfolding lookup
dict_field k default d = elim (lookup k d) [
  | none ↦ ok default
  | some v ↦ elim v [ obj e ↦ ok e | _ ↦ err type_error ]
]

unfoldable pub value_field : String → Value → Fields → Value
unfolding lookup
value_field k default d = elim (lookup k d) [ none ↦ default | some v ↦ v ]

unfoldable pub empty_layers : List String → Fields
empty_layers [] = end
empty_layers (name ∷ names) = field name empty_dict (empty_layers names)

-- `SurfaceState(**value)`: a missing name takes the default of the class. A value of another type
-- than the annotation, in a field that no patch can write, counts as an error.
unfoldable pub from_dict : Fields → Result SurfaceState
unfolding known_names text_field int_field count_field float_field dict_field value_field
    empty_layers
from_dict d = do
  guard (known_names d) type_error
  schema_version ← text_field "schema_version" "nmsr.surface-state/2" d
  map_id ← text_field "map_id" "simulation-ai" d
  target ← text_field "target" "semantic-topology" d
  profile ← text_field "profile" "world-surface-studio" d
  mode ← text_field "mode" "hybrid" d
  seed ← int_field "seed" (pos 42) d
  logical_time ← count_field "logical_time" 0 d
  branch ← text_field "branch" "main" d
  parent_state_hash ← text_field "parent_state_hash" "" d
  state_hash ← text_field "state_hash" "" d
  entropy_bits ← float_field "entropy_bits" (pos 720000) d
  coherence ← float_field "coherence" (pos 940000) d
  objects ← dict_field "objects" end d
  ok (record {
    schema_version = schema_version;
    map_id = map_id;
    target = target;
    profile = profile;
    mode = mode;
    seed = seed;
    logical_time = logical_time;
    branch = branch;
    parent_state_hash = parent_state_hash;
    state_hash = state_hash;
    entropy_bits = entropy_bits;
    coherence = coherence;
    selected_object_id = value_field "selected_object_id" (str "node.surface") d;
    active_focus_id = value_field "active_focus_id" (str "surface.viewport") d;
    objects = objects;
    ui = value_field "ui" empty_dict d;
    goals = value_field "goals" empty_list d;
    plans = value_field "plans" empty_list d;
    hypotheses = value_field "hypotheses" empty_list d;
    claims = value_field "claims" empty_list d;
    layer_state = value_field "layer_state" (obj (empty_layers layer_names)) d;
    render = value_field "render" empty_dict d;
    provenance = value_field "provenance" empty_dict d;
  })
