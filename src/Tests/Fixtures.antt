-- ===== src/Tests/Fixtures.antt =====
-- A runtime, a first state, its store and two proposals.
use simulation_ai.Prelude.{zero, suc, String, true, false, Option, some, List, [], ◌∷◌, ◌≡◌, refl}
use simulation_ai.Prelude.Int.{pos}
use simulation_ai.Prelude.Texts.{strip, is_space, str_append}
use simulation_ai.Json.{Value, int, str, arr, obj, nil, cons, Fields, end, empty_list, empty_dict}
use simulation_ai.Json.Dict.{lookup}
use simulation_ai.Json.Sort.{sort_fields}
use simulation_ai.Runtime.{Runtime}
use simulation_ai.Model.{dict}
use simulation_ai.Model.Patch.{PatchOperation, PatchProposal}
use simulation_ai.Model.State.{SurfaceState, as_dict}
use simulation_ai.Model.Event.{EventEnvelope}
use simulation_ai.Model.Records.{RenderJob}
use simulation_ai.Store.{Store}
use simulation_ai.Engine.Consistent.{IsHex}

-- A text for each of the first two logical times, and one for all else.
unfoldable pub text_at : Option Value → String
text_at (some (int (pos zero))) = "0000000000000000000000000000000000000000000000000000000000000000"
text_at (some (int (pos (suc zero)))) =
    "1111111111111111111111111111111111111111111111111111111111111111"
text_at _ = "2222222222222222222222222222222222222222222222222222222222222222"

unfoldable pub text_of : Value → String
unfolding text_at lookup
text_of (obj d) = text_at (lookup "logical_time" d)
text_of _ = "2222222222222222222222222222222222222222222222222222222222222222"

abbrev pub test_runtime : Runtime
test_runtime = record {
  sha256 = text_of;
  utc_now = λ n. "2026-01-01T00:00:00Z";
  repr = λ v. "[]";
  title = λ s. s;
  lower = λ s. s;
  is_alnum = λ c. true;
}

text_at-strip : (o : Option Value) → strip is_space (text_at o) ≡ text_at o
unfolding text_at strip is_space
text_at-strip (some (int (pos zero))) = refl
text_at-strip (some (int (pos (suc zero)))) = refl
text_at-strip _ = refl

text_of-strip : (v : Value) → strip is_space (text_of v) ≡ text_of v
unfolding text_of strip is_space
text_of-strip (obj d) = text_at-strip (lookup "logical_time" d)
text_of-strip _ = refl

pub test_runtime-IsHex : IsHex test_runtime
test_runtime-IsHex = record { stripped = text_of-strip }

abbrev pub hash₀ : String
hash₀ = "0000000000000000000000000000000000000000000000000000000000000000"

abbrev pub hash₁ : String
hash₁ = "1111111111111111111111111111111111111111111111111111111111111111"

abbrev pub node : String → Value
node label =
    obj (dict (("type", str "panel") ∷ ("status", str "ready") ∷ ("label", str label) ∷ []))

abbrev pub state₀ : SurfaceState
state₀ = record {
  schema_version = "nmsr.surface-state/2";
  map_id = "map";
  target = "surface";
  profile = "default";
  mode = "live";
  seed = pos 7;
  logical_time = 0;
  branch = "main";
  parent_state_hash = "";
  state_hash = hash₀;
  entropy_bits = pos 1000000;
  coherence = pos 900000;
  selected_object_id = str "node.surface";
  active_focus_id = str "surface.viewport";
  objects = dict (("node.surface", node "Surface") ∷ ("node.renderer", node "Renderer") ∷ []);
  ui = empty_dict;
  goals = empty_list;
  plans = empty_list;
  hypotheses = empty_list;
  claims = empty_list;
  layer_state = obj (
      dict
        (("identity", obj (dict (("name", str "surface") ∷ []))) ∷ ("meta_model", obj end) ∷ []));
  render = obj (dict (("status", str "verified") ∷ []));
  provenance = empty_dict;
}

abbrev pub event₀ : EventEnvelope
event₀ = record {
  index = 1;
  event_id = "evt_genesis";
  action = "genesis";
  arguments = end;
  target_id = "node.surface";
  logical_time = 0;
  parent_state_hash = hash₀;
  resulting_state_hash = hash₀;
  branch = "main";
  evidence_ids = [];
  proposal_id = "";
  epistemic_class = "observed";
  status = "committed";
  actor = "surface-core";
  created_at = "2026-01-01T00:00:00Z";
  event_hash = hash₀;
}

abbrev pub store₀ : Store
store₀ = record {
  states = (hash₀, sort_fields (as_dict state₀)) ∷ [];
  refs = ("HEAD", str_append hash₀ "\n") ∷ ("branch-main", hash₀) ∷ [];
  events = event₀ ∷ [];
  evidence = [];
  proposals = [];
  memories = [];
  render_jobs = [];
  frames = [];
  ticks = 0;
}

abbrev pub patch_operation : String → String → Value → PatchOperation
patch_operation op path value = record {
  op = op;
  path = path;
  value = value;
  evidence_ids = [];
  epistemic_class = "observed";
  confidence = pos 1000000;
}

abbrev pub proposal_of : String → List PatchOperation → PatchProposal
proposal_of mode operations = record {
  proposal_id = "proposal_1";
  event_id = "evt_1";
  parent_state_hash = hash₀;
  branch = "main";
  intent = end;
  operations = operations;
  expected_postconditions = nil;
  invariants_expected_to_hold = [];
  render_impact =
      dict
        (("class", str mode) ∷ ("affected_object_ids", arr (cons (str "node.surface") nil)) ∷ []);
  uncertainties = [];
  requires_review = false;
  model_id = "external";
  schema = "nmsr.patch-proposal/1";
}

-- A test, a change below an object and a new layer entry.
abbrev pub proposal₁ : PatchProposal
proposal₁ = proposal_of "native_ui" (
    patch_operation "test" "/objects/node.surface/status" (str "ready")
    ∷ patch_operation "replace" "/objects/node.surface/status" (str "active")
    ∷ patch_operation "add" "/layer_state/meta_model/note" (str "x")
    ∷ [])

-- A job of the first state that a model has to render, and a verdict.
abbrev pub queued_job : RenderJob
queued_job = record {
  job_id = "render_1";
  event_id = "evt_genesis";
  state_hash = hash₀;
  branch = "main";
  mode = "new_keyframe";
  status = "queued";
  base_frame_id = "frame_genesis";
  affected_object_ids = "node.surface" ∷ [];
  semantic_changes = [];
  prompt = "";
  mask_bounds = nil;
  preserve_anchors = "node.renderer" ∷ [];
  forbidden_changes = [];
  retries = 0;
  max_retries = 2;
  verification = end;
  created_at = "2026-01-01T00:00:00Z";
  updated_at = "2026-01-01T00:00:00Z";
}

abbrev pub verdict : String → Fields
verdict outcome = dict (("decision", str outcome) ∷ [])

abbrev pub passed : Fields
passed = verdict "pass"
