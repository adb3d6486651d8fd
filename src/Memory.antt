-- ===== src/Memory.antt =====
-- `memory_from_transition` of memory.py.
pub mod Query
use simulation_ai.Prelude.{ℕ, String, List, [], ◌∷◌}
use simulation_ai.Prelude.Texts.{str_append}
use simulation_ai.Json.{str, obj, end}
use simulation_ai.Json.Dict.{get_or}
use simulation_ai.Result.{Result, ok, ◌>>=◌, ◌>>◌}
use simulation_ai.Runtime.{Runtime, short_digest, digest, str_of, show_nat}
use simulation_ai.Model.{dict}
use simulation_ai.Model.State.{SurfaceState}
use simulation_ai.Model.Event.{EventEnvelope}
use simulation_ai.Model.Records.{ObservationReport, MemoryRecord, check_record}
use simulation_ai.Patch.{get_attr}
use simulation_ai.Render.{join}

-- `"contradiction"` where the observation has one
unfoldable pub memory_type_of : List String → String
memory_type_of [] = "episodic"
memory_type_of (c ∷ cs) = "contradiction"

summary_of : String → String → ℕ → List String → String
unfolding join show_nat
summary_of action label logical_time contradictions =
    let plain = str_append action (
      str_append " on " (
        str_append label
          (str_append " committed at logical time " (str_append (show_nat logical_time) ".")))) in
    unresolved plain contradictions
  where
    unresolved : String → List String → String
    unresolved plain [] = plain
    unresolved plain (c ∷ cs) = str_append plain (str_append " Unresolved: " (join "; " (c ∷ cs)))

unfoldable pub memory_from_transition :
    Runtime → String → EventEnvelope → ObservationReport → SurfaceState → Result MemoryRecord
unfolding memory_type_of summary_of check_record get_or get_attr str_of digest
memory_from_transition rt created_at event observation state = do
  label ← get_attr (get_or event.target_id (obj end) state.objects) "label" (str event.target_id)
  let memory_type = memory_type_of observation.contradictions
  check_record event.epistemic_class observation.confidence
  ok (record {
    memory_id = str_append "mem_" (
        short_digest rt 24
          (obj (dict (("event", str event.event_hash) ∷ ("type", str memory_type) ∷ []))));
    memory_type = memory_type;
    branch_scope = state.branch;
    summary =
        summary_of event.action (str_of rt label) event.logical_time observation.contradictions;
    evidence_ids = event.evidence_ids;
    state_hashes = event.parent_state_hash ∷ event.resulting_state_hash ∷ [];
    object_ids = event.target_id ∷ [];
    confidence = observation.confidence;
    epistemic_class = event.epistemic_class;
    retention = "persistent";
    tags = event.action ∷ event.target_id ∷ state.branch ∷ [];
    supersedes = [];
    contradicts = [];
    logical_time = event.logical_time;
    created_at = created_at;
  })
