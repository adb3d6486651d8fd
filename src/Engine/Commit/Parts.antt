-- ===== src/Engine/Commit/Parts.antt =====
-- The parts of `commit_proposal` that read and write no store.
use simulation_ai.Prelude.{
  ℕ, String, Bool, true, false, Option, none, some, List, [], ◌∷◌, ◌==◌, if◌then◌else◌,
}
use simulation_ai.Prelude.Int.{ℤ, pos, negsuc, ◌+ℤ◌, ltb_ℤ}
use simulation_ai.Prelude.Texts.{str_append}
use simulation_ai.Json.{Value, str, obj, nil, Fields, end, empty_dict}
use simulation_ai.Json.Dict.{get_or}
use simulation_ai.Result.{Result, ok, ◌>>=◌}
use simulation_ai.Runtime.{Runtime, str_of, short_digest, digest}
use simulation_ai.Model.{dict}
use simulation_ai.Model.Patch.{PatchProposal}
use simulation_ai.Model.State.{SurfaceState, seal}
use simulation_ai.Model.Event
use simulation_ai.Model.Event.{EventEnvelope}
use simulation_ai.Model.Records.{ObservationReport, FrameManifest, seal_frame}
use simulation_ai.Patch.{get_attr}
use simulation_ai.Render.{status_of, render_id}
use simulation_ai.Engine.Clock.{put_item}
use simulation_ai.Engine.Packet.{as_attrs}

unfoldable pub max_ℤ : ℤ → ℤ → ℤ
max_ℤ a b = if ltb_ℤ a b then b else a

unfoldable pub min_ℤ : ℤ → ℤ → ℤ
min_ℤ a b = if ltb_ℤ b a then b else a

has_any : List String → Bool
has_any [] = false
has_any (s ∷ l) = true

-- the entropy and the coherence behind the proposal, in millionths
unfoldable pub adjusted : SurfaceState → PatchProposal → SurfaceState → SurfaceState
unfolding max_ℤ min_ℤ has_any ◌+ℤ◌
adjusted current proposal next = record next {
  entropy_bits =
      max_ℤ (pos 0) (
        current.entropy_bits
        +ℤ (if has_any proposal.uncertainties then pos 25000 else negsuc 5999));
  coherence = max_ℤ (pos 0) (
      min_ℤ (pos 1000000)
        (current.coherence +ℤ (if proposal.requires_review then negsuc 17999 else negsuc 999)));
}

unfoldable pub render_mode : Runtime → PatchProposal → String
unfolding str_of get_or
render_mode rt proposal = str_of rt (get_or "class" (str "native_ui") proposal.render_impact)

unfoldable pub render_status : Runtime → PatchProposal → String
unfolding render_mode status_of
render_status rt proposal = status_of (render_mode rt proposal)

-- the three writes to `next_state.render`, and the first seal
unfoldable pub mark_render : Runtime → PatchProposal → SurfaceState → Result SurfaceState
unfolding put_item render_mode render_status seal render_id
mark_render rt proposal next = do
  r₁ ← put_item next.render "status" (str (render_status rt proposal))
  r₂ ← put_item r₁ "requested_mode" (str (render_mode rt proposal))
  r₃ ←
      put_item r₂ "pending_job_id"
        (str (if render_status rt proposal == "queued" then render_id rt proposal else ""))
  ok (seal rt (record next { render = r₃ }))

-- `packet or {}`
packet_or : Option Fields → Fields
packet_or none = end
packet_or (some packet) = packet

-- `(packet or {}).get(key, {})`, whose `get` is called next
unfoldable pub packet_part : String → Option Fields → Result Fields
unfolding packet_or as_attrs get_or
packet_part key packet = as_attrs (get_or key empty_dict (packet_or packet))

as_fields : Fields → Value → Fields
as_fields default (obj d) = d
as_fields default _ = default

-- `(packet or {}).get("action", {"kind": kind})`, once `packet_part` has shown it to be a dict
unfoldable pub arguments_of : String → Option Fields → Fields
unfolding packet_or as_fields get_or
arguments_of kind packet =
    let default = dict (("kind", str kind) ∷ []) in
    as_fields default (get_or "action" (obj default) (packet_or packet))

evidence_of : Option ObservationReport → List String
evidence_of none = []
evidence_of (some observation) = observation.observation_id ∷ []

unfoldable pub event_of :
    Runtime
    → String
    → ℕ
    → String
    → Fields
    → String
    → SurfaceState
    → SurfaceState
    → PatchProposal
    → Option ObservationReport
    → EventEnvelope
unfolding evidence_of
event_of rt created_at index kind arguments target_id current next proposal observation =
    Event.seal rt (record {
      index = index;
      event_id = proposal.event_id;
      action = kind;
      arguments = arguments;
      target_id = target_id;
      logical_time = next.logical_time;
      parent_state_hash = current.state_hash;
      resulting_state_hash = next.state_hash;
      branch = next.branch;
      evidence_ids = evidence_of observation;
      proposal_id = proposal.proposal_id;
      epistemic_class = if proposal.requires_review then "inferred" else "observed";
      status = "committed";
      actor = "operator";
      created_at = created_at;
      event_hash = "";
    })

unfoldable pub base_frame : Runtime → SurfaceState → Result String
unfolding str_of get_attr
base_frame rt current = do
  frame_id ← get_attr current.render "committed_frame_id" (str "frame_genesis")
  ok (str_of rt frame_id)

-- the state with the frame committed, sealed again
unfoldable pub present_frame : Runtime → FrameManifest → SurfaceState → Result SurfaceState
unfolding put_item seal
present_frame rt frame next = do
  r ← put_item next.render "committed_frame_id" (str frame.frame_id)
  ok (seal rt (record next { render = r }))

unfoldable pub frame_at : Runtime → String → FrameManifest → FrameManifest
unfolding seal_frame
frame_at rt state_hash frame =
    seal_frame rt (record frame { state_hash = state_hash; frame_hash = "" })

-- the observation that stands in for a missing one
unfoldable pub observation_or :
    Runtime → EventEnvelope → Option ObservationReport → ObservationReport
unfolding digest
observation_or rt event (some observation) = observation
observation_or rt event none = record {
  observation_id = str_append "obs_" (short_digest rt 24 (str event.event_hash));
  event_id = event.event_id;
  logical_time = event.logical_time;
  branch = event.branch;
  action = dict (("kind", str event.action) ∷ ("target_id", str event.target_id) ∷ []);
  before = end;
  after = end;
  candidate_effects = nil;
  contradictions = [];
  unknowns = [];
  confidence = pos 700000;
  source = "commit-boundary";
  schema = "nmsr.observation/1";
}
