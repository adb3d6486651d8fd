-- ===== src/Engine/Verify/Parts.antt =====
-- The state and the event of a verdict on a rendered candidate.
use simulation_ai.Prelude.{ℕ, suc, String, Option, none, some, [], ◌∷◌, ◌==◌, if◌then◌else◌}
use simulation_ai.Prelude.Int.{pos}
use simulation_ai.Prelude.Texts.{str_append}
use simulation_ai.Json.{Value, int, str, obj, Fields}
use simulation_ai.Json.Dict.{lookup, put}
use simulation_ai.Result.{Result, ok, or_raise, ◌>>=◌, key_error}
use simulation_ai.Runtime.{Runtime, short_digest, digest}
use simulation_ai.Model.{dict}
use simulation_ai.Model.State.{SurfaceState, seal}
use simulation_ai.Model.Event
use simulation_ai.Model.Event.{EventEnvelope}
use simulation_ai.Model.Records.{RenderJob, FrameManifest}
use simulation_ai.Render.{outcome_of}
use simulation_ai.Engine.Clock.{put_item}

unfoldable pub commit_frame : Option FrameManifest → Value → Result Value
unfolding put_item
commit_frame none render = ok render
commit_frame (some frame) render = put_item render "committed_frame_id" (str frame.frame_id)

-- `next_state.objects["node.renderer"]["status"] = status`
unfoldable pub mark_renderer : String → Fields → Result Fields
unfolding put_item lookup
mark_renderer status objects = do
  renderer ← or_raise (lookup "node.renderer" objects) key_error
  renderer' ← put_item renderer "status" (str status)
  ok (put "node.renderer" renderer' objects)

-- the state behind a verdict
unfoldable pub verdict_state :
    Runtime → SurfaceState → RenderJob → Option FrameManifest → Result SurfaceState
unfolding put_item mark_renderer commit_frame seal
verdict_state rt state updated frame = do
  r₁ ← put_item state.render "status" (str updated.status)
  r₂ ←
      put_item r₁ "pending_job_id" (str (if updated.status == "queued" then updated.job_id else ""))
  objects ← mark_renderer updated.status state.objects
  r₃ ← commit_frame frame r₂
  ok (
      seal rt (record state {
        parent_state_hash = state.state_hash;
        logical_time = suc state.logical_time;
        objects = objects;
        render = r₃;
      }))

unfoldable pub verify_event :
    Runtime → String → ℕ → String → Fields → SurfaceState → SurfaceState → EventEnvelope
unfolding digest outcome_of
verify_event rt created_at index job_id decision state next = Event.seal rt (record {
  index = index;
  event_id = str_append "evt_verify_" (
      short_digest rt 18 (
        obj (
          dict (
            ("job", str job_id)
            ∷ ("decision", obj decision)
            ∷ ("time", int (pos next.logical_time))
            ∷ []))));
  action = "render:verify";
  arguments = dict (("job_id", str job_id) ∷ ("decision", str (outcome_of rt decision)) ∷ []);
  target_id = "node.renderer";
  logical_time = next.logical_time;
  parent_state_hash = state.state_hash;
  resulting_state_hash = next.state_hash;
  branch = next.branch;
  evidence_ids = [];
  proposal_id = "";
  epistemic_class = "observed";
  status = "committed";
  actor = "frame-verifier";
  created_at = created_at;
  event_hash = "";
})
