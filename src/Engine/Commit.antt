-- ===== src/Engine/Commit.antt =====
-- `commit_proposal`: the proposal is applied, the render job planned and the event sealed; then
-- everything is written, and the refs move last.
mod Parts
unfoldable pub use Parts.{
  adjusted, render_mode, render_status, mark_render, packet_part, arguments_of, event_of,
  base_frame, present_frame, frame_at, observation_or,
}
use simulation_ai.Prelude.{
  ℕ, suc, ◌+◌, String, Bool, not, ◌&&◌, Option, none, some, List, [], ◌∷◌, ◌==◌, if◌then◌else◌,
}
use simulation_ai.Prelude.Texts.{str_append}
use simulation_ai.Prelude.Lists.{length}
use simulation_ai.Json.{Value, str, Fields}
use simulation_ai.Json.Dict.{get_or}
use simulation_ai.Result.{guard, duplicate_event, inconsistent_job}
use simulation_ai.Runtime.{Runtime, str_of}
use simulation_ai.Model.Patch.{PatchProposal}
use simulation_ai.Model.State.{SurfaceState, seal}
use simulation_ai.Model.Event
use simulation_ai.Model.Event.{EventEnvelope}
use simulation_ai.Model.Records.{ObservationReport, MemoryRecord, RenderJob, FrameManifest}
use simulation_ai.Patch.{apply_proposal}
use simulation_ai.Render.{build_render_job, native_frame_for, render_id}
use simulation_ai.Memory.{memory_from_transition}
use simulation_ai.Store.{Store}
use simulation_ai.Store.States.{save_state, set_ref}
use simulation_ai.Store.Log.{list_events, append_event, event_id_exists}
use simulation_ai.Store.Files.{save_frame, save_render_job, save_memory}
use simulation_ai.Exec.{Exec, pure, lift, reads, modify, writes, ◌>>=◌, ◌>>◌}
use simulation_ai.Engine.Clock.{now, current}

-- What a commit is about to write.
pub record Plan : Type 0 where
  pub next_state : SurfaceState
  pub event : EventEnvelope
  pub job : RenderJob
  pub frame : Option FrameManifest

-- the end of the plan for a job that a model has to render
unfoldable pub plan_queued : Runtime → SurfaceState → EventEnvelope → RenderJob → Plan
plan_queued rt next event job = record {
  next_state = next;
  event = Event.seal rt (record event { resulting_state_hash = next.state_hash });
  job = record job { state_hash = next.state_hash };
  frame = none;
}

-- the end of the plan for a native job, whose frame is committed with the state
unfoldable pub plan_verified :
    Runtime → SurfaceState → EventEnvelope → RenderJob → String → Exec Store Plan
plan_verified rt next event job base_frame_id = do
  created_at ← now rt
  frame ← lift (native_frame_for rt created_at job next base_frame_id)
  shown ← lift (present_frame rt frame next)
  pure (record {
    next_state = shown;
    event = Event.seal rt (record event { resulting_state_hash = shown.state_hash });
    job = record job { state_hash = shown.state_hash };
    frame = some (frame_at rt shown.state_hash frame);
  })

unfoldable pub plan_job :
    Runtime → SurfaceState → SurfaceState → EventEnvelope → PatchProposal → Exec Store Plan
unfolding plan_queued plan_verified render_id
plan_job rt cur next event proposal = do
  base_frame_id ← lift (base_frame rt cur)
  created_at ← now rt
  updated_at ← now rt
  job ← lift (build_render_job rt created_at updated_at proposal next base_frame_id)
  lift (
      guard (job.job_id == render_id rt proposal && job.status == render_status rt proposal)
        inconsistent_job)
  if job.status == "verified"
      then plan_verified rt next event job base_frame_id
      else pure (plan_queued rt next event job)

-- everything up to the first write
unfoldable pub plan_commit :
    Runtime
    → SurfaceState
    → SurfaceState
    → PatchProposal
    → Option Fields
    → Option ObservationReport
    → Exec Store Plan
unfolding plan_job
plan_commit rt cur applied proposal packet observation = do
  next ← lift (mark_render rt proposal (adjusted cur proposal applied))
  action ← lift (packet_part "action" packet)
  target ← lift (packet_part "target" packet)
  events ← reads (list_events none none)
  created_at ← now rt
  let kind = str_of rt (get_or "kind" (str "proposal") action)
  let target_id = str_of rt (get_or "node_id" next.selected_object_id target)
  let event =
      event_of rt created_at (suc (length events)) kind (arguments_of kind packet) target_id cur
        next proposal observation
  duplicate ← reads (event_id_exists event.event_id)
  lift (guard (not duplicate) duplicate_event)
  plan_job rt cur next event proposal

unfoldable pub save_frame_of : Runtime → Option FrameManifest → Exec Store (Unit {0})
save_frame_of rt none = pure tt
save_frame_of rt (some frame) = writes (save_frame rt frame)

-- the writes, in their order
unfoldable pub write_plan : Runtime → Plan → Exec Store (Unit {0})
unfolding save_frame_of
write_plan rt plan = do
  save_frame_of rt plan.frame
  writes (save_state rt plan.next_state)
  modify (append_event plan.event)
  writes (save_render_job plan.job)
  writes (set_ref "HEAD" plan.next_state.state_hash)
  writes (set_ref (str_append "branch-" plan.next_state.branch) plan.next_state.state_hash)

-- the memory of the transition, written last
unfoldable pub remember : Runtime → Plan → Option ObservationReport → Exec Store MemoryRecord
remember rt plan observation = do
  created_at ← now rt
  memory ← lift (
      memory_from_transition rt created_at plan.event (observation_or rt plan.event observation)
        plan.next_state)
  writes (save_memory memory)
  pure memory

unfoldable pub commit_proposal :
    Runtime
    → PatchProposal
    → Option Fields
    → Option ObservationReport
    → Exec Store (Plan × MemoryRecord)
unfolding plan_commit write_plan remember
commit_proposal rt proposal packet observation = do
  cur ← current
  applied ← lift (apply_proposal rt cur proposal)
  plan ← plan_commit rt cur applied proposal packet observation
  write_plan rt plan
  memory ← remember rt plan observation
  pure (plan, memory)
