-- ===== src/Engine/Verify.antt =====
-- `verify_render`: the verdict on a rendered candidate, and the state that it commits where the
-- job still belongs to the current state. A reading of the clock that is not used is not observed.
mod Parts
unfoldable pub use Parts.{commit_frame, mark_renderer, verdict_state, verify_event}
use simulation_ai.Prelude.{
  ℕ, suc, String, Bool, Option, none, some, List, [], ◌∷◌, ◌==◌, if◌then◌else◌,
}
use simulation_ai.Prelude.Int.{pos}
use simulation_ai.Prelude.Texts.{str_append}
use simulation_ai.Prelude.Lists.{length}
use simulation_ai.Json.{Value, int, str, obj, Fields}
use simulation_ai.Json.Dict.{lookup, put}
use simulation_ai.Runtime.{Runtime, short_digest, digest}
use simulation_ai.Model.{dict}
use simulation_ai.Model.State.{SurfaceState, seal}
use simulation_ai.Model.Event
use simulation_ai.Model.Event.{EventEnvelope}
use simulation_ai.Model.Records.{RenderJob, FrameManifest}
use simulation_ai.Render.{verify_candidate, outcome_of}
use simulation_ai.Store.{Store}
use simulation_ai.Store.States.{save_state, set_ref}
use simulation_ai.Store.Log.{append_event, list_events}
use simulation_ai.Store.Files.{load_render_job, replace_render_job, save_frame}
use simulation_ai.Exec.{Exec, pure, lift, gets, reads, modify, writes, ◌>>=◌, ◌>>◌}
use simulation_ai.Engine.Clock.{now, current, put_item}
use simulation_ai.Engine.Commit.{frame_at}

unfoldable pub save_frame_of : Runtime → String → Option FrameManifest → Exec Store (Unit {0})
save_frame_of rt state_hash none = pure tt
save_frame_of rt state_hash (some frame) = writes (save_frame rt (frame_at rt state_hash frame))

-- the writes of a verdict on the current state
unfoldable pub commit_verdict :
    Runtime
    → String
    → Fields
    → SurfaceState
    → RenderJob
    → Option FrameManifest
    → Exec Store SurfaceState
unfolding save_frame_of
commit_verdict rt job_id decision state updated frame = do
  next ← lift (verdict_state rt state updated frame)
  save_frame_of rt next.state_hash frame
  events ← reads (list_events none none)
  created_at ← now rt
  writes (save_state rt next)
  modify
      (append_event (verify_event rt created_at (suc (length events)) job_id decision state next))
  writes (set_ref "HEAD" next.state_hash)
  writes (set_ref (str_append "branch-" next.branch) next.state_hash)
  pure next

unfoldable pub verify_render : Runtime → String → Fields → Exec Store (RenderJob × SurfaceState)
unfolding commit_verdict
verify_render rt job_id decision = do
  job ← reads (load_render_job job_id)
  updated_at ← now rt
  created_at ← now rt
  verdict ← lift (verify_candidate rt updated_at created_at job decision)
  modify (replace_render_job verdict.0)
  state ← current
  if state.state_hash == job.state_hash
      then (do
        next ← commit_verdict rt job_id decision state verdict.0 verdict.1
        pure (verdict.0, next))
      else pure (verdict.0, state)
