-- ===== src/Engine/Extends/Commits.antt =====
-- A commit only adds to the history.
use simulation_ai.Prelude.{suc, String, not, Option, none, some, ◌==◌}
use simulation_ai.Prelude.Lists.{length}
use simulation_ai.Json.{Fields, str}
use simulation_ai.Json.Dict.{get_or}
use simulation_ai.Result.{guard, duplicate_event}
use simulation_ai.Runtime.{Runtime, str_of}
use simulation_ai.Model.Patch.{PatchProposal}
use simulation_ai.Model.State.{SurfaceState}
use simulation_ai.Model.Event.{EventEnvelope}
use simulation_ai.Model.Records.{ObservationReport, FrameManifest, RenderJob}
use simulation_ai.Store.{Store}
use simulation_ai.Store.Log.{event_id_exists, list_events}
use simulation_ai.Exec.Stays.{Stays, Stays-pure, Stays-bind, Stays-lift, Stays-reads, Stays-if}
use simulation_ai.Engine.Commit
use simulation_ai.Engine.Commit.{
  Plan, plan_verified, plan_job, plan_commit, write_plan, remember, commit_proposal, frame_at,
  event_of, arguments_of,
}
use simulation_ai.Engine.Branches.{branch_ref}
use simulation_ai.Engine.Extends.{
  Extends, now-Stays, current-Stays, save_state-Stays, save_frame-Stays, save_memory-Stays,
  save_render_job-Stays, set_ref-Stays, append_event-Stays,
}

module _ (rt : Runtime) (w : Store) where
  plan_verified-Stays :
      (next : SurfaceState) (e : EventEnvelope) (job : RenderJob) (base : String)
      → Stays (Extends w) (plan_verified rt next e job base)
  unfolding plan_verified
  plan_verified-Stays next e job base = Stays-bind (Extends w) (now-Stays rt w) λ created_at.
      Stays-bind (Extends w) (Stays-lift (Extends w) _)
        λ frame. Stays-bind (Extends w) (Stays-lift (Extends w) _) λ shown. Stays-pure (Extends w) _

  plan_job-Stays :
      (cur next : SurfaceState) (e : EventEnvelope) (proposal : PatchProposal)
      → Stays (Extends w) (plan_job rt cur next e proposal)
  unfolding plan_job
  plan_job-Stays cur next e proposal = Stays-bind (Extends w) (Stays-lift (Extends w) _) λ base.
      Stays-bind (Extends w) (now-Stays rt w) λ created_at.
        Stays-bind (Extends w) (now-Stays rt w) λ updated_at.
          Stays-bind (Extends w) (Stays-lift (Extends w) _) λ job.
            Stays-bind (Extends w) (Stays-lift (Extends w) _) λ _.
              Stays-if (Extends w) (job.status == "verified") (plan_verified-Stays next e job base)
                (Stays-pure (Extends w) _)

  plan_commit-Stays :
      (cur applied : SurfaceState) (proposal : PatchProposal) (packet : Option Fields)
      (observation : Option ObservationReport)
      → Stays (Extends w) (plan_commit rt cur applied proposal packet observation)
  unfolding plan_commit
  plan_commit-Stays cur applied proposal packet observation =
      Stays-bind (Extends w) (Stays-lift (Extends w) _) λ next.
        Stays-bind (Extends w) (Stays-lift (Extends w) _) λ action.
          Stays-bind (Extends w) (Stays-lift (Extends w) _) λ target.
            Stays-bind (Extends w) (Stays-reads (Extends w) (list_events none none)) λ events.
              Stays-bind (Extends w) (now-Stays rt w) λ created_at.
                let kind = str_of rt (get_or "kind" (str "proposal") action) in
                let target_id = str_of rt (get_or "node_id" next.selected_object_id target) in
                let e =
                  event_of rt created_at (suc (length events)) kind (arguments_of kind packet)
                    target_id cur next proposal observation in
                Stays-bind (Extends w) (Stays-reads (Extends w) (event_id_exists e.event_id))
                  λ duplicate.
                    Stays-bind (Extends w)
                      (Stays-lift (Extends w) (guard (not duplicate) duplicate_event))
                      λ _. plan_job-Stays cur next e proposal

  committed_frame-Stays :
      (frame : Option FrameManifest) → Stays (Extends w) (Commit.save_frame_of rt frame)
  unfolding Commit.save_frame_of
  committed_frame-Stays none = Stays-pure (Extends w) tt
  committed_frame-Stays (some frame) = save_frame-Stays rt w frame

  write_plan-Stays : (plan : Plan) → Stays (Extends w) (write_plan rt plan)
  unfolding write_plan
  write_plan-Stays plan = Stays-bind (Extends w) (committed_frame-Stays plan.frame) λ _.
      Stays-bind (Extends w) (save_state-Stays rt w plan.next_state) λ _.
        Stays-bind (Extends w) (append_event-Stays rt w plan.event) λ _.
          Stays-bind (Extends w) (save_render_job-Stays rt w plan.job) λ _.
            Stays-bind (Extends w) (set_ref-Stays rt w "HEAD" plan.next_state.state_hash)
              λ _. set_ref-Stays rt w (branch_ref plan.next_state.branch) plan.next_state.state_hash

  remember-Stays :
      (plan : Plan) (observation : Option ObservationReport)
      → Stays (Extends w) (remember rt plan observation)
  unfolding remember
  remember-Stays plan observation = Stays-bind (Extends w) (now-Stays rt w) λ created_at.
      Stays-bind (Extends w) (Stays-lift (Extends w) _) λ memory.
        Stays-bind (Extends w) (save_memory-Stays rt w memory) λ _. Stays-pure (Extends w) memory

  pub commit_proposal-Stays :
      (proposal : PatchProposal) (packet : Option Fields) (observation : Option ObservationReport)
      → Stays (Extends w) (commit_proposal rt proposal packet observation)
  unfolding commit_proposal
  commit_proposal-Stays proposal packet observation =
      Stays-bind (Extends w) (current-Stays rt w) λ cur.
        Stays-bind (Extends w) (Stays-lift (Extends w) _) λ applied.
          Stays-bind (Extends w) (plan_commit-Stays cur applied proposal packet observation) λ plan.
            Stays-bind (Extends w) (write_plan-Stays plan) λ _.
              Stays-bind (Extends w) (remember-Stays plan observation)
                λ memory. Stays-pure (Extends w) (plan, memory)
