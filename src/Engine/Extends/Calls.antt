-- ===== src/Engine/Extends/Calls.antt =====
-- The history only grows over whole calls, and so over every history.
use simulation_ai.Prelude.{String, Option, none, some, ◌==◌, ℕ}
use simulation_ai.Json.{Fields}
use simulation_ai.Runtime.{Runtime}
use simulation_ai.Model.Patch.{PatchProposal}
use simulation_ai.Model.State.{SurfaceState}
use simulation_ai.Model.Records.{FrameManifest, RenderJob}
use simulation_ai.Store.{Store, overwrite}
use simulation_ai.Store.Files.{replace_render_job}
use simulation_ai.Exec.Stays.{
  Stays, Stays-always, Stays-pure, Stays-bind, Stays-reads, Stays-lift, Stays-gets, Stays-modify,
  Stays-if,
}
use simulation_ai.Engine.Verify
use simulation_ai.Engine.Commit.{frame_at}
use simulation_ai.Engine.Branches.{write_branch, create_branch, switch_branch, branch_ref}
use simulation_ai.Engine.Verify.{commit_verdict, verify_render}
use simulation_ai.Engine.Extends.{
  Extends, Extends-refl, Extends-trans, now-Stays, current-Stays, save_state-Stays,
  save_frame-Stays, set_ref-Stays, append_event-Stays, repack,
}
use simulation_ai.Engine.Interact.Keeps.{observe-Keeps, propose-Keeps, interact-Keeps}
use simulation_ai.Store.{Dir}
use simulation_ai.Model.Records.{EvidenceRecord}
use simulation_ai.Engine.Histories.{
  observes, proposes, interacts, Step, Reaches, commits, creates, switches, verifies, start, step,
}
use simulation_ai.Engine.Extends.Commits.{commit_proposal-Stays}

module _ (rt : Runtime) (w : Store) where
  write_branch-Stays : (cur branch : SurfaceState) → Stays (Extends w) (write_branch rt cur branch)
  unfolding write_branch
  write_branch-Stays cur branch = Stays-bind (Extends w) (save_state-Stays rt w branch) λ _.
      Stays-bind (Extends w) (set_ref-Stays rt w "HEAD" branch.state_hash) λ _.
        Stays-bind (Extends w) (set_ref-Stays rt w (branch_ref branch.branch) branch.state_hash)
          λ _. Stays-bind (Extends w) (Stays-reads (Extends w) _) λ events.
            Stays-bind (Extends w) (now-Stays rt w) λ created_at. append_event-Stays rt w _

  create_branch-Stays : (name : String) → Stays (Extends w) (create_branch rt name)
  unfolding create_branch
  create_branch-Stays name = Stays-bind (Extends w) (Stays-lift (Extends w) _) λ clean.
      Stays-bind (Extends w) (Stays-gets (Extends w) _) λ refs.
        Stays-bind (Extends w) (Stays-lift (Extends w) _) λ _.
          Stays-bind (Extends w) (current-Stays rt w) λ cur.
            Stays-bind (Extends w) (Stays-lift (Extends w) _) λ branch.
              Stays-bind (Extends w) (write_branch-Stays cur branch)
                λ _. Stays-pure (Extends w) branch

  switch_branch-Stays : (name : String) → Stays (Extends w) (switch_branch rt name)
  unfolding switch_branch
  switch_branch-Stays name = Stays-bind (Extends w) (Stays-lift (Extends w) _) λ clean.
      Stays-bind (Extends w) (Stays-gets (Extends w) _) λ refs.
        Stays-bind (Extends w) (Stays-lift (Extends w) _) λ _.
          Stays-bind (Extends w) (Stays-reads (Extends w) _) λ state_hash.
            Stays-bind (Extends w) (set_ref-Stays rt w "HEAD" state_hash)
              λ _. Stays-reads (Extends w) _

  verified_frame-Stays :
      (state_hash : String) (frame : Option FrameManifest)
      → Stays (Extends w) (Verify.save_frame_of rt state_hash frame)
  unfolding Verify.save_frame_of
  verified_frame-Stays state_hash none = Stays-pure (Extends w) tt
  verified_frame-Stays state_hash (some frame) =
      save_frame-Stays rt w (frame_at rt state_hash frame)

  commit_verdict-Stays :
      (job_id : String) (decision : Fields) (s : SurfaceState) (job : RenderJob)
      (frame : Option FrameManifest)
      → Stays (Extends w) (commit_verdict rt job_id decision s job frame)
  unfolding commit_verdict
  commit_verdict-Stays job_id decision s job frame =
      Stays-bind (Extends w) (Stays-lift (Extends w) _) λ next.
        Stays-bind (Extends w) (verified_frame-Stays next.state_hash frame) λ _.
          Stays-bind (Extends w) (Stays-reads (Extends w) _) λ events.
            Stays-bind (Extends w) (now-Stays rt w) λ created_at.
              Stays-bind (Extends w) (save_state-Stays rt w next) λ _.
                Stays-bind (Extends w) (append_event-Stays rt w _) λ _.
                  Stays-bind (Extends w) (set_ref-Stays rt w "HEAD" next.state_hash) λ _.
                    Stays-bind (Extends w)
                      (set_ref-Stays rt w (branch_ref next.branch) next.state_hash)
                      λ _. Stays-pure (Extends w) next

  verify_render-Stays :
      (job_id : String) (decision : Fields) → Stays (Extends w) (verify_render rt job_id decision)
  unfolding verify_render replace_render_job
  verify_render-Stays job_id decision = Stays-bind (Extends w) (Stays-reads (Extends w) _) λ job.
      Stays-bind (Extends w) (now-Stays rt w) λ updated_at.
        Stays-bind (Extends w) (now-Stays rt w) λ created_at.
          Stays-bind (Extends w) (Stays-lift (Extends w) _) λ verdict.
            Stays-bind (Extends w)
              (Stays-modify (Extends w) (replace_render_job verdict.0) λ v x.
                repack w v v.refs (overwrite verdict.0.job_id verdict.0 v.render_jobs) v.ticks x)
              λ _. Stays-bind (Extends w) (current-Stays rt w) λ s.
                Stays-if (Extends w) (s.state_hash == job.state_hash)
                  (Stays-bind (Extends w)
                    (commit_verdict-Stays job_id decision s verdict.0 verdict.1)
                    λ next. Stays-pure (Extends w) _)
                  (Stays-pure (Extends w) _)

Extends-apart :
    (w v : Store) (ticks : ℕ) (evidence : Dir EvidenceRecord) (proposals : Dir PatchProposal)
    → Extends w v
    → Extends w (record v { ticks = ticks; evidence = evidence; proposals = proposals })
Extends-apart w v ticks evidence proposals x = record {
  later = x.later;
  events = x.events;
  states = x.states;
  frames = x.frames;
  memories = x.memories;
}

module _ (rt : Runtime) where
  Step-Extends : {w v : Store} → Step rt w v → Extends w v
  Step-Extends (commits {w = w} proposal packet observation) =
      Stays-always (Extends w) _ (commit_proposal-Stays rt w proposal packet observation) w
        (Extends-refl w)
  Step-Extends (observes {w = w} packet) =
      Stays-always (Extends w) _ (observe-Keeps rt (Extends w) (Extends-apart w) packet) w
        (Extends-refl w)
  Step-Extends (proposes {w = w} packet observation) =
      Stays-always (Extends w) _ (propose-Keeps rt (Extends w) (Extends-apart w) packet observation)
        w (Extends-refl w)
  Step-Extends (interacts {w = w} packet) =
      Stays-always (Extends w) _
        (interact-Keeps rt (Extends w) (Extends-apart w) packet
          λ p sanitized o. commit_proposal-Stays rt w p (some sanitized) (some o))
        w (Extends-refl w)
  Step-Extends (creates {w = w} name fresh) =
      Stays-always (Extends w) _ (create_branch-Stays rt w name) w (Extends-refl w)
  Step-Extends (switches {w = w} name) =
      Stays-always (Extends w) _ (switch_branch-Stays rt w name) w (Extends-refl w)
  Step-Extends (verifies {w = w} job_id decision fresh) =
      Stays-always (Extends w) _ (verify_render-Stays rt w job_id decision) w (Extends-refl w)

  -- Whatever calls were made, and wherever they raised: the log of a later store is that of the
  -- earlier one with events appended, and every state, frame and memory of the earlier store is there
  -- unchanged. The IDs that `create_branch` and `verify_render` compute are new each time.
  pub Reaches-Extends : {w v : Store} → Reaches rt w v → Extends w v
  Reaches-Extends {w = w} start = Extends-refl w
  Reaches-Extends (step s r) = Extends-trans (Step-Extends s) (Reaches-Extends r)
