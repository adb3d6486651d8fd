-- ===== src/Engine/Consistent/Commit.antt =====
-- `commit_proposal` keeps the invariant, whichever of its steps raises.
use mathlib.Core.Path.{subst}
use simulation_ai.Prelude.{true, ◌≡◌, Option, none, some}
use simulation_ai.Prelude.Texts.{str_append}
use simulation_ai.Json.{Fields}
use simulation_ai.Result.{ok, >>=-eq-ok, ok-injective}
use simulation_ai.Runtime.{Runtime}
use simulation_ai.Model.Patch.{PatchProposal}
use simulation_ai.Model.Records.{
  ObservationReport, FrameManifest, frame_dict, memory_dict, job_dict,
}
use simulation_ai.Store.{Store, exists, write_once}
use simulation_ai.Store.States.{save_state}
use simulation_ai.Store.Log.{append_event}
use simulation_ai.Store.Files.{save_frame, save_render_job, save_memory, sealed_frame}
use simulation_ai.Exec.Triple.{
  Post-always, Triple, Triple-pure, Triple-modify, Triple-writes, Triple-bind, Triple-lift,
  Triple-reads,
}
use simulation_ai.Engine.Clock.{current}
use simulation_ai.Engine.Commit.{Plan, write_plan, remember, commit_proposal, save_frame_of}
use simulation_ai.Engine.Consistent.{IsConsistent, IsHex}
use simulation_ai.Engine.Consistent.Planning.{IsReady, Has, Triple-now, plan_commit-Ready}
use simulation_ai.Engine.Consistent.States.{save_state-Saved, load_state-Loaded}
use simulation_ai.Engine.Consistent.Log.{append_event-IsConsistent}
use simulation_ai.Engine.Consistent.Refs.{set_ref-Triple}

module _ (rt : Runtime) where
  save_frame_of-Ready :
      (plan : Plan) (frame : Option FrameManifest)
      → Triple (IsReady rt plan) (save_frame_of rt frame) (λ _. IsReady rt plan) (IsConsistent rt)
  unfolding save_frame_of save_frame
  save_frame_of-Ready plan none = Triple-pure tt λ w p. p
  save_frame_of-Ready plan (some frame) =
      Triple-writes (save_frame rt frame)
        (λ w w' p e.
          let (frames, _, is) =
            >>=-eq-ok (write_once frame_dict frame.frame_id (sealed_frame rt frame) w.frames) _ e in
          subst (IsReady rt plan) (ok-injective _ _ is) p)
        (λ w p. p.pending.consistent)

  -- The state is stored, and the event is still to be appended.
  record Stored (plan : Plan) (w : Store) : Type 0 where
    ready : IsReady rt plan w
    there : exists plan.next_state.state_hash w.states ≡ true

  save_state-Stored :
      (plan : Plan) (w w' : Store)
      → IsReady rt plan w
      → save_state rt plan.next_state w ≡ ok w'
      → Stored plan w'
  save_state-Stored plan w w' p e =
      let saved = save_state-Saved rt plan.next_state w p.state_sealed p.pending.consistent w' e in
      record {
        ready = record {
          pending = record {
            consistent = saved.consistent;
            index = rw saved.same_events p.pending.index;
            fresh = rw saved.same_events p.pending.fresh;
            parent = saved.grows plan.event.parent_state_hash p.pending.parent;
          };
          state_sealed = p.state_sealed;
          event_sealed = p.event_sealed;
          result = p.result;
        };
        there = saved.there;
      }

  append_event-Stored :
      (plan : Plan) (w : Store) → Stored plan w → IsConsistent rt (append_event plan.event w)
  append_event-Stored plan w p =
      append_event-IsConsistent rt w plan.event p.ready.pending.consistent
        (record {
          sealed = p.ready.event_sealed;
          parent = p.ready.pending.parent;
          result = rw p.ready.result p.there;
        })
        p.ready.pending.index p.ready.pending.fresh

module _ (rt : Runtime) (hex : IsHex rt) where
  write_plan-Has :
      (plan : Plan)
      → Triple (IsReady rt plan) (write_plan rt plan) (λ _. IsConsistent rt) (IsConsistent rt)
  unfolding write_plan save_render_job
  write_plan-Has plan =
      let h = plan.next_state.state_hash in
      Triple-bind _ _ _ (save_frame_of-Ready rt plan plan.frame) λ _.
        Triple-bind (λ _. Stored rt plan) _ _
          (Triple-writes (save_state rt plan.next_state) (save_state-Stored rt plan)
            (λ w p. p.pending.consistent))
          λ _.
            Triple-bind (λ _. IsConsistent rt) _ _
              (Triple-modify (append_event plan.event) (append_event-Stored rt plan))
              λ _.
                Triple-bind (λ _. IsConsistent rt) _ _
                  (Triple-writes (save_render_job plan.job)
                    (λ w w' p e.
                      let (jobs, _, is) =
                        >>=-eq-ok (write_once job_dict plan.job.job_id plan.job w.render_jobs) _
                          e in
                      subst (IsConsistent rt) (ok-injective _ _ is) p)
                    (λ w p. p))
                  λ _.
                    Triple-bind (λ _. IsConsistent rt) _ _ (set_ref-Triple rt hex "HEAD" h)
                      λ _. set_ref-Triple rt hex (str_append "branch-" plan.next_state.branch) h

  remember-Consistent :
      (plan : Plan) (observation : Option ObservationReport)
      → Triple
          (IsConsistent rt)
          (remember rt plan observation)
          (λ _. IsConsistent rt)
          (IsConsistent rt)
  unfolding remember save_memory
  remember-Consistent plan observation =
      Triple-now rt (IsConsistent rt) _ (λ w p. p) (λ w p. p)
        λ created_at.
          Triple-lift _ _ (λ w p. p)
            λ memory _.
              Triple-bind (λ _. IsConsistent rt) _ _
                (Triple-writes (save_memory memory)
                  (λ w w' p e.
                    let (memories, _, is) =
                      >>=-eq-ok (write_once memory_dict memory.memory_id memory w.memories) _ e in
                    subst (IsConsistent rt) (ok-injective _ _ is) p)
                  (λ w p. p))
                λ _. Triple-pure memory λ w p. p

  pub commit_proposal-Triple :
      (proposal : PatchProposal) (packet : Option Fields) (observation : Option ObservationReport)
      → Triple
          (IsConsistent rt)
          (commit_proposal rt proposal packet observation)
          (λ _. IsConsistent rt)
          (IsConsistent rt)
  unfolding commit_proposal current
  commit_proposal-Triple proposal packet observation =
      Triple-reads _ _ (λ w p. p)
        λ cur. record {
          at = λ w p.
              (Triple-lift {P = Has rt cur.state_hash} _ _ (λ w p. p.0)
                  λ applied _.
                    Triple-bind (IsReady rt) _ _
                      (plan_commit-Ready rt cur applied proposal packet observation)
                      λ plan.
                        Triple-bind (λ _. IsConsistent rt) _ _ (write_plan-Has plan)
                          λ _.
                            Triple-bind (λ _. IsConsistent rt) _ _
                              (remember-Consistent plan observation)
                              λ memory. Triple-pure (plan, memory) λ w p. p).at
                w (p.0, (load_state-Loaded rt w "HEAD" cur p.0 p.1).there);
        }

  -- On a consistent store, a commit leaves a consistent store, whether it succeeds or raises at any
  -- of its steps: what was written before an error keeps the invariant too. The digests have no
  -- white space at their ends. The log of a consistent store may hold events that `list_events` cannot
  -- read back.
  pub commit_proposal-IsConsistent :
      (proposal : PatchProposal) (packet : Option Fields) (observation : Option ObservationReport)
      (w : Store)
      → IsConsistent rt w
      → IsConsistent rt (commit_proposal rt proposal packet observation w).1
  commit_proposal-IsConsistent proposal packet observation w c =
      Post-always (IsConsistent rt) (commit_proposal rt proposal packet observation w)
        ((commit_proposal-Triple proposal packet observation).at w c)
