-- ===== src/Engine/Consistent/Verdicts.antt =====
-- The writes of a verdict on a render job keep the invariant.
use mathlib.Core.Path.{subst}
use simulation_ai.Store.Log.{list_events, list_events-all}
use simulation_ai.Prelude.{none}
use simulation_ai.Prelude.{
  ap, suc, String, false, ◌≡◌, refl, sym, if◌then◌else◌, List, ◌==◌, Option, none, some,
}
use simulation_ai.Prelude.Texts.{str_append}
use simulation_ai.Prelude.Lists.{length, any}
use simulation_ai.Result.{ok, >>=-eq-ok, ok-injective}
use simulation_ai.Runtime.{Runtime}
use simulation_ai.Model.State.{SurfaceState, seal}
use simulation_ai.Model.Event
use simulation_ai.Model.Event.{EventEnvelope, hash_of}
use simulation_ai.Store.States.{save_state}
use simulation_ai.Store.Log.{append_event}
use simulation_ai.Exec.Triple.{
  Triple-reads, Triple, Triple-pure, Triple-modify, Triple-writes, Triple-bind, Triple-lift,
}
use simulation_ai.Engine.Commit.{frame_at}
use simulation_ai.Engine.Verify.{
  commit_verdict, verdict_state, verify_event, save_frame_of, commit_frame, mark_renderer,
}
use simulation_ai.Model.Records.{RenderJob, FrameManifest, frame_dict}
use simulation_ai.Store.{write_once}
use simulation_ai.Store.Files.{save_frame, sealed_frame}
use simulation_ai.Json.{Value, Fields, str}
use simulation_ai.Engine.Clock.{put_item}
use simulation_ai.Engine.Consistent.{IsSealed, IsConsistent, IsHex}
use simulation_ai.Engine.Consistent.States.{seal-IsSealed}
use simulation_ai.Engine.Consistent.Holds.{Holds, save_state-Holds, append_event-Holds}
use simulation_ai.Engine.Consistent.Planning.{Triple-now, hash_of-seal}
use simulation_ai.Engine.Consistent.Holds.{tick-Holds, set_heads-Triple}

module _ (rt : Runtime) (hex : IsHex rt) where
  -- What the state after a verdict is the seal of.
  verdict_state-seal :
      (s : SurfaceState) (updated : RenderJob) (frame : Option FrameManifest) {next : SurfaceState}
      → verdict_state rt s updated frame ≡ ok next
      → (objects : Fields) × (render : Value) × (seal rt (record s {
        parent_state_hash = s.state_hash;
        logical_time = suc s.logical_time;
        objects = objects;
        render = render;
      })
          ≡ next)
  unfolding verdict_state
  verdict_state-seal s updated frame h =
      let (r₁, _, h₁) = >>=-eq-ok (put_item s.render "status" (str updated.status)) _ h in
      let job_id : String = if updated.status == "queued" then updated.job_id else "" in
      let (r₂, _, h₂) = >>=-eq-ok (put_item r₁ "pending_job_id" (str job_id)) _ h₁ in
      let (objects, _, h₃) = >>=-eq-ok (mark_renderer updated.status s.objects) _ h₂ in
      let (r₃, _, e) = >>=-eq-ok (commit_frame frame r₂) _ h₃ in (objects, r₃, ok-injective _ _ e)

  verdict_state-IsSealed :
      (s : SurfaceState) (updated : RenderJob) (frame : Option FrameManifest) {next : SurfaceState}
      → verdict_state rt s updated frame ≡ ok next
      → IsSealed rt next
  verdict_state-IsSealed s updated frame h =
      let (_, _, e) = verdict_state-seal s updated frame h in
      subst (IsSealed rt) e (seal-IsSealed rt _)

  save_frame_of-Holds :
      (es : List EventEnvelope) (a state_hash : String) (frame : Option FrameManifest)
      → Triple
          (Holds rt es a a)
          (save_frame_of rt state_hash frame)
          (λ _. Holds rt es a a)
          (IsConsistent rt)
  unfolding save_frame_of save_frame
  save_frame_of-Holds es a state_hash none = Triple-pure tt λ w p. p
  save_frame_of-Holds es a state_hash (some frame) =
      let f = frame_at rt state_hash frame in
      Triple-writes (save_frame rt f)
        (λ w w' p e.
          let (frames, _, is) =
            >>=-eq-ok (write_once frame_dict f.frame_id (sealed_frame rt f) w.frames) _ e in
          subst (Holds rt es a a) (ok-injective _ _ is) (record {
            consistent = p.consistent;
            events = p.events;
            parent_there = p.parent_there;
            result_there = p.result_there;
          }))
        (λ w p. p.consistent)

  -- The writes of a verdict, if the ID of its event is new.
  pub commit_verdict-Consistent :
      (job_id : String) (decision : Fields) (s : SurfaceState) (updated : RenderJob)
      (frame : Option FrameManifest) (es : List EventEnvelope)
      → ((next : SurfaceState)
          → verdict_state rt s updated frame ≡ ok next
          → any (λ x. x.event_id == (verify_event rt "" 0 job_id decision s next).event_id) es
            ≡ false)
      → Triple
          (Holds rt es s.state_hash s.state_hash)
          (commit_verdict rt job_id decision s updated frame)
          (λ _. IsConsistent rt)
          (IsConsistent rt)
  unfolding commit_verdict verify_event Event.seal list_events
  commit_verdict-Consistent job_id decision s updated frame es fresh =
      let a = s.state_hash in
      Triple-lift (verdict_state rt s updated frame) _ (λ w p. p.consistent)
        λ next made.
          Triple-bind (λ _. Holds rt es a a) _ _ (save_frame_of-Holds es a next.state_hash frame)
            λ _.
              Triple-reads (list_events none none) _ (λ w p. p.consistent)
                λ events.
                  Triple-now rt (λ w. Holds rt es a a w × (list_events none none w ≡ ok events)) _
                    (λ w p. (tick-Holds rt es a a w p.0, p.1)) (λ w p. p.0.consistent)
                    λ created_at.
                      let e =
                        verify_event rt created_at (suc (length events)) job_id decision s next in
                      Triple-bind (λ _ w. Holds rt es a next.state_hash w × (es ≡ events)) _ _
                        (Triple-writes (save_state rt next)
                          (λ w w' p h. (
                            save_state-Holds rt es a next w w'
                                (verdict_state-IsSealed s updated frame made) p.0 h,
                            rw (← p.0.events) (list_events-all w events p.1),
                          ))
                          (λ w p. p.0.consistent))
                        λ _.
                          Triple-bind (λ _. IsConsistent rt) _ _
                            (Triple-modify (append_event e) λ w p.
                              append_event-Holds rt hex es e a next.state_hash (hash_of-seal rt e)
                                refl refl (rw (← p.1) refl) (fresh next made) w p.0)
                            λ _.
                              set_heads-Triple rt hex (str_append "branch-" next.branch)
                                next.state_hash next

  pub verdict_state-logical_time :
      (s : SurfaceState) (updated : RenderJob) (frame : Option FrameManifest) {next : SurfaceState}
      → verdict_state rt s updated frame ≡ ok next
      → next.logical_time ≡ suc s.logical_time
  unfolding seal
  verdict_state-logical_time s updated frame h =
      let (_, _, e) = verdict_state-seal s updated frame h in
      sym (ap (λ (t : SurfaceState). t.logical_time) e)
