-- ===== src/Engine/Consistent/Verify.antt =====
-- `verify_render` keeps the invariant.

use simulation_ai.Prelude.{suc, String, false, ◌≡◌, refl, ◌∙◌, sym, if◌then◌else◌, ◌==◌, Option}
use simulation_ai.Result.{ok}
use simulation_ai.Runtime.{Runtime}
use simulation_ai.Model.State.{SurfaceState}
use simulation_ai.Model.Event
use simulation_ai.Model.Event.{EventEnvelope, hash_of}
use simulation_ai.Store.{Store}
use simulation_ai.Store.States.{load_state, read_ref, read_state, state_exists}
use simulation_ai.Store.Log.{has_event}
use simulation_ai.Exec.{modify}
use simulation_ai.Exec.Triple.{
  Post-always, Triple, Triple-pure, Triple-if, Triple-modify, Triple-bind, Triple-lift,
  Triple-reads,
}
use simulation_ai.Engine.Clock.{current}
use simulation_ai.Engine.Verify.{commit_verdict, verify_render, verify_event}
use simulation_ai.Model.Records.{RenderJob, FrameManifest}
use simulation_ai.Render.{verify_candidate}
use simulation_ai.Store.Files.{load_render_job, replace_render_job}
use simulation_ai.Json.{Fields}
use simulation_ai.Engine.Consistent.{IsConsistent, IsHex}
use simulation_ai.Engine.Consistent.States.{load_state-Loaded}
use simulation_ai.Engine.Consistent.Holds.{Holds}
use simulation_ai.Engine.Consistent.Planning.{Triple-now}
use simulation_ai.Exec.{pure, ◌>>=◌, ◌>>◌}
use simulation_ai.Engine.Consistent.Verdicts.{commit_verdict-Consistent, verdict_state-logical_time}

module _ (rt : Runtime) (hex : IsHex rt) where
  -- The states, the refs and the events of another store.
  record Alike (w v : Store) : Type 0 where
    states : v.states ≡ w.states
    refs : v.refs ≡ w.refs
    events : v.events ≡ w.events

  Alike-IsConsistent : (w v : Store) → IsConsistent rt w → Alike w v → IsConsistent rt v
  Alike-IsConsistent w v c a = rw (a.states, a.refs, a.events) c

  Alike-load_state : (w v : Store) (ref : String) → Alike w v → load_state ref v ≡ load_state ref w
  unfolding load_state read_ref read_state state_exists
  Alike-load_state w v ref a = rw (a.states, a.refs) refl

  Alike-tick : (w v : Store) → Alike w v → Alike w (record v { ticks = suc v.ticks })
  Alike-tick w v a = record { states = a.states; refs = a.refs; events = a.events }

  module _ (job_id : String) (decision : Fields) (w : Store) (c : IsConsistent rt w)
      (fresh : (s : SurfaceState)
        → load_state "HEAD" w ≡ ok s
        → has_event
            (verify_event rt "" 0 job_id decision s
              (record s { logical_time = suc s.logical_time })).event_id
            w.events
          ≡ false) where
    -- the verdict is on the current state
    on_current-Consistent :
        (s : SurfaceState) (updated : RenderJob) (frame : Option FrameManifest)
        → Triple {A = RenderJob × SurfaceState}
            (λ v. Alike w v × (load_state "HEAD" v ≡ ok s))
            (commit_verdict rt job_id decision s updated frame >>= λ next. pure (updated, next))
            (λ _. IsConsistent rt)
            (IsConsistent rt)
    unfolding has_event verify_event Event.seal
    on_current-Consistent s updated frame = record {
      at = λ v p.
          let loaded = sym (Alike-load_state w v "HEAD" p.0) ∙ p.1 in
          let there = (load_state-Loaded rt w "HEAD" s c loaded).there in
          let start : Holds rt w.events s.state_hash s.state_hash v = record {
            consistent = Alike-IsConsistent w v c p.0;
            events = p.0.events;
            parent_there = rw p.0.states there;
            result_there = rw p.0.states there;
          } in
          (Triple-bind (λ _. IsConsistent rt) _ _
              (commit_verdict-Consistent rt hex job_id decision s updated frame w.events
                λ next made.
                  rw (verdict_state-logical_time rt hex s updated frame made) (fresh s loaded))
              λ next. Triple-pure (updated, next) λ v p. p).at
            v start;
    }

    -- what follows the verdict
    after_verdict-Consistent :
        (job : RenderJob) (updated : RenderJob) (frame : Option FrameManifest) (P : Store → Type 0)
        → ((v : Store) → P v → Alike w v)
        → Triple {A = RenderJob × SurfaceState} P
            (do
              modify (replace_render_job updated)
              s ← current
              if s.state_hash == job.state_hash
                  then (do
                    next ← commit_verdict rt job_id decision s updated frame
                    pure (updated, next))
                  else pure (updated, s))
            (λ _. IsConsistent rt)
            (IsConsistent rt)
    unfolding replace_render_job current
    after_verdict-Consistent job updated frame P alike =
        Triple-bind (λ _. Alike w) (modify (replace_render_job updated)) _
          (Triple-modify (replace_render_job updated) λ v p.
            let a = alike v p in record { states = a.states; refs = a.refs; events = a.events })
          λ _.
            Triple-reads (load_state "HEAD") _ (λ v p. Alike-IsConsistent w v c p)
              λ s.
                Triple-if (s.state_hash == job.state_hash) _ _
                  (λ _. on_current-Consistent s updated frame)
                  (λ _. Triple-pure (updated, s) λ v p. Alike-IsConsistent w v c p.0)

  -- On a consistent store, a verdict on a render job leaves a consistent store, whether it succeeds
  -- or raises, if no event has the ID that the event of the verdict gets.
  -- The digests have no white space at their ends.
  pub verify_render-IsConsistent :
      (job_id : String) (decision : Fields) (w : Store)
      → IsConsistent rt w
      → ((s : SurfaceState)
          → load_state "HEAD" w ≡ ok s
          → has_event
              (verify_event rt "" 0 job_id decision s
                (record s { logical_time = suc s.logical_time })).event_id
              w.events
            ≡ false)
      → IsConsistent rt (verify_render rt job_id decision w).1
  unfolding verify_render current has_event load_render_job replace_render_job verify_event
      Event.seal
  verify_render-IsConsistent job_id decision w c fresh =
      let ends = Alike-IsConsistent w in
      Post-always (IsConsistent rt) (verify_render rt job_id decision w) (
        (Triple-reads {P = Alike w} {R = λ _. IsConsistent rt} (load_render_job job_id) _
            (λ v p. ends v c p)
            λ job.
              let Read : Store → Type 0 = λ v. Alike w v × (load_render_job job_id v ≡ ok job) in
              Triple-now rt Read _ (λ v p. (Alike-tick w v p.0, p.1)) (λ v p. ends v c p.0)
                λ updated_at.
                  Triple-now rt Read _ (λ v p. (Alike-tick w v p.0, p.1)) (λ v p. ends v c p.0)
                    λ created_at.
                      Triple-lift (verify_candidate rt updated_at created_at job decision) _
                        (λ v p. ends v c p.0)
                        λ verdict _.
                          after_verdict-Consistent job_id decision w c fresh job verdict.0 verdict.1
                            Read (λ v p. p.0)).at
          w (record { states = refl; refs = refl; events = refl }))
