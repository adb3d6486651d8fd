-- ===== src/Engine/Consistent/Planning.antt =====
-- What `plan_commit` leaves to write: a sealed state, and an event that may follow the log.
use mathlib.Core.Path.{subst}
use simulation_ai.Exec.Triple.{Triple-reads}
use simulation_ai.Store.Log.{list_events, has_event, list_events-all, event_id_exists-has_event}
use simulation_ai.Prelude.{
  suc, arith, String, Bool, true, false, not, ◌≡◌, ◌∙◌, refl, Option, none, List, ◌==◌,
  if◌then◌else◌,
}
use simulation_ai.Prelude.Lists.{length, any}
use simulation_ai.Json.{Fields, str}
use simulation_ai.Json.Dict.{get_or}
use simulation_ai.Result.{ok, guard, guard-eq-ok, >>=-eq-ok, ok-injective}
use simulation_ai.Runtime.{Runtime, str_of}
use simulation_ai.Model.Patch.{PatchProposal}
use simulation_ai.Model.State.{SurfaceState}
use simulation_ai.Model.Event
use simulation_ai.Model.Event.{EventEnvelope, hash_of}
use simulation_ai.Model.Records.{ObservationReport, FrameManifest, RenderJob}
use simulation_ai.Render.{render_id}
use simulation_ai.Store.{Store, Dir, exists}
use simulation_ai.Store.Log.{list_events}
use simulation_ai.Exec.{Exec, ◌>>=◌}
use simulation_ai.Exec.Triple.{Triple, Triple-pure, Triple-if, Triple-bind, Triple-lift}
use simulation_ai.Engine.Clock.{now, put_item}
use simulation_ai.Engine.Commit.{
  Plan, mark_render, adjusted, render_mode, render_status, arguments_of, plan_queued, plan_verified,
  plan_job, plan_commit, present_frame, event_of,
}
use simulation_ai.Engine.Consistent.{IsSealed, Consistent, IsConsistent}
use simulation_ai.Engine.Consistent.States.{seal-IsSealed}

-- An event that may be appended once its resulting state is stored.
pub record Pending (rt : Runtime) (e : EventEnvelope) (states : Dir Fields) (refs : Dir String)
    (events : List EventEnvelope) : Type 0 where
  pub consistent : Consistent rt states refs events
  pub index : e.index ≡ suc (length events)
  pub fresh : any (λ x. x.event_id == e.event_id) events ≡ false
  pub parent : exists e.parent_state_hash states ≡ true

abbrev IsPending : Runtime → EventEnvelope → Store → Type 0
IsPending rt e w = Pending rt e w.states w.refs w.events

-- A plan whose state is sealed, and whose event is pending, sealed and of that state.
pub record Ready (rt : Runtime) (plan : Plan) (states : Dir Fields) (refs : Dir String)
    (events : List EventEnvelope) : Type 0 where
  pub pending : Pending rt plan.event states refs events
  pub state_sealed : IsSealed rt plan.next_state
  pub event_sealed : hash_of rt plan.event ≡ plan.event.event_hash
  pub result : plan.event.resulting_state_hash ≡ plan.next_state.state_hash

abbrev pub IsReady : Runtime → Plan → Store → Type 0
IsReady rt plan w = Ready rt plan w.states w.refs w.events

pub hash_of-seal :
    (rt : Runtime) (e : EventEnvelope) → hash_of rt (Event.seal rt e) ≡ (Event.seal rt e).event_hash
unfolding Event.seal hash_of
hash_of-seal rt e = refl

module _ (rt : Runtime) (e : EventEnvelope) (next : SurfaceState) where
  Pending-seal :
      (h : String) {states : Dir Fields} {refs : Dir String} {events : List EventEnvelope}
      → Pending rt e states refs events
      → Pending rt (Event.seal rt (record e { resulting_state_hash = h })) states refs events
  unfolding Event.seal
  Pending-seal h p = record {
    consistent = p.consistent;
    index = p.index;
    fresh = p.fresh;
    parent = p.parent;
  }

not-false : (b : Bool) → not b ≡ true → b ≡ false
not-false b h = ground arith

module _ (rt : Runtime) where
  -- A reading of the clock changes nothing that a predicate on the files can see.
  pub Triple-now :
      {B : Type 0} (P : Store → Type 0) (f : String → Exec Store B) {Q : B → Store → Type 0}
      → ((w : Store) → P w → P (record w { ticks = suc w.ticks }))
      → ((w : Store) → P w → IsConsistent rt w)
      → ((a : String) → Triple P (f a) Q (IsConsistent rt))
      → Triple P (now rt >>= f) Q (IsConsistent rt)
  unfolding now
  Triple-now P f h c k = Triple-bind (λ _. P) (now rt) f (record { at = λ w p. h w p }) k

  plan_queued-Ready :
      (next : SurfaceState) (e : EventEnvelope) (job : RenderJob) (w : Store)
      → IsSealed rt next
      → IsPending rt e w
      → IsReady rt (plan_queued rt next e job) w
  unfolding plan_queued Event.seal
  plan_queued-Ready next e job w is p = record {
    pending = Pending-seal rt e next next.state_hash p;
    state_sealed = is;
    event_sealed = hash_of-seal rt (record e { resulting_state_hash = next.state_hash });
    result = refl;
  }

  present_frame-IsSealed :
      (frame : FrameManifest) (next : SurfaceState) {shown : SurfaceState}
      → present_frame rt frame next ≡ ok shown
      → IsSealed rt shown
  unfolding present_frame
  present_frame-IsSealed frame next h =
      let (r, _, e) =
        >>=-eq-ok (put_item next.render "committed_frame_id" (str frame.frame_id)) _ h in
      subst (IsSealed rt) (ok-injective _ _ e) (seal-IsSealed rt (record next { render = r }))

  plan_verified-Ready :
      (next : SurfaceState) (e : EventEnvelope) (job : RenderJob) (base : String)
      → Triple (IsPending rt e) (plan_verified rt next e job base) (IsReady rt) (IsConsistent rt)
  unfolding plan_verified Event.seal
  plan_verified-Ready next e job base =
      Triple-now (IsPending rt e) _ (λ w p. p) (λ w p. p.consistent)
        λ created_at.
          Triple-lift _ _ (λ w p. p.consistent)
            λ frame made.
              Triple-lift (present_frame rt frame next) _ (λ w p. p.consistent)
                λ shown is. Triple-pure _ λ w p. record {
                  pending = Pending-seal rt e next shown.state_hash p;
                  state_sealed = present_frame-IsSealed frame next is;
                  event_sealed =
                      hash_of-seal rt (record e { resulting_state_hash = shown.state_hash });
                  result = refl;
                }

  plan_job-Ready :
      (cur next : SurfaceState) (e : EventEnvelope) (proposal : PatchProposal)
      → IsSealed rt next
      → Triple (IsPending rt e) (plan_job rt cur next e proposal) (IsReady rt) (IsConsistent rt)
  unfolding plan_job
  plan_job-Ready cur next e proposal is =
      Triple-lift _ _ (λ w p. p.consistent)
        λ base _.
          Triple-now (IsPending rt e) _ (λ w p. p) (λ w p. p.consistent)
            λ created_at.
              Triple-now (IsPending rt e) _ (λ w p. p) (λ w p. p.consistent)
                λ updated_at.
                  Triple-lift _ _ (λ w p. p.consistent)
                    λ job _.
                      Triple-lift _ _ (λ w p. p.consistent)
                        λ _ _.
                          Triple-if (job.status == "verified") _ _
                            (λ _. plan_verified-Ready next e job base)
                            (λ _. Triple-pure _ λ w p. plan_queued-Ready next e job w is p)

  mark_render-IsSealed :
      (proposal : PatchProposal) (s : SurfaceState) {next : SurfaceState}
      → mark_render rt proposal s ≡ ok next
      → IsSealed rt next
  unfolding mark_render
  mark_render-IsSealed proposal s h =
      let (r₁, _, h₁) =
        >>=-eq-ok (put_item s.render "status" (str (render_status rt proposal))) _ h in
      let (r₂, _, h₂) =
        >>=-eq-ok (put_item r₁ "requested_mode" (str (render_mode rt proposal))) _ h₁ in
      let job_id : String =
        if render_status rt proposal == "queued" then render_id rt proposal else "" in
      let (r₃, _, e) = >>=-eq-ok (put_item r₂ "pending_job_id" (str job_id)) _ h₂ in
      subst (IsSealed rt) (ok-injective _ _ e) (seal-IsSealed rt (record s { render = r₃ }))

  -- A consistent store that has the state of that hash.
  abbrev pub Has : String → Store → Type 0
  Has h w = IsConsistent rt w × (exists h w.states ≡ true)

  pub plan_commit-Ready :
      (cur applied : SurfaceState) (proposal : PatchProposal) (packet : Option Fields)
      (observation : Option ObservationReport)
      → Triple
          (Has cur.state_hash)
          (plan_commit rt cur applied proposal packet observation)
          (IsReady rt)
          (IsConsistent rt)
  unfolding plan_commit event_of Event.seal has_event list_events
  plan_commit-Ready cur applied proposal packet observation =
      Triple-lift (mark_render rt proposal (adjusted cur proposal applied)) _ (λ w p. p.0)
        λ next marked.
          Triple-lift _ _ (λ w p. p.0)
            λ action _.
              Triple-lift _ _ (λ w p. p.0)
                λ target _.
                  Triple-reads (list_events none none) _ (λ w p. p.0)
                    λ events.
                      let Listed : Store → Type 0 =
                        λ w. Has cur.state_hash w × (list_events none none w ≡ ok events) in
                      Triple-now Listed _ (λ w p. p) (λ w p. p.0.0)
                        λ created_at.
                          let kind = str_of rt (get_or "kind" (str "proposal") action) in
                          let target_id =
                            str_of rt (get_or "node_id" next.selected_object_id target) in
                          let e =
                            event_of rt created_at (suc (length events)) kind
                              (arguments_of kind packet) target_id cur next proposal observation in
                          Triple-reads _ _ (λ w p. p.0.0)
                            λ duplicate.
                              Triple-lift (guard (not duplicate) _) _ (λ w p. p.0.0.0)
                                λ _ passed. record {
                                  at = λ w p.
                                      (plan_job-Ready cur next e proposal (
                                          mark_render-IsSealed proposal
                                            (adjusted cur proposal applied) marked)).at
                                        w
                                        (record {
                                          consistent = p.0.0.0;
                                          index = rw (list_events-all w events p.0.1) refl;
                                          fresh =
                                              event_id_exists-has_event e.event_id w duplicate p.1
                                              ∙ not-false duplicate
                                                  (guard-eq-ok (not duplicate) _ passed);
                                          parent = p.0.0.1;
                                        });
                                }
