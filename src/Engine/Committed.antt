-- ===== src/Engine/Committed.antt =====
-- What the state is like that `commit_proposal` commits: after the entropy, the coherence and the render record
-- were set, and the state was sealed again.
use mathlib.Core.Path.{subst}
use simulation_ai.Prelude.{
  suc, String, ◌≡◌, sym, refl, ◌∙◌, arith, Option, true, false, ◌==◌, if◌then◌else◌,
}
use simulation_ai.Prelude.Int.{pos, ltb_ℤ}
use simulation_ai.Json.{Value, str, Fields}
use simulation_ai.Result.{Result, ok, err, >>=-eq-ok, ok-injective}
use simulation_ai.Runtime.{Runtime, digest, str_of}
use simulation_ai.Exec.{Exec, pure, ◌>>=◌}
use simulation_ai.Prelude.Lists.{length}
use simulation_ai.Json.Dict.{get_or}
use simulation_ai.Exec.Triple.{
  Post, Triple, Triple-pure, Triple-if, Triple-bind, Triple-lift, Triple-reads,
}
use simulation_ai.Model.{in_unit}
use simulation_ai.Model.State.{SurfaceState, seal, payload}
use simulation_ai.Model.Patch.{PatchProposal}
use simulation_ai.Model.Event.{EventEnvelope}
use simulation_ai.Model.Records.{ObservationReport, MemoryRecord, FrameManifest}
use simulation_ai.Patch.{apply_proposal}
use simulation_ai.Patch.Invariants.{IsSound, apply_proposal-IsSound}
use simulation_ai.Patch.Protected.Outcome.{Continues, apply_proposal-Continues}
use simulation_ai.Render.{render_id}
use simulation_ai.Store.{Store}
use simulation_ai.Store.States.{load_state}
use simulation_ai.Engine.Clock.{put_item, current}
use simulation_ai.Engine.Commit.{
  Plan, adjusted, mark_render, render_mode, render_status, present_frame, plan_queued,
  plan_verified, plan_job, plan_commit, write_plan, remember, commit_proposal, event_of,
  arguments_of,
}

-- The committed state keeps these fields of its parent, comes right after it in time, and names it.
pub record Follows (cur next : SurfaceState) : Type 0 where
  pub schema_version : next.schema_version ≡ cur.schema_version
  pub map_id : next.map_id ≡ cur.map_id
  pub target : next.target ≡ cur.target
  pub profile : next.profile ≡ cur.profile
  pub mode : next.mode ≡ cur.mode
  pub seed : next.seed ≡ cur.seed
  pub branch : next.branch ≡ cur.branch
  pub provenance : next.provenance ≡ cur.provenance
  pub logical_time : next.logical_time ≡ suc cur.logical_time
  pub parent_state_hash : next.parent_state_hash ≡ cur.state_hash

-- What every step of a commit keeps.
record Facts (rt : Runtime) (cur next : SurfaceState) : Type 0 where
  follows : Follows cur next
  sound : IsSound next
  sealed : next.state_hash ≡ digest rt (payload next)

adjusted-entropy :
    (cur next : SurfaceState) (p : PatchProposal)
    → ltb_ℤ (adjusted cur p next).entropy_bits (pos 0) ≡ false
unfolding adjusted
adjusted-entropy cur next p = ground arith

adjusted-coherence :
    (cur next : SurfaceState) (p : PatchProposal) → in_unit (adjusted cur p next).coherence ≡ true
unfolding adjusted in_unit
adjusted-coherence cur next p = ground arith

keeps_Post :
    {A : Type 0} (F : Type 0) (x : Result A × Store) → F → Post {A = A} (λ a w. F) (λ w. Unit {0}) x
keeps_Post F (ok a, w) f = f
keeps_Post F (err e, w) f = tt

-- what holds of no store holds after any action
keeps : {A : Type 0} (F : Type 0) (m : Exec Store A) → Triple (λ w. F) m (λ a w. F) (λ w. Unit {0})
keeps F m = record { at = λ w f. keeps_Post F (m w) f }

module _ (rt : Runtime) (cur : SurfaceState) where
  seal-Facts :
      (s : SurfaceState) (render : Value)
      → Follows cur s
      → IsSound s
      → Facts rt cur (seal rt (record s { render = render }))
  unfolding seal payload
  seal-Facts s render f i = record {
    follows = record {
      schema_version = f.schema_version;
      map_id = f.map_id;
      target = f.target;
      profile = f.profile;
      mode = f.mode;
      seed = f.seed;
      branch = f.branch;
      provenance = f.provenance;
      logical_time = f.logical_time;
      parent_state_hash = f.parent_state_hash;
    };
    sound = record {
      objects = i.objects;
      selected = i.selected;
      coherence = i.coherence;
      entropy = i.entropy;
    };
    sealed = refl;
  }

  adjusted-Follows :
      (p : PatchProposal) (applied : SurfaceState)
      → Continues cur applied
      → Follows cur (adjusted cur p applied)
  unfolding adjusted
  adjusted-Follows p applied c = record {
    schema_version = c.schema_version;
    map_id = c.map_id;
    target = c.target;
    profile = c.profile;
    mode = c.mode;
    seed = c.seed;
    branch = c.branch;
    provenance = c.provenance;
    logical_time = c.logical_time;
    parent_state_hash = c.parent_state_hash;
  }

  adjusted-IsSound :
      (p : PatchProposal) (applied : SurfaceState)
      → IsSound applied
      → IsSound (adjusted cur p applied)
  unfolding adjusted
  adjusted-IsSound p applied i = record {
    objects = i.objects;
    selected = i.selected;
    coherence = adjusted-coherence cur applied p;
    entropy = adjusted-entropy cur applied p;
  }

  mark_render-Facts :
      (p : PatchProposal) (s : SurfaceState) {next : SurfaceState}
      → Follows cur s
      → IsSound s
      → mark_render rt p s ≡ ok next
      → Facts rt cur next
  unfolding mark_render
  mark_render-Facts p s f i h =
      let (r₁, _, h₁) = >>=-eq-ok (put_item s.render "status" (str (render_status rt p))) _ h in
      let (r₂, _, h₂) = >>=-eq-ok (put_item r₁ "requested_mode" (str (render_mode rt p))) _ h₁ in
      let job_id : String = if render_status rt p == "queued" then render_id rt p else "" in
      let (r₃, _, e) = >>=-eq-ok (put_item r₂ "pending_job_id" (str job_id)) _ h₂ in
      subst (Facts rt cur) (ok-injective _ _ e) (seal-Facts s r₃ f i)

  present_frame-Facts :
      (frame : FrameManifest) (next : SurfaceState) {shown : SurfaceState}
      → Facts rt cur next
      → present_frame rt frame next ≡ ok shown
      → Facts rt cur shown
  unfolding present_frame
  present_frame-Facts frame next f h =
      let (r, _, e) =
        >>=-eq-ok (put_item next.render "committed_frame_id" (str frame.frame_id)) _ h in
      subst (Facts rt cur) (ok-injective _ _ e) (seal-Facts next r f.follows f.sound)

  -- an action of which only the result matters
  abbrev Gives : {A : Type 0} → Exec Store A → (A → Type 0) → Type 0
  Gives m Q = Triple (λ w. Unit {0}) m (λ a w. Q a) (λ w. Unit {0})

  then-Gives :
      {A B : Type 0} (m : Exec Store A) (f : A → Exec Store B) {Q : B → Type 0}
      → ((a : A) → Gives (f a) Q)
      → Gives (m >>= f) Q
  then-Gives m f k = Triple-bind (λ a w. Unit {0}) m f (keeps (Unit {0}) m) k

  plan_job-Gives :
      (next : SurfaceState) (e : EventEnvelope) (p : PatchProposal)
      → Facts rt cur next
      → Gives (plan_job rt cur next e p) (λ plan. Facts rt cur plan.next_state)
  unfolding plan_job plan_queued plan_verified
  plan_job-Gives next e p f = then-Gives _ _ λ base. then-Gives _ _ λ created_at.
      then-Gives _ _ λ updated_at. then-Gives _ _ λ job. then-Gives _ _ λ _.
        Triple-if (job.status == "verified") _ _
          (λ _. then-Gives _ _ λ frame_time. then-Gives _ _ λ frame.
            Triple-lift (present_frame rt frame next) _ (λ w u. u)
              λ shown is. Triple-pure _ λ w u. present_frame-Facts frame next f is)
          (λ _. Triple-pure _ λ w u. f)

  plan_commit-Gives :
      (applied : SurfaceState) (p : PatchProposal) (packet : Option Fields)
      (observation : Option ObservationReport)
      → Continues cur applied
      → IsSound applied
      → Gives
          (plan_commit rt cur applied p packet observation)
          (λ plan. Facts rt cur plan.next_state)
  unfolding plan_commit
  plan_commit-Gives applied p packet observation c i =
      Triple-lift (mark_render rt p (adjusted cur p applied)) _ (λ w u. u)
        λ next marked. then-Gives _ _ λ action. then-Gives _ _ λ target. then-Gives _ _ λ events.
          then-Gives _ _ λ created_at.
            let kind = str_of rt (get_or "kind" (str "proposal") action) in
            let target_id = str_of rt (get_or "node_id" next.selected_object_id target) in
            let e =
              event_of rt created_at (suc (length events)) kind (arguments_of kind packet) target_id
                cur next p observation in
            then-Gives _ _ λ duplicate. then-Gives _ _ λ _. plan_job-Gives next e p (
              mark_render-Facts p (adjusted cur p applied) (adjusted-Follows p applied c)
                (adjusted-IsSound p applied i) marked)

after_plan-Facts :
    (rt : Runtime) (cur : SurfaceState) (observation : Option ObservationReport) (plan : Plan)
    → Triple {A = Plan × MemoryRecord}
        (λ w. Facts rt cur plan.next_state)
        (write_plan rt plan >>= λ _. remember rt plan observation >>= λ memory. pure (plan, memory))
        (λ r w. Facts rt cur r.0.next_state)
        (λ w. Unit {0})
after_plan-Facts rt cur observation plan =
    let F = Facts rt cur plan.next_state in
    Triple-bind (λ _ w. F) _ _ (keeps F (write_plan rt plan))
      λ _.
        Triple-bind (λ _ w. F) _ _ (keeps F (remember rt plan observation))
          λ memory. Triple-pure (plan, memory) λ w f. f

commit_proposal-Facts :
    (rt : Runtime) (p : PatchProposal) (packet : Option Fields)
    (observation : Option ObservationReport) (w w' : Store) (cur : SurfaceState) (plan : Plan)
    (memory : MemoryRecord)
    → load_state "HEAD" w ≡ ok cur
    → commit_proposal rt p packet observation w ≡ (ok (plan, memory), w')
    → Facts rt cur plan.next_state
unfolding commit_proposal current
commit_proposal-Facts rt p packet observation w w' cur plan memory l h =
    subst (Post (λ (r : Plan × MemoryRecord) v. Facts rt cur r.0.next_state) (λ v. Unit {0})) h (
      (Triple-reads {P = λ v. load_state "HEAD" v ≡ ok cur} (load_state "HEAD") _ (λ v q. tt)
          λ c. record {
            at = λ v q.
                let same : cur ≡ c = ok-injective _ _ (sym q.0 ∙ q.1) in
                (Triple-lift {P = λ v. Unit {0}} (apply_proposal rt c p) _ (λ v q. tt)
                    λ applied is.
                      Triple-bind (λ plan v. Facts rt cur plan.next_state) _ _
                        (subst
                          (λ c.
                            Gives rt cur (plan_commit rt c applied p packet observation)
                              (λ plan. Facts rt cur plan.next_state))
                          same
                          (plan_commit-Gives rt cur applied p packet observation
                            (apply_proposal-Continues rt cur p (rw same is)).0
                            (apply_proposal-IsSound rt cur p (rw same is))))
                        λ plan. after_plan-Facts rt cur observation plan).at
                  v tt;
          }).at
        w l)

-- A state that `commit_proposal` returns keeps these fields of the current state: the schema, the map, the
-- target, the profile, the mode, the seed, the branch and the provenance. It comes right after the current
-- state in time, names it as its parent, and has the digest of its payload as its hash.
pub commit_proposal-Follows :
    (rt : Runtime) (p : PatchProposal) (packet : Option Fields)
    (observation : Option ObservationReport) (w w' : Store) (cur : SurfaceState) (plan : Plan)
    (memory : MemoryRecord)
    → load_state "HEAD" w ≡ ok cur
    → commit_proposal rt p packet observation w ≡ (ok (plan, memory), w')
    → Follows cur plan.next_state
      × (plan.next_state.state_hash ≡ digest rt (payload plan.next_state))
commit_proposal-Follows rt p packet observation w w' cur plan memory l h =
    let f = commit_proposal-Facts rt p packet observation w w' cur plan memory l h in
    (f.follows, f.sealed)
