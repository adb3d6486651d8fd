-- ===== src/Engine/Extends.antt =====
-- The history only grows: no method of the engine takes back an event, or changes a state, a frame
-- or a memory that is stored.
pub mod Commits
pub mod Calls
use mathlib.Core.Path.{subst}
use simulation_ai.Prelude.{
  ℕ, suc, String, Bool, ◌≡◌, ◌∙◌, refl, ap, Option, none, some, List, [], ◌∷◌, ◌++◌,
}
use simulation_ai.Prelude.Texts.{str_append}
use simulation_ai.Prelude.Lists.{length}
use simulation_ai.Json.{Fields}
use simulation_ai.Json.Sort.{sort_fields}
use simulation_ai.Result.{ok, >>=-eq-ok, ok-injective, guard-then, missing_state}
use simulation_ai.Runtime.{Runtime}
use simulation_ai.Model.Patch.{PatchProposal}
use simulation_ai.Model.State.{SurfaceState, as_dict}
use simulation_ai.Model.Event.{EventEnvelope}
use simulation_ai.Model.Records.{
  ObservationReport, MemoryRecord, FrameManifest, RenderJob, frame_dict, memory_dict, job_dict,
}
use simulation_ai.Store.{Store, Dir, find, overwrite, write_once, find-write_once}
use simulation_ai.Store.States.{sealed, save_state, set_ref, state_exists, itself}
use simulation_ai.Store.Log.{append_event}
use simulation_ai.Store.Files.{
  save_frame, save_render_job, replace_render_job, save_memory, sealed_frame,
}
use simulation_ai.Exec.{Exec, writes, modify}
use simulation_ai.Exec.Stays.{
  Stays, Stays-always, Stays-pure, Stays-bind, Stays-reads, Stays-lift, Stays-gets, Stays-modify,
  Stays-writes, Stays-if,
}
use simulation_ai.Engine.Clock.{now, current}
use simulation_ai.Engine.Commit
use simulation_ai.Engine.Verify
use simulation_ai.Engine.Commit.{
  Plan, plan_verified, plan_job, plan_commit, write_plan, remember, commit_proposal, frame_at,
}
use simulation_ai.Engine.Branches.{write_branch, create_branch, switch_branch, branch_ref}
use simulation_ai.Engine.Verify.{commit_verdict, verify_render}
use simulation_ai.Engine.Histories.{
  Step, Reaches, commits, creates, switches, verifies, start, step,
}

-- Every file of the first directory is in the second, with its content.
abbrev pub Includes : {A : Type 0} → Dir A → Dir A → Type 0
Includes {A = A} d d' = (k : String) (a : A) → find k d ≡ some a → find k d' ≡ some a

-- The second store has the events of the first as the start of its log, and all its states, frames
-- and memories unchanged.
pub record Extends (w v : Store) : Type 0 where
  pub later : List EventEnvelope
  pub events : v.events ≡ w.events ++ later
  pub states : Includes w.states v.states
  pub frames : Includes w.frames v.frames
  pub memories : Includes w.memories v.memories

append_nil : {A : Type 0} (xs : List A) → xs ≡ xs ++ []
append_nil [] = refl
append_nil (x ∷ xs) = ap (λ l. x ∷ l) (append_nil xs)

append-append : {A : Type 0} (xs ys zs : List A) → (xs ++ ys) ++ zs ≡ xs ++ (ys ++ zs)
append-append [] ys zs = refl
append-append (x ∷ xs) ys zs = ap (λ l. x ∷ l) (append-append xs ys zs)

pub Extends-refl : (w : Store) → Extends w w
Extends-refl w = record {
  later = [];
  events = append_nil w.events;
  states = λ k a e. e;
  frames = λ k a e. e;
  memories = λ k a e. e;
}

pub Extends-trans : {w v u : Store} → Extends w v → Extends v u → Extends w u
Extends-trans {w = w} x y = record {
  later = x.later ++ y.later;
  events = y.events ∙ ap (λ l. l ++ y.later) x.events ∙ append-append w.events x.later y.later;
  states = λ k a e. y.states k a (x.states k a e);
  frames = λ k a e. y.frames k a (x.frames k a e);
  memories = λ k a e. y.memories k a (x.memories k a e);
}

-- A store with the same log, states, frames and memories as `v`.
pub repack :
    (w v : Store) (refs : Dir String) (jobs : Dir RenderJob) (ticks : ℕ)
    → Extends w v
    → Extends w (record v { refs = refs; render_jobs = jobs; ticks = ticks })
repack w v refs jobs ticks x = record {
  later = x.later;
  events = x.events;
  states = x.states;
  frames = x.frames;
  memories = x.memories;
}

module _ (rt : Runtime) (w : Store) where
  pub now-Stays : Stays (Extends w) (now rt)
  unfolding now
  now-Stays = record { at = λ v x. repack w v v.refs v.render_jobs (suc v.ticks) x }

  pub current-Stays : Stays (Extends w) current
  unfolding current
  current-Stays = Stays-reads (Extends w) _

  pub save_state-Stays : (s : SurfaceState) → Stays (Extends w) (writes (save_state rt s))
  unfolding save_state
  save_state-Stays s =
      let file = sort_fields (as_dict (sealed rt s)) in
      Stays-writes (Extends w) (save_state rt s) λ v u x e.
        let (states, written, r) =
          >>=-eq-ok (write_once itself (sealed rt s).state_hash file v.states) _ e in
        subst (Extends w) (ok-injective _ _ r) (record {
          later = x.later;
          events = x.events;
          states = λ k a f.
              find-write_once itself k v.states (sealed rt s).state_hash file a written
                (x.states k a f);
          frames = x.frames;
          memories = x.memories;
        })

  pub save_frame-Stays : (frame : FrameManifest) → Stays (Extends w) (writes (save_frame rt frame))
  unfolding save_frame
  save_frame-Stays frame = Stays-writes (Extends w) (save_frame rt frame) λ v u x e.
      let (frames, written, r) =
        >>=-eq-ok (write_once frame_dict frame.frame_id (sealed_frame rt frame) v.frames) _ e in
      subst (Extends w) (ok-injective _ _ r) (record {
        later = x.later;
        events = x.events;
        states = x.states;
        frames = λ k a f.
            find-write_once frame_dict k v.frames frame.frame_id (sealed_frame rt frame) a written
              (x.frames k a f);
        memories = x.memories;
      })

  pub save_memory-Stays : (memory : MemoryRecord) → Stays (Extends w) (writes (save_memory memory))
  unfolding save_memory
  save_memory-Stays memory = Stays-writes (Extends w) (save_memory memory) λ v u x e.
      let (memories, written, r) =
        >>=-eq-ok (write_once memory_dict memory.memory_id memory v.memories) _ e in
      subst (Extends w) (ok-injective _ _ r) (record {
        later = x.later;
        events = x.events;
        states = x.states;
        frames = x.frames;
        memories = λ k a f.
            find-write_once memory_dict k v.memories memory.memory_id memory a written
              (x.memories k a f);
      })

  pub save_render_job-Stays : (job : RenderJob) → Stays (Extends w) (writes (save_render_job job))
  unfolding save_render_job
  save_render_job-Stays job = Stays-writes (Extends w) (save_render_job job) λ v u x e.
      let (jobs, _, r) = >>=-eq-ok (write_once job_dict job.job_id job v.render_jobs) _ e in
      subst (Extends w) (ok-injective _ _ r) (repack w v v.refs jobs v.ticks x)

  pub set_ref-Stays : (name h : String) → Stays (Extends w) (writes (set_ref name h))
  unfolding set_ref state_exists
  set_ref-Stays name h = Stays-writes (Extends w) (set_ref name h) λ v u x e.
      let moved : Store = record v { refs = overwrite name h v.refs } in
      let (_, r) = guard-then (state_exists h v) missing_state (ok moved) e in
      subst (Extends w) (ok-injective _ _ r)
        (repack w v (overwrite name h v.refs) v.render_jobs v.ticks x)

  pub append_event-Stays : (e : EventEnvelope) → Stays (Extends w) (modify (append_event e))
  unfolding append_event
  append_event-Stays e = Stays-modify (Extends w) (append_event e) λ v x. record {
    later = x.later ++ e ∷ [];
    events = ap (λ l. l ++ e ∷ []) x.events ∙ append-append w.events x.later (e ∷ []);
    states = x.states;
    frames = x.frames;
    memories = x.memories;
  }
