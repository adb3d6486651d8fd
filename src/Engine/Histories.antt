-- ===== src/Engine/Histories.antt =====
-- Histories: the calls that change a session, in any order and with any outcome.
use simulation_ai.Prelude.{none, List}
use simulation_ai.Model.Event.{EventEnvelope}
use simulation_ai.Store.Log.{list_events}
use simulation_ai.Prelude.{String, false, ◌≡◌, suc, Option, [], some}
use simulation_ai.Prelude.Lists.{length}
use simulation_ai.Json.{Fields}
use simulation_ai.Result.{ok}
use simulation_ai.Runtime.{Runtime}
use simulation_ai.Model.Patch.{PatchProposal}
use simulation_ai.Model.State.{SurfaceState}
use simulation_ai.Model.Records.{ObservationReport}
use simulation_ai.Store.{Store}
use simulation_ai.Store.States.{load_state, read_ref}
use simulation_ai.Store.Log.{has_event}
use simulation_ai.Engine.Packet.{clean_branch_name}
use simulation_ai.Engine.Commit.{commit_proposal}
use simulation_ai.Engine.Branches.{create_branch, switch_branch, fork_state, fork_event}
use simulation_ai.Engine.Interact.{observe, propose, interact}
use simulation_ai.Engine.Interact.Keeps.{observe-Keeps, propose-Keeps, interact-Keeps}
use simulation_ai.Exec.Stays.{Stays-always}
use simulation_ai.Engine.Verify.{verify_render, verify_event}
use simulation_ai.Engine.Replay.{verify_replay}
use simulation_ai.Engine.Consistent.{IsConsistent, IsHex}
use simulation_ai.Engine.Consistent.Commit.{commit_proposal-IsConsistent, commit_proposal-Triple}
use simulation_ai.Engine.Consistent.Branches.{
  switch_branch-IsConsistent, create_branch-IsConsistent,
}
use simulation_ai.Engine.Consistent.Verify.{verify_render-IsConsistent}
use simulation_ai.Engine.Consistent.Replay.{verify_replay-IsConsistent}

-- One call on the store, whether it returns or raises. The two calls that compute the ID of their
-- event without a check of the log come with the condition that it is new.
pub data Step (rt : Runtime) : Store → Store → Type 0 where
  commits :
      {w : Store} (proposal : PatchProposal) (packet : Option Fields)
      (observation : Option ObservationReport)
      → Step rt w (commit_proposal rt proposal packet observation w).1
  observes : {w : Store} (packet : Fields) → Step rt w (observe rt packet w).1
  proposes :
      {w : Store} (packet : Fields) (observation : Option ObservationReport)
      → Step rt w (propose rt packet observation w).1
  interacts : {w : Store} (packet : Fields) → Step rt w (interact rt packet w).1
  creates :
      {w : Store} (name : String)
      → ((clean : String) (cur branch : SurfaceState)
          → clean_branch_name rt name ≡ ok clean
          → load_state "HEAD" w ≡ ok cur
          → fork_state rt clean cur ≡ ok branch
          → has_event (fork_event rt "" 0 cur branch).event_id w.events ≡ false)
      → Step rt w (create_branch rt name w).1
  switches : {w : Store} (name : String) → Step rt w (switch_branch rt name w).1
  verifies :
      {w : Store} (job_id : String) (decision : Fields)
      → ((s : SurfaceState)
          → load_state "HEAD" w ≡ ok s
          → has_event
              (verify_event rt "" 0 job_id decision s
                (record s { logical_time = suc s.logical_time })).event_id
              w.events
            ≡ false)
      → Step rt w (verify_render rt job_id decision w).1

pub data Reaches (rt : Runtime) : Store → Store → Type 0 where
  start : {w : Store} → Reaches rt w w
  step : {w v u : Store} → Step rt w v → Reaches rt v u → Reaches rt w u

module _ (rt : Runtime) (hex : IsHex rt) where
  -- On a consistent store, an interaction leaves a consistent store, whether it succeeds or raises.
  -- The digests have no white space at their ends. The log of a consistent store may hold events that
  -- `list_events` cannot read back.
  pub interact-IsConsistent :
      (packet : Fields) (w : Store) → IsConsistent rt w → IsConsistent rt (interact rt packet w).1
  interact-IsConsistent packet w c =
      Stays-always (IsConsistent rt) (interact rt packet)
        (interact-Keeps rt (IsConsistent rt) (λ w t e p i. i) packet
          λ p sanitized o. commit_proposal-Triple rt hex p (some sanitized) (some o))
        w c

  Step-IsConsistent : {w v : Store} → Step rt w v → IsConsistent rt w → IsConsistent rt v
  Step-IsConsistent (commits {w = w} proposal packet observation) c =
      commit_proposal-IsConsistent rt hex proposal packet observation w c
  Step-IsConsistent (observes {w = w} packet) c =
      Stays-always (IsConsistent rt) _ (observe-Keeps rt (IsConsistent rt) (λ w t e p i. i) packet)
        w c
  Step-IsConsistent (proposes {w = w} packet observation) c =
      Stays-always (IsConsistent rt) _
        (propose-Keeps rt (IsConsistent rt) (λ w t e p i. i) packet observation) w c
  Step-IsConsistent (interacts {w = w} packet) c = interact-IsConsistent packet w c
  Step-IsConsistent (creates {w = w} name fresh) c =
      create_branch-IsConsistent rt hex name w c fresh
  Step-IsConsistent (switches {w = w} name) c = switch_branch-IsConsistent rt hex name w c
  Step-IsConsistent (verifies {w = w} job_id decision fresh) c =
      verify_render-IsConsistent rt hex job_id decision w c fresh

  pub Reaches-IsConsistent : {w v : Store} → Reaches rt w v → IsConsistent rt w → IsConsistent rt v
  Reaches-IsConsistent start c = c
  Reaches-IsConsistent (step s r) c = Reaches-IsConsistent r (Step-IsConsistent s c)

  -- Whatever the calls on a consistent store were, and wherever they raised, the replay check of
  -- the store that they leave finds no problem, if its HEAD and its log can be read. The IDs that `create_branch`
  -- and `verify_render` compute are new each time, and the digests have no white space at their ends.
  pub verify_replay-Reaches :
      {w v : Store} (head : String) (events : List EventEnvelope)
      → IsConsistent rt w
      → Reaches rt w v
      → read_ref "HEAD" v ≡ ok head
      → list_events none none v ≡ ok events
      → verify_replay rt v
        ≡ ok (record {
          event_count = length v.events;
          state_count = length v.states;
          head = head;
          problems = [];
        })
  verify_replay-Reaches {v = v} head events c r h l =
      verify_replay-IsConsistent rt v head events (Reaches-IsConsistent r c) h l
