-- ===== src/Engine/Consistent/Branches.antt =====
-- `switch_branch` and `create_branch` keep the invariant.
use mathlib.Core.Path.{subst}
use simulation_ai.Store.Log.{list_events, list_events-all}
use simulation_ai.Prelude.{none}
use simulation_ai.Prelude.{suc, String, false, ◌≡◌, refl, List, ◌==◌}
use simulation_ai.Prelude.Lists.{length, any}
use simulation_ai.Result.{ok, >>=-eq-ok, ok-injective, guard}
use simulation_ai.Runtime.{Runtime}
use simulation_ai.Model.State.{SurfaceState}
use simulation_ai.Model.Event
use simulation_ai.Model.Event.{EventEnvelope, hash_of}
use simulation_ai.Store.{Store}
use simulation_ai.Store.States.{save_state, set_ref, load_state, read_ref}
use simulation_ai.Store.Log.{append_event, has_event}
use simulation_ai.Exec.{writes}
use simulation_ai.Exec.Triple.{
  Post-always, Triple, Triple-pure, Triple-modify, Triple-writes, Triple-bind, Triple-lift,
  Triple-gets, Triple-reads, Triple-read,
}
use simulation_ai.Engine.Clock.{current}
use simulation_ai.Engine.Packet.{clean_branch_name}
use simulation_ai.Engine.Branches.{
  write_branch, create_branch, switch_branch, fork_layers, fork_state, fork_event, branch_ref,
}
use simulation_ai.Engine.Consistent.{IsSealed, IsConsistent, IsHex}
use simulation_ai.Engine.Consistent.States.{seal-IsSealed, load_state-Loaded}
use simulation_ai.Engine.Consistent.Refs.{set_ref-Moved}
use simulation_ai.Engine.Consistent.Holds.{
  tick-Holds, Holds, save_state-Holds, set_ref-Holds, append_event-Holds,
}
use simulation_ai.Engine.Consistent.Planning.{Triple-now, hash_of-seal}

module _ (rt : Runtime) (hex : IsHex rt) where
  -- On a consistent store, switching to a branch leaves a consistent store, whether it succeeds or
  -- raises. The digests have no white space at their ends.
  pub switch_branch-IsConsistent :
      (name : String) (w : Store) → IsConsistent rt w → IsConsistent rt (switch_branch rt name w).1
  unfolding switch_branch
  switch_branch-IsConsistent name w c = Post-always (IsConsistent rt) (switch_branch rt name w) (
      (Triple-lift {R = λ _. IsConsistent rt} (clean_branch_name rt name) _ (λ w p. p)
          λ clean _. Triple-gets _ _ λ refs.
            Triple-lift (guard _ _) _ (λ w p. p.0)
              λ _ _.
                Triple-reads (read_ref (branch_ref clean)) _ (λ w p. p.0)
                  λ state_hash.
                    Triple-bind (λ _. IsConsistent rt) (writes (set_ref "HEAD" state_hash)) _
                      (Triple-writes (set_ref "HEAD" state_hash)
                        (λ w w' p e.
                          (set_ref-Moved rt hex "HEAD" state_hash w w' p.0.0 e).consistent)
                        (λ w p. p.0.0))
                      λ _. Triple-read (load_state "HEAD") λ w p. p).at
        w c)

  fork_state-IsSealed :
      (clean : String) (cur : SurfaceState) {branch : SurfaceState}
      → fork_state rt clean cur ≡ ok branch
      → IsSealed rt branch
  unfolding fork_state
  fork_state-IsSealed clean cur h =
      let (layers, _, e) = >>=-eq-ok (fork_layers cur) _ h in
      subst (IsSealed rt) (ok-injective _ _ e) (
        seal-IsSealed rt (record cur {
          parent_state_hash = cur.state_hash;
          logical_time = suc cur.logical_time;
          branch = clean;
          layer_state = layers;
        }))

  write_branch-Consistent :
      (cur branch : SurfaceState) (es : List EventEnvelope)
      → IsSealed rt branch
      → any (λ x. x.event_id == (fork_event rt "" 0 cur branch).event_id) es ≡ false
      → Triple
          (Holds rt es cur.state_hash cur.state_hash)
          (write_branch rt cur branch)
          (λ _. IsConsistent rt)
          (IsConsistent rt)
  unfolding write_branch fork_event Event.seal list_events
  write_branch-Consistent cur branch es is fresh =
      let a = cur.state_hash in
      let b = branch.state_hash in
      Triple-bind (λ _. Holds rt es a b) _ _
        (Triple-writes (save_state rt branch)
          (λ w w' p e. save_state-Holds rt es a branch w w' is p e) (λ w p. p.consistent))
        λ _.
          Triple-bind (λ _. Holds rt es a b) _ _ (set_ref-Holds rt hex es a b "HEAD" b)
            λ _.
              Triple-bind (λ _. Holds rt es a b) _ _
                (set_ref-Holds rt hex es a b (branch_ref branch.branch) b)
                λ _.
                  Triple-reads (list_events none none) _ (λ w p. p.consistent)
                    λ events.
                      let Read : Store → Type 0 =
                        λ w. Holds rt es a b w × (list_events none none w ≡ ok events) in
                      Triple-now rt Read _ (λ w p. (tick-Holds rt es a b w p.0, p.1))
                        (λ w p. p.0.consistent)
                        λ created_at.
                          let e = fork_event rt created_at (suc (length events)) cur branch in
                          Triple-modify (append_event e) λ w p.
                            append_event-Holds rt hex es e a b (hash_of-seal rt e) refl refl
                              (rw (← list_events-all w events p.1, p.0.events) refl) fresh w p.0

  -- On a consistent store, creating a branch leaves a consistent store, whether it succeeds or
  -- raises, if no event has the ID that the event of the new branch gets.
  -- The digests have no white space at their ends.
  pub create_branch-IsConsistent :
      (name : String) (w : Store)
      → IsConsistent rt w
      → ((clean : String) (cur branch : SurfaceState)
          → clean_branch_name rt name ≡ ok clean
          → load_state "HEAD" w ≡ ok cur
          → fork_state rt clean cur ≡ ok branch
          → has_event (fork_event rt "" 0 cur branch).event_id w.events ≡ false)
      → IsConsistent rt (create_branch rt name w).1
  unfolding create_branch current has_event
  create_branch-IsConsistent name w c fresh =
      let Same : Store → Type 0 = λ v. v ≡ w in
      Post-always (IsConsistent rt) (create_branch rt name w) (
        (Triple-lift {P = Same} {R = λ _. IsConsistent rt} (clean_branch_name rt name) _
            (λ v p. rw p c)
            λ clean named. Triple-gets _ _ λ refs.
              Triple-lift (guard _ _) _ (λ v p. rw p.0 c)
                λ _ _.
                  Triple-reads (load_state "HEAD") _ (λ v p. rw p.0 c)
                    λ cur.
                      Triple-lift (fork_state rt clean cur) _ (λ v p. rw p.0.0 c)
                        λ branch forked. record {
                          at = λ v p.
                              let loaded = rw p.0.0 at p.1 in
                              let there = (load_state-Loaded rt w "HEAD" cur c loaded).there in
                              let start : Holds rt w.events cur.state_hash cur.state_hash v =
                                rw p.0.0 (record {
                                  consistent = c;
                                  events = refl;
                                  parent_there = there;
                                  result_there = there;
                                }) in
                              (Triple-bind (λ _. IsConsistent rt) _ _
                                  (write_branch-Consistent cur branch w.events
                                    (fork_state-IsSealed clean cur forked)
                                    (fresh clean cur branch named loaded forked))
                                  λ _. Triple-pure branch λ v p. p).at
                                v start;
                        }).at
          w refl)
