-- ===== src/Engine/Consistent/Holds.antt =====
-- The steps that `create_branch` and `verify_render` share, against the invariant.

use simulation_ai.Prelude.{suc, String, true, false, ◌≡◌, List, ◌==◌}
use simulation_ai.Prelude.Lists.{length, any}
use simulation_ai.Result.{ok}
use simulation_ai.Runtime.{Runtime}
use simulation_ai.Model.State.{SurfaceState}
use simulation_ai.Model.Event.{EventEnvelope, hash_of}
use simulation_ai.Store.{Store, exists}
use simulation_ai.Store.States.{save_state, set_ref}
use simulation_ai.Store.Log.{append_event}
use simulation_ai.Exec.{writes, pure, ◌>>=◌}
use simulation_ai.Exec.Triple.{Triple, Triple-writes, Triple-bind, Triple-pure}
use simulation_ai.Engine.Consistent.{IsSealed, IsConsistent, IsHex}
use simulation_ai.Engine.Consistent.States.{save_state-Saved}
use simulation_ai.Engine.Consistent.Log.{append_event-IsConsistent}
use simulation_ai.Engine.Consistent.Refs.{set_ref-Moved, set_ref-Triple}

-- A consistent store with these events and the states of two hashes.
pub record Holds (rt : Runtime) (es : List EventEnvelope) (parent result : String) (w : Store)
    : Type 0 where
  pub consistent : IsConsistent rt w
  pub events : w.events ≡ es
  pub parent_there : exists parent w.states ≡ true
  pub result_there : exists result w.states ≡ true

-- Saving the resulting state beside the parent.
pub save_state-Holds :
    (rt : Runtime) (es : List EventEnvelope) (parent : String) (s : SurfaceState) (w w' : Store)
    → IsSealed rt s
    → Holds rt es parent parent w
    → save_state rt s w ≡ ok w'
    → Holds rt es parent s.state_hash w'
save_state-Holds rt es parent s w w' is h e =
    let saved = save_state-Saved rt s w is h.consistent w' e in
    record {
      consistent = saved.consistent;
      events = rw saved.same_events h.events;
      parent_there = saved.grows parent h.parent_there;
      result_there = saved.there;
    }

-- Reading the clock changes nothing of it.
pub tick-Holds :
    (rt : Runtime) (es : List EventEnvelope) (parent result : String) (w : Store)
    → Holds rt es parent result w
    → Holds rt es parent result (record w { ticks = suc w.ticks })
tick-Holds rt es parent result w h = record {
  consistent = h.consistent;
  events = h.events;
  parent_there = h.parent_there;
  result_there = h.result_there;
}

module _ (rt : Runtime) (hex : IsHex rt) where
  -- Moving HEAD and the ref of a branch to a state, as the last writes.
  pub set_heads-Triple :
      {A : Type 0} (ref h : String) (a : A)
      → Triple
          (IsConsistent rt)
          (writes (set_ref "HEAD" h) >>= λ _. writes (set_ref ref h) >>= λ _. pure a)
          (λ _. IsConsistent rt)
          (IsConsistent rt)
  set_heads-Triple ref h a =
      Triple-bind (λ _. IsConsistent rt) _ _ (set_ref-Triple rt hex "HEAD" h)
        λ _.
          Triple-bind (λ _. IsConsistent rt) _ _ (set_ref-Triple rt hex ref h)
            λ _. Triple-pure a λ w p. p

  pub set_ref-Holds :
      (es : List EventEnvelope) (a b name h : String)
      → Triple (Holds rt es a b) (writes (set_ref name h)) (λ _. Holds rt es a b) (IsConsistent rt)
  set_ref-Holds es a b name h =
      Triple-writes (set_ref name h)
        (λ w w' p e.
          let moved = set_ref-Moved rt hex name h w w' p.consistent e in
          record {
            consistent = moved.consistent;
            events = rw moved.same_events p.events;
            parent_there = rw moved.same_states p.parent_there;
            result_there = rw moved.same_states p.result_there;
          })
        (λ w p. p.consistent)

  pub append_event-Holds :
      (es : List EventEnvelope) (e : EventEnvelope) (a b : String)
      → hash_of rt e ≡ e.event_hash
      → e.parent_state_hash ≡ a
      → e.resulting_state_hash ≡ b
      → e.index ≡ suc (length es)
      → any (λ x. x.event_id == e.event_id) es ≡ false
      → (w : Store) → Holds rt es a b w
      → IsConsistent rt (append_event e w)
  append_event-Holds es e a b sealed parent result index fresh w p =
      append_event-IsConsistent rt w e p.consistent
        (record {
          sealed = sealed;
          parent = rw parent p.parent_there;
          result = rw result p.result_there;
        })
        (rw p.events index) (rw p.events fresh)
