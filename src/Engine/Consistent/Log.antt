-- ===== src/Engine/Consistent/Log.antt =====
-- Appending an event keeps the log numbered, without repeated IDs and sealed.
use simulation_ai.Prelude.{
  ℕ, suc, ◌+◌, arith, String, Bool, true, false, ◌||◌, ◌≡◌, ◌==◌, refl, List, [], ◌∷◌, ◌++◌, eq_iff,
}
use simulation_ai.Prelude.Lists.{length, any}
use simulation_ai.Json.{Fields}
use simulation_ai.Runtime.{Runtime}
use simulation_ai.Model.{one_of}
use simulation_ai.Model.Event.{EventEnvelope, hash_of}
use simulation_ai.Store.{Store, Dir, exists}
use simulation_ai.Store.Log.{append_event}
use simulation_ai.Engine.Consistent.{IsLog, IsConsistent}

-- An event that may come next in a log.
pub record Next (rt : Runtime) (states : Dir Fields) (e : EventEnvelope) : Type 0 where
  pub sealed : hash_of rt e ≡ e.event_hash
  pub parent : exists e.parent_state_hash states ≡ true
  pub result : exists e.resulting_state_hash states ≡ true

one_of-cons :
    (k j : String) (l : List String)
    → one_of k l ≡ false
    → (j == k) ≡ false
    → one_of k (j ∷ l) ≡ false
unfolding one_of
one_of-cons k j l h n = ground (arith, eq_iff k j, eq_iff j k)

neither : (a b : Bool) → (a || b) ≡ false → (a ≡ false) × (b ≡ false)
neither a b h = ground arith

IsLog-append :
    (rt : Runtime) (states : Dir Fields) (n : ℕ) (seen : List String) (es : List EventEnvelope)
    (e : EventEnvelope)
    → IsLog rt states n seen es
    → Next rt states e
    → e.index ≡ n + length es
    → one_of e.event_id seen ≡ false
    → any (λ x. x.event_id == e.event_id) es ≡ false
    → IsLog rt states n seen (es ++ e ∷ [])
IsLog-append rt states n seen [] e h next i old new =
    (omega arith, old, next.sealed, next.parent, next.result, tt)
IsLog-append rt states n seen (x ∷ es) e (at, fresh, sealed, parent, result, rest) next i old new =
    let (other, later) =
      neither (x.event_id == e.event_id) (any (λ y. y.event_id == e.event_id) es) new in
    (
      at,
      fresh,
      sealed,
      parent,
      result,
      IsLog-append rt states (suc n) (x.event_id ∷ seen) es e rest next (omega arith)
          (one_of-cons e.event_id x.event_id seen old other) later,
    )

one_of-nil : (k : String) → one_of k [] ≡ false
unfolding one_of
one_of-nil k = refl

pub append_event-IsConsistent :
    (rt : Runtime) (w : Store) (e : EventEnvelope)
    → IsConsistent rt w
    → Next rt w.states e
    → e.index ≡ suc (length w.events)
    → any (λ x. x.event_id == e.event_id) w.events ≡ false
    → IsConsistent rt (append_event e w)
unfolding append_event
append_event-IsConsistent rt w e c next i fresh = record {
  files = c.files;
  heads = c.heads;
  log =
      IsLog-append rt w.states 1 [] w.events e c.log next (omega (arith, i)) (one_of-nil e.event_id)
        fresh;
}
