-- ===== src/Store/Log.antt =====
-- The event log: `append_event`, `list_events`, `event_id_exists`.
pub mod Latest
use simulation_ai.Prelude.{
  ℕ, zero, suc, ◌-◌, ◌≡◌, refl, arith, String, Bool, Option, none, some, List, [], ◌∷◌, ◌++◌, ◌==◌,
  if◌then◌else◌, min,
}
use simulation_ai.Prelude.Int.{ℤ, pos, negsuc, pos_part}
use simulation_ai.Prelude.Lists.{length, last_slice, any, length-drop}
use simulation_ai.Model.Event.{EventEnvelope}
use simulation_ai.Result.{
  Result, ok, value_error, guard, ◌>>=◌, ◌>>◌, guard-then, >>=-eq-ok, ok-injective,
}
use simulation_ai.Store.Lines.{reads_back}
use simulation_ai.Prelude.Lists.{all}
use simulation_ai.Store.Records.{Store}

-- The line that it writes may be one that `list_events` cannot read: see `reads_back`.
unfoldable pub append_event : EventEnvelope → Store → Store
append_event e w = record w { events = w.events ++ e ∷ [] }

-- `[event for event in events if event.branch == branch]`
unfoldable pub on_branch : String → List EventEnvelope → List EventEnvelope
on_branch branch [] = []
on_branch branch (e ∷ es) =
    let rest = on_branch branch es in if e.branch == branch then e ∷ rest else rest

of_branch : Option String → List EventEnvelope → List EventEnvelope
unfolding on_branch
of_branch none es = es
of_branch (some branch) es = on_branch branch es

-- `events[-max(0, limit):]`
latest : Option ℤ → List EventEnvelope → List EventEnvelope
latest none es = es
latest (some limit) es = last_slice (pos_part limit) es

-- every line of the log is parsed before one is returned; a JSONDecodeError is a ValueError
unfoldable pub list_events : Option String → Option ℤ → Store → Result (List EventEnvelope)
unfolding of_branch latest reads_back
list_events branch limit w = do
  guard (all reads_back w.events) value_error
  ok (latest limit (of_branch branch w.events))

unfoldable pub has_event : String → List EventEnvelope → Bool
has_event event_id events = any (λ e. e.event_id == event_id) events

unfoldable pub event_id_exists : String → Store → Result Bool
unfolding list_events has_event
event_id_exists event_id w = do events ← list_events none none w; ok (has_event event_id events)

-- The whole log is what was appended, if it can be read.
pub list_events-all :
    (w : Store) (events : List EventEnvelope)
    → list_events none none w ≡ ok events
    → w.events ≡ events
unfolding list_events of_branch latest
list_events-all w events h =
    let (_, same) = guard-then (all reads_back w.events) value_error _ h in ok-injective _ _ same

pub event_id_exists-has_event :
    (event_id : String) (w : Store) (b : Bool)
    → event_id_exists event_id w ≡ ok b
    → has_event event_id w.events ≡ b
unfolding event_id_exists
event_id_exists-has_event event_id w b h =
    let (events, listed, found) = >>=-eq-ok (list_events none none w) _ h in
    rw (list_events-all w events listed) (ok-injective _ _ found)
