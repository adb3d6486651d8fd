-- ===== src/Engine/Replay.antt =====
-- `verify_replay`: the check of the whole store.
use simulation_ai.Prelude.{none}
use simulation_ai.Store.Log.{list_events}
use simulation_ai.Prelude.{
  ℕ, suc, String, Bool, true, false, not, List, [], ◌∷◌, ◌++◌, ◌==◌, nat_eq,
}
use simulation_ai.Prelude.Lists.{length}
use simulation_ai.Json.{Fields}
use simulation_ai.Result.{Result, ok, ◌>>=◌}
use simulation_ai.Runtime.{Runtime}
use simulation_ai.Model.{one_of}
use simulation_ai.Model.State.{from_dict, seal}
use simulation_ai.Model.Event.{EventEnvelope, hash_of}
use simulation_ai.Store.{Store, Dir}
use simulation_ai.Store.States.{state_exists, read_ref, list_refs}

-- One constructor for each message.
pub data Problem : Type 0 where
  index_mismatch : ℕ → ℕ → Problem
  duplicate_id event_hash_mismatch parent_missing result_missing : String → Problem
  state_hash_mismatch ref_missing : String → Problem

-- a message where the test says so
unfoldable pub report_if : Bool → Problem → List Problem
report_if true p = p ∷ []
report_if false p = []

-- one round of the loop over the events
unfoldable pub event_problems : Runtime → Store → ℕ → List String → EventEnvelope → List Problem
unfolding report_if one_of state_exists hash_of
event_problems rt w expected seen event =
    report_if (not (nat_eq event.index expected)) (index_mismatch expected event.index)
    ++ (report_if (one_of event.event_id seen) (duplicate_id event.event_id)
        ++ (report_if (not (hash_of rt event == event.event_hash))
              (event_hash_mismatch event.event_id)
            ++ (report_if (not (state_exists event.parent_state_hash w))
                  (parent_missing event.event_id)
                ++ report_if (not (state_exists event.resulting_state_hash w))
                    (result_missing event.event_id))))

unfoldable pub log_problems : Runtime → Store → ℕ → List String → List EventEnvelope → List Problem
unfolding event_problems
log_problems rt w expected seen [] = []
log_problems rt w expected seen (event ∷ events) =
    event_problems rt w expected seen event
    ++ log_problems rt w (suc expected) (event.event_id ∷ seen) events

unfoldable pub state_problems : Runtime → Dir Fields → Result (List Problem)
unfolding report_if seal from_dict
state_problems rt [] = ok []
state_problems rt ((stem, d) ∷ states) = do
  state ← from_dict d
  rest ← state_problems rt states
  ok (
      report_if (not (state.state_hash == (seal rt state).state_hash)) (state_hash_mismatch stem)
      ++ rest)

unfoldable pub ref_problems : Store → List (String × String) → List Problem
unfolding report_if state_exists
ref_problems w [] = []
ref_problems w ((ref, state_hash) ∷ refs) =
    report_if (not (state_exists state_hash w)) (ref_missing ref) ++ ref_problems w refs

pub record Report : Type 0 where
  pub event_count : ℕ
  pub state_count : ℕ
  pub head : String
  pub problems : List Problem

-- `not problems`
abbrev pub verified : Report → Bool
verified r = elim r.problems [ [] ↦ true | p ∷ ps ↦ false ]

unfoldable pub verify_replay : Runtime → Store → Result Report
unfolding log_problems state_problems ref_problems
verify_replay rt w = do
  events ← list_events none none w
  of_states ← state_problems rt w.states
  head ← read_ref "HEAD" w
  ok (record {
    event_count = length events;
    state_count = length w.states;
    head = head;
    problems = log_problems rt w 1 [] events ++ (of_states ++ ref_problems w (list_refs "" w.refs));
  })
