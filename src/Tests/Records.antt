-- ===== src/Tests/Records.antt =====
-- A proposal that is saved and loaded, the digest of dicts, and the newest events.
use simulation_ai.Prelude.{List}
use simulation_ai.Json.{texts}
use simulation_ai.Prelude.Int.{pos}
use simulation_ai.Model.Event.{EventEnvelope}
use simulation_ai.Store.Lines.{reads_back, is_one_line, fields_on_one_line}
use simulation_ai.Model.Event.{event_dict}
use simulation_ai.Prelude.{none, true, false, ◌⊎◌}
use simulation_ai.Prelude.Lists.{all}
use simulation_ai.Result.{err, value_error}
use simulation_ai.Store.Log.{append_event, list_events, on_branch}
use simulation_ai.Store.Log.Latest.{IsLatest, list_events-IsLatest}
use simulation_ai.Prelude.{String, some, [], ◌∷◌, ◌≡◌, refl}
use simulation_ai.Json.{obj}
use simulation_ai.Json.Unordered.{Dict, Unordered, canonical, unordered_digest, digest-Unordered}
use simulation_ai.Runtime.{digest}
use simulation_ai.Result.{ok}
use simulation_ai.Store.{Store, find, write_once}
use simulation_ai.Store.Files.{save_proposal, load_proposal}
use simulation_ai.Store.Proposals.{load_proposal-save_proposal}
use simulation_ai.Model.Patch.{check_operation}
use simulation_ai.Model.Proposals.RoundTrip.{reload_proposal}
use mathlib.Core.Quot.{Quot}
use simulation_ai.Tests.Fixtures.{test_runtime, store₀, proposal₁, event₀}

abbrev proposed : Store
proposed = record store₀ { proposals = ("proposal_1", proposal₁) ∷ [] }

load_proposal-save_proposal_example :
    load_proposal "proposal_1" proposed ≡ ok (reload_proposal proposal₁)
unfolding check_operation save_proposal find write_once
load_proposal-save_proposal_example =
    load_proposal-save_proposal proposal₁ store₀ proposed (refl, (refl, (refl, tt))) refl refl

digest-Unordered_example :
    ((d : Dict) → unordered_digest test_runtime (Quot.mk d) ≡ digest test_runtime (obj d.0))
    × ((p q : Unordered) → canonical p ≡ canonical q → p ≡ q)
digest-Unordered_example = digest-Unordered test_runtime

-- a log of two branches
abbrev event_on : String → String → EventEnvelope
event_on event_id branch = record event₀ { event_id = event_id; branch = branch }

abbrev two_branches : Store
two_branches = record store₀ {
  events = event_on "evt_1" "main" ∷ event_on "evt_2" "draft" ∷ event_on "evt_3" "main" ∷ [];
}

newest_on_main :
    list_events (some "main") (some (pos 1)) two_branches ≡ ok (event_on "evt_3" "main" ∷ [])
unfolding list_events on_branch is_one_line reads_back fields_on_one_line event_dict texts
newest_on_main = refl

-- an event that types a line separator: the log cannot be read from then on
broken_log :
    list_events none none (append_event (event_on "\u{2028}" "main") two_branches) ≡ err value_error
unfolding list_events append_event reads_back is_one_line fields_on_one_line event_dict texts
broken_log = refl

list_events-IsLatest_example :
    ((all reads_back two_branches.events ≡ false)
      × (list_events (some "main") (some (pos 1)) two_branches ≡ err value_error))
    ⊎ ((all reads_back two_branches.events ≡ true)
        × (events : List EventEnvelope) × (list_events (some "main") (some (pos 1)) two_branches
            ≡ ok events)
        × IsLatest (some "main") (pos 1) two_branches events)
list_events-IsLatest_example = list_events-IsLatest (some "main") (pos 1) two_branches
