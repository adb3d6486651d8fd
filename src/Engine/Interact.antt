-- ===== src/Engine/Interact.antt =====
-- `observe`, `propose` and `interact`. The deposit into the context memory, with which `interact`
-- ends, writes to a store of its own and is not part of the model.
mod Evidence
pub mod Keeps
unfoldable pub use Evidence.{evidence_of_report}
use simulation_ai.Prelude.{String, Bool, true, false, not, Option, none, some, ◌==◌, if◌then◌else◌}
use simulation_ai.Prelude.Int.{pos, ltb_ℤ}
use simulation_ai.Json.{Value, Fields}
use simulation_ai.Json.Dict.{lookup}
use simulation_ai.Result.{Result, ok, guard, or_raise, key_error, duplicate_event}
use simulation_ai.Runtime.{Runtime, str_of}
use simulation_ai.Model.Patch.{PatchProposal}
use simulation_ai.Model.Records.{ObservationReport, MemoryRecord}
use simulation_ai.Patch.{validate_interaction}
use simulation_ai.Adapters
use simulation_ai.Adapters.Propose
use simulation_ai.Store.{Store}
use simulation_ai.Store.Log.{event_id_exists}
use simulation_ai.Store.Files.{save_evidence, load_evidence, evidence_exists, save_proposal}
use simulation_ai.Exec.{Exec, pure, lift, gets, reads, writes, ◌>>=◌, ◌>>◌}
use simulation_ai.Engine.Clock.{now, current}
use simulation_ai.Engine.Packet.{sanitize_packet, validate_packet_parent}
use simulation_ai.Engine.Commit.{Plan, commit_proposal}

unfoldable pub stored_report : ObservationReport → Exec Store ObservationReport
stored_report o = do stored ← reads (load_evidence o.observation_id); pure stored.payload

unfoldable pub new_report : Runtime → ObservationReport → Exec Store ObservationReport
unfolding evidence_of_report
new_report rt o = do
  created_at ← now rt
  evidence ← lift (evidence_of_report created_at o)
  writes (save_evidence evidence)
  pure o

unfoldable pub observe : Runtime → Fields → Exec Store ObservationReport
unfolding stored_report new_report
observe rt packet = do
  sanitized ← lift (sanitize_packet rt packet)
  lift (validate_interaction rt sanitized)
  cur ← current
  lift (validate_packet_parent rt sanitized cur)
  observation ← lift (Adapters.observe rt sanitized cur)
  known ← gets (evidence_exists observation.observation_id)
  if known then stored_report observation else new_report rt observation

-- `observation or self.observe(packet)`
unfoldable pub report_or :
    Runtime → Fields → Option ObservationReport → Exec Store ObservationReport
report_or rt packet none = observe rt packet
report_or rt packet (some observation) = pure observation

unfoldable pub propose : Runtime → Fields → Option ObservationReport → Exec Store PatchProposal
unfolding report_or
propose rt packet observation = do
  sanitized ← lift (sanitize_packet rt packet)
  lift (validate_interaction rt sanitized)
  cur ← current
  lift (validate_packet_parent rt sanitized cur)
  report ← report_or rt sanitized observation
  proposal ← lift (Propose.propose rt sanitized report cur)
  writes (save_proposal proposal)
  pure proposal

unfoldable pub interact : Runtime → Fields → Exec Store (Plan × MemoryRecord)
unfolding observe propose
interact rt packet = do
  sanitized ← lift (sanitize_packet rt packet)
  lift (validate_interaction rt sanitized)
  event ← lift (or_raise (lookup "event_id" sanitized) key_error)
  duplicate ← reads (event_id_exists (str_of rt event))
  lift (guard (not duplicate) duplicate_event)
  observation ← observe rt sanitized
  proposal ← propose rt sanitized (some observation)
  commit_proposal rt proposal (some sanitized) (some observation)
