-- ===== src/Store/Records.antt =====
-- The store's state.
use simulation_ai.Prelude.{ℕ, String, List}
use simulation_ai.Json.{Fields}
use simulation_ai.Model.Event.{EventEnvelope}
use simulation_ai.Model.Patch.{PatchProposal}
use simulation_ai.Model.Records.{EvidenceRecord, MemoryRecord, RenderJob, FrameManifest}
use simulation_ai.Store.Directory.{Dir}

-- `ticks` counts the readings of the clock.
pub record Store : Type 0 where
  pub states : Dir Fields
  pub refs : Dir String
  pub events : List EventEnvelope
  pub evidence : Dir EvidenceRecord
  pub proposals : Dir PatchProposal
  pub memories : Dir MemoryRecord
  pub render_jobs : Dir RenderJob
  pub frames : Dir FrameManifest
  pub ticks : ℕ
