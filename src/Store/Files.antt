-- ===== src/Store/Files.antt =====
-- The records of the store that are written once, the render jobs, and the counts.
use simulation_ai.Store.Log.{list_events}
use simulation_ai.Prelude.{ℕ, suc, Option, none, some, String, Bool, List}
use simulation_ai.Prelude.Int.{ℤ, pos, negsuc}
use simulation_ai.Prelude.Texts.{is_empty}
use simulation_ai.Prelude.Lists.{length, drop, last_slice}
use simulation_ai.Prelude.{if◌then◌else◌}
use simulation_ai.Result.{Result, ok, or_raise, ◌>>=◌, file_not_found}
use simulation_ai.Runtime.{Runtime}
use simulation_ai.Model.Patch.{PatchProposal, proposal_dict}
use simulation_ai.Model.Proposals.{proposal_from_dict}
use simulation_ai.Json.Sort.{sort_fields}
use simulation_ai.Model.Records.{
  EvidenceRecord, MemoryRecord, RenderJob, FrameManifest, evidence_dict, memory_dict, job_dict,
  frame_dict, seal_frame,
}
use simulation_ai.Store.Directory.{find, exists, write_once, overwrite, contents}
use simulation_ai.Store.Records.{Store}

unfoldable pub save_evidence : EvidenceRecord → Store → Result Store
save_evidence r w = do
  evidence ← write_once evidence_dict r.evidence_id r w.evidence
  ok (record w { evidence = evidence })

unfoldable pub load_evidence : String → Store → Result EvidenceRecord
load_evidence evidence_id w = or_raise (find evidence_id w.evidence) file_not_found

unfoldable pub evidence_exists : String → Store → Bool
evidence_exists evidence_id w = exists evidence_id w.evidence

unfoldable pub save_proposal : PatchProposal → Store → Result Store
save_proposal p w = do
  proposals ← write_once proposal_dict p.proposal_id p w.proposals
  ok (record w { proposals = proposals })

-- the file has the dict of the proposal, with sorted keys
unfoldable pub load_proposal : String → Store → Result PatchProposal
unfolding proposal_from_dict sort_fields
load_proposal proposal_id w = do
  p ← or_raise (find proposal_id w.proposals) file_not_found
  proposal_from_dict (sort_fields (proposal_dict p))

unfoldable pub save_memory : MemoryRecord → Store → Result Store
save_memory m w = do
  memories ← write_once memory_dict m.memory_id m w.memories
  ok (record w { memories = memories })

-- `save_render_job(job, replace=True)`
unfoldable pub replace_render_job : RenderJob → Store → Store
replace_render_job j w = record w { render_jobs = overwrite j.job_id j w.render_jobs }

unfoldable pub save_render_job : RenderJob → Store → Result Store
save_render_job j w = do
  render_jobs ← write_once job_dict j.job_id j w.render_jobs
  ok (record w { render_jobs = render_jobs })

unfoldable pub load_render_job : String → Store → Result RenderJob
load_render_job job_id w = or_raise (find job_id w.render_jobs) file_not_found

-- the frame that `save_frame` writes: one without a hash is sealed first
unfoldable pub sealed_frame : Runtime → FrameManifest → FrameManifest
unfolding seal_frame
sealed_frame rt f = if is_empty f.frame_hash then seal_frame rt f else f

unfoldable pub save_frame : Runtime → FrameManifest → Store → Result Store
unfolding sealed_frame
save_frame rt f w = do
  frames ← write_once frame_dict f.frame_id (sealed_frame rt f) w.frames
  ok (record w { frames = frames })

-- `records[-limit:]`; a negative limit drops that many records from the front
unfoldable pub limited {ℓ} : {A : Type ℓ} → Option ℤ → List A → List A
limited none xs = xs
limited (some (pos n)) xs = last_slice n xs
limited (some (negsuc n)) xs = drop (suc n) xs

unfoldable pub list_evidence : Option ℤ → Store → List EvidenceRecord
unfolding limited
list_evidence limit w = limited limit (contents w.evidence)

unfoldable pub list_memories : Store → List MemoryRecord
list_memories w = contents w.memories

unfoldable pub list_render_jobs : Option ℤ → Store → List RenderJob
unfolding limited
list_render_jobs limit w = limited limit (contents w.render_jobs)

unfoldable pub list_frames : Option ℤ → Store → List FrameManifest
unfolding limited
list_frames limit w = limited limit (contents w.frames)

pub record Counts : Type 0 where
  pub states : ℕ
  pub events : ℕ
  pub evidence : ℕ
  pub proposals : ℕ
  pub memories : ℕ
  pub render_jobs : ℕ
  pub frames : ℕ

unfoldable pub counts : Store → Result Counts
unfolding list_events
counts w = do
  events ← list_events none none w
  ok (record {
    states = length w.states;
    events = length events;
    evidence = length w.evidence;
    proposals = length w.proposals;
    memories = length w.memories;
    render_jobs = length w.render_jobs;
    frames = length w.frames;
  })
