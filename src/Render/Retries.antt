-- ===== src/Render/Retries.antt =====
-- A rendered candidate is tried again a bounded number of times.
use simulation_ai.Prelude.{
  ℕ, suc, ◌+◌, ◌≤◌, ◌<◌, ◌≡◌, arith, String, Option, none, eq_iff, ◌↔◌, ◌≢◌,
}
use simulation_ai.Json.{Fields}
use simulation_ai.Result.{ok}
use simulation_ai.Runtime.{Runtime}
use simulation_ai.Model.Records.{RenderJob, FrameManifest}
use simulation_ai.Render.{verify_candidate, outcome_of}

module _ (rt : Runtime) (updated_at created_at : String) (job : RenderJob) (decision : Fields)
    {job' : RenderJob} {frame : Option FrameManifest}
    (h : verify_candidate rt updated_at created_at job decision ≡ ok (job', frame)) where
  -- A verdict keeps the retries within their bound, and the bound itself.
  pub verify_candidate-retries :
      job.retries ≤ job.max_retries
      → (job'.retries ≤ job'.max_retries) × (job'.max_retries ≡ job.max_retries)
  unfolding verify_candidate
  verify_candidate-retries le = ground arith

  -- No verdict takes back a retry that was used.
  pub verify_candidate-grows : job.retries ≤ job'.retries
  unfolding verify_candidate
  verify_candidate-grows = ground arith

  -- A job that is queued again has used up one retry, and there was one left.
  pub verify_candidate-queued :
      job'.status ≡ "queued" → (job'.retries ≡ job.retries + 1) × (job.retries < job.max_retries)
  unfolding verify_candidate
  verify_candidate-queued q =
      ground
        (arith, eq_iff "verified" "queued", eq_iff "fallback" "queued", eq_iff "rejected" "queued")

  -- A verdict makes a frame exactly when the candidate passed, and then the job is verified.
  pub verify_candidate-frame :
      (frame ≢ none ↔ (outcome_of rt decision ≡ "pass"))
      × ((job'.status ≡ "verified") ↔ (outcome_of rt decision ≡ "pass"))
  unfolding verify_candidate
  verify_candidate-frame = ground (
    arith,
    eq_iff (outcome_of rt decision) "pass",
    eq_iff "queued" "verified",
    eq_iff "fallback" "verified",
    eq_iff "rejected" "verified",
  )

-- Verdicts on one job, one after the other and whatever its status is, with the number of those that queue it.
pub data Requeued (rt : Runtime) : RenderJob → ℕ → RenderJob → Type 0 where
  done : (job : RenderJob) → Requeued rt job 0 job
  again :
      {job job' job'' : RenderJob} {frame : Option FrameManifest} {n : ℕ}
      (updated_at created_at : String) (decision : Fields)
      → verify_candidate rt updated_at created_at job decision ≡ ok (job', frame)
      → job'.status ≡ "queued"
      → Requeued rt job' n job''
      → Requeued rt job (suc n) job''
  settled :
      {job job' job'' : RenderJob} {frame : Option FrameManifest} {n : ℕ}
      (updated_at created_at : String) (decision : Fields)
      → verify_candidate rt updated_at created_at job decision ≡ ok (job', frame)
      → job'.status ≢ "queued"
      → Requeued rt job' n job''
      → Requeued rt job n job''

-- However many verdicts there are on a job, and however they turn out, of whatever status the job is between
-- them: it is queued again at most as often as it has retries left.
pub Requeued-bounded :
    (rt : Runtime) {job job' : RenderJob} {n : ℕ}
    → Requeued rt job n job'
    → job.retries ≤ job.max_retries
    → job.retries + n ≤ job.max_retries
Requeued-bounded rt (done job) le = omega arith
Requeued-bounded rt
      (again {job = job} {job' = job'} {n = n} updated_at created_at decision run queued rest) le =
    omega (
      arith,
      verify_candidate-retries rt updated_at created_at job decision run le,
      verify_candidate-queued rt updated_at created_at job decision run queued,
      Requeued-bounded rt rest
          (verify_candidate-retries rt updated_at created_at job decision run le).0,
    )
Requeued-bounded rt
      (settled {job = job} {job' = job'} {n = n} updated_at created_at decision run other rest) le =
    omega (
      arith,
      verify_candidate-retries rt updated_at created_at job decision run le,
      verify_candidate-grows rt updated_at created_at job decision run,
      Requeued-bounded rt rest
          (verify_candidate-retries rt updated_at created_at job decision run le).0,
    )
