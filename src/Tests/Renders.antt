-- ===== src/Tests/Renders.antt =====
-- Runs of the theorems on render jobs.
use simulation_ai.Prelude.{◌+◌, ◌≤◌, String, Option, none, ◌≡◌, refl, arith}
use simulation_ai.Json.Dict.{get_or, lookup}
use simulation_ai.Result.{Result, ok, err}
use simulation_ai.Runtime.{str_of}
use simulation_ai.Model.{one_of}
use simulation_ai.Model.Records.{RenderJob, FrameManifest}
use simulation_ai.Render.{build_render_job, iterate, verify_candidate, outcome_of}
use simulation_ai.Render.Retries.{done, again, Requeued-bounded}
use simulation_ai.Tests.Fixtures.{test_runtime, state₀, proposal₁, queued_job, verdict}

abbrev at_time : String
at_time = "2026-01-02T00:00:00Z"

-- The job after one verdict to try again.
abbrev retried_job : RenderJob
retried_job = record queued_job {
  retries = 1;
  verification = verdict "retry";
  updated_at = at_time;
}

retried :
    verify_candidate test_runtime at_time at_time queued_job (verdict "retry")
    ≡ ok (retried_job, none)
unfolding verify_candidate outcome_of one_of get_or lookup str_of
retried = refl

abbrev no_frame : Option FrameManifest
no_frame = none

Requeued-bounded_example : 0 + 1 ≤ 2
Requeued-bounded_example =
    Requeued-bounded test_runtime
      (again at_time at_time (verdict "retry") retried refl (done retried_job)) (omega arith)

job_or : RenderJob → Result RenderJob → RenderJob
job_or default (ok job) = job
job_or default (err e) = default

-- The job that the first proposal asks for.
planned_job : RenderJob
planned_job =
    job_or queued_job
      (build_render_job test_runtime at_time at_time proposal₁ state₀ "frame_genesis")

planned :
    build_render_job test_runtime at_time at_time proposal₁ state₀ "frame_genesis" ≡ ok planned_job
unfolding planned_job job_or build_render_job iterate get_or lookup
planned = refl
