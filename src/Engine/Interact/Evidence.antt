-- ===== src/Engine/Interact/Evidence.antt =====
-- The record of an observation as evidence.
use simulation_ai.Prelude.{String, if◌then◌else◌}
use simulation_ai.Prelude.Int.{pos, ltb_ℤ}
use simulation_ai.Result.{Result, ok, ◌>>◌}
use simulation_ai.Model.Records.{ObservationReport, EvidenceRecord, check_record}

-- the evidence of an observation
unfoldable pub evidence_of_report : String → ObservationReport → Result EvidenceRecord
unfolding check_record
evidence_of_report created_at o =
    let class = if ltb_ℤ o.confidence (pos 800000) then "inferred" else "observed" in
    do
      check_record class o.confidence
      ok (record {
        evidence_id = o.observation_id;
        kind = "interaction-observation";
        source = o.source;
        payload = o;
        logical_time = o.logical_time;
        branch = o.branch;
        epistemic_class = class;
        confidence = o.confidence;
        created_at = created_at;
      })
