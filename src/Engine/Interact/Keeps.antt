-- ===== src/Engine/Interact/Keeps.antt =====
-- What `observe`, `propose` and `interact` leave alone.
use mathlib.Core.Path.{subst}
use simulation_ai.Prelude.{ℕ, suc, Bool, if◌then◌else◌, Option, none, some}
use simulation_ai.Json.{Fields}
use simulation_ai.Result.{>>=-eq-ok, ok-injective}
use simulation_ai.Runtime.{Runtime}
use simulation_ai.Model.Patch.{PatchProposal, proposal_dict}
use simulation_ai.Model.Records.{ObservationReport, EvidenceRecord, evidence_dict}
use simulation_ai.Store.{Store, Dir, write_once}
use simulation_ai.Store.Files.{save_evidence, save_proposal}
use simulation_ai.Exec.{writes}
use simulation_ai.Exec.Stays.{
  Stays, Stays-pure, Stays-bind, Stays-reads, Stays-lift, Stays-gets, Stays-writes, Stays-if,
}
use simulation_ai.Engine.Clock.{now, current}
use simulation_ai.Engine.Interact.{observe, propose, interact, stored_report, new_report, report_or}
use simulation_ai.Engine.Commit.{commit_proposal}

-- An invariant that the clock, the evidence and the proposals do not matter to, and that a commit
-- keeps, is kept by an interaction.
module _ (rt : Runtime) (I : Store → Type 0)
    (apart : (w : Store) (ticks : ℕ) (evidence : Dir EvidenceRecord) (proposals : Dir PatchProposal)
      → I w
      → I (record w { ticks = ticks; evidence = evidence; proposals = proposals })) where
  now-Keeps : Stays I (now rt)
  unfolding now
  now-Keeps = record { at = λ w i. apart w (suc w.ticks) w.evidence w.proposals i }

  current-Keeps : Stays I current
  unfolding current
  current-Keeps = Stays-reads I _

  save_evidence-Keeps : (r : EvidenceRecord) → Stays I (writes (save_evidence r))
  unfolding save_evidence
  save_evidence-Keeps r = Stays-writes I (save_evidence r) λ w v i e.
      let (evidence, _, is) = >>=-eq-ok (write_once evidence_dict r.evidence_id r w.evidence) _ e in
      subst I (ok-injective _ _ is) (apart w w.ticks evidence w.proposals i)

  save_proposal-Keeps : (p : PatchProposal) → Stays I (writes (save_proposal p))
  unfolding save_proposal
  save_proposal-Keeps p = Stays-writes I (save_proposal p) λ w v i e.
      let (proposals, _, is) =
        >>=-eq-ok (write_once proposal_dict p.proposal_id p w.proposals) _ e in
      subst I (ok-injective _ _ is) (apart w w.ticks w.evidence proposals i)

  report-Keeps :
      (o : ObservationReport) (known : Bool)
      → Stays I (if known then stored_report o else new_report rt o)
  unfolding stored_report new_report
  report-Keeps o known =
      Stays-if I known (Stays-bind I (Stays-reads I _) λ stored. Stays-pure I stored.payload) (
        Stays-bind I (now-Keeps) λ created_at.
          Stays-bind I (Stays-lift I _)
            λ evidence. Stays-bind I (save_evidence-Keeps evidence) λ _. Stays-pure I o)

  pub observe-Keeps : (packet : Fields) → Stays I (observe rt packet)
  unfolding observe
  observe-Keeps packet = Stays-bind I (Stays-lift I _) λ sanitized.
      Stays-bind I (Stays-lift I _) λ _. Stays-bind I current-Keeps λ cur.
        Stays-bind I (Stays-lift I _) λ _.
          Stays-bind I (Stays-lift I _)
            λ observation. Stays-bind I (Stays-gets I _) λ known. report-Keeps observation known

  report_or-Keeps :
      (packet : Fields) (observation : Option ObservationReport)
      → Stays I (report_or rt packet observation)
  unfolding report_or
  report_or-Keeps packet none = observe-Keeps packet
  report_or-Keeps packet (some observation) = Stays-pure I observation

  pub propose-Keeps :
      (packet : Fields) (observation : Option ObservationReport)
      → Stays I (propose rt packet observation)
  unfolding propose
  propose-Keeps packet observation = Stays-bind I (Stays-lift I _) λ sanitized.
      Stays-bind I (Stays-lift I _) λ _. Stays-bind I current-Keeps λ cur.
        Stays-bind I (Stays-lift I _) λ _.
          Stays-bind I (report_or-Keeps sanitized observation) λ report.
            Stays-bind I (Stays-lift I _)
              λ proposal. Stays-bind I (save_proposal-Keeps proposal) λ _. Stays-pure I proposal

  pub interact-Keeps :
      (packet : Fields)
      → ((p : PatchProposal) (sanitized : Fields) (o : ObservationReport)
          → Stays I (commit_proposal rt p (some sanitized) (some o)))
      → Stays I (interact rt packet)
  unfolding interact
  interact-Keeps packet commits = Stays-bind I (Stays-lift I _) λ sanitized.
      Stays-bind I (Stays-lift I _) λ _. Stays-bind I (Stays-lift I _) λ event.
        Stays-bind I (Stays-reads I _) λ duplicate. Stays-bind I (Stays-lift I _) λ _.
          Stays-bind I (observe-Keeps sanitized) λ observation.
            Stays-bind I (propose-Keeps sanitized (some observation))
              λ proposal. commits proposal sanitized observation
