-- ===== src/Store/Proposals.antt =====
-- A proposal that is saved and loaded.
use simulation_ai.Prelude.{none, some, ◌≡◌, refl, ◌∙◌, ap}
use simulation_ai.Prelude.Lists.{All}
use simulation_ai.Result.{ok, >>=-eq-ok, ok-injective}
use simulation_ai.Model.Patch.{PatchProposal, check_operation, proposal_dict}
use simulation_ai.Model.Proposals.RoundTrip.{reload_proposal, proposal_from_dict-dict}
use simulation_ai.Store.{Store, find, write_once, find-write_once_self}
use simulation_ai.Store.Files.{save_proposal, load_proposal}

-- A proposal whose operations are valid, saved under a new ID without a raise, is loaded again as it was, the
-- dicts in it with their keys sorted.
pub load_proposal-save_proposal :
    (p : PatchProposal) (w w' : Store)
    → All (λ o. check_operation o ≡ ok tt) p.operations
    → find p.proposal_id w.proposals ≡ none
    → save_proposal p w ≡ ok w'
    → load_proposal p.proposal_id w' ≡ ok (reload_proposal p)
unfolding save_proposal load_proposal
load_proposal-save_proposal p w w' valid absent h =
    let (d, written, h1) = >>=-eq-ok (write_once proposal_dict p.proposal_id p w.proposals) _ h in
    let same : d ≡ w'.proposals = ap (λ (s : Store). s.proposals) (ok-injective _ _ h1) in
    let found : find p.proposal_id d ≡ some p =
      find-write_once_self proposal_dict w.proposals p.proposal_id p written ∙ rw absent refl in
    rw (← same) (rw found (proposal_from_dict-dict p valid))
