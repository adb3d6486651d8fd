-- ===== src/Model/Proposals/RoundTrip.antt =====
-- A proposal is read back from its dict with sorted keys.
use simulation_ai.Prelude.{String, List, [], ◌∷◌, ◌≡◌, refl, ◌∙◌}
use simulation_ai.Prelude.Lists.{All}
use simulation_ai.Json.{texts}
use simulation_ai.Json.Sort.{sort_keys, sort_items, sort_fields}
use simulation_ai.Result.{ok, ◌>>◌}
use simulation_ai.Model.Patch.{
  PatchOperation, PatchProposal, check_operation, make_operation, operation_dict, operation_dicts,
  proposal_dict,
}
use simulation_ai.Model.Proposals.{strings, operation_from, operations_from, proposal_from_dict}

-- what is read back: dicts in values have their keys sorted
pub reload_operation : PatchOperation → PatchOperation
reload_operation o = record o { value = sort_keys o.value }

pub reload_operations : List PatchOperation → List PatchOperation
unfolding reload_operation
reload_operations [] = []
reload_operations (o ∷ os) = reload_operation o ∷ reload_operations os

pub reload_proposal : PatchProposal → PatchProposal
unfolding reload_operations
reload_proposal p = record p {
  intent = sort_fields p.intent;
  operations = reload_operations p.operations;
  expected_postconditions = sort_items p.expected_postconditions;
  render_impact = sort_fields p.render_impact;
}

strings-texts : (l : List String) → strings (sort_items (texts l)) ≡ ok l
unfolding strings texts sort_keys
strings-texts [] = refl
strings-texts (s ∷ l) = rw (strings-texts l) refl

-- the checks do not look at the value
made_again :
    (o : PatchOperation)
    → make_operation o.op o.path (sort_keys o.value) o.evidence_ids o.epistemic_class o.confidence
      ≡ (check_operation o >> ok (reload_operation o))
unfolding make_operation check_operation reload_operation
made_again o = refl

operation_from-dict :
    (o : PatchOperation)
    → check_operation o ≡ ok tt
    → operation_from (sort_keys (operation_dict o)) ≡ ok (reload_operation o)
unfolding operation_from operation_dict sort_keys reload_operation
operation_from-dict o valid = rw (strings-texts o.evidence_ids) (made_again o ∙ rw valid refl)

operations_from-dicts :
    (os : List PatchOperation)
    → All (λ o. check_operation o ≡ ok tt) os
    → operations_from (sort_items (operation_dicts os)) ≡ ok (reload_operations os)
unfolding operations_from operation_dicts sort_keys reload_operations
operations_from-dicts [] valid = refl
operations_from-dicts (o ∷ os) (h, valid) =
    rw (operation_from-dict o h) (rw (operations_from-dicts os valid) refl)

pub proposal_from_dict-dict :
    (p : PatchProposal)
    → All (λ o. check_operation o ≡ ok tt) p.operations
    → proposal_from_dict (sort_fields (proposal_dict p)) ≡ ok (reload_proposal p)
unfolding proposal_from_dict proposal_dict sort_keys reload_proposal
proposal_from_dict-dict p valid =
    rw
      (
        operations_from-dicts p.operations valid,
        strings-texts p.invariants_expected_to_hold,
        strings-texts p.uncertainties,
      )
      refl
