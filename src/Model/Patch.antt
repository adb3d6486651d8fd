-- ===== src/Model/Patch.antt =====
-- `PatchOperation` and `PatchProposal` of model.py.
use simulation_ai.Prelude.{String, Bool, List, [], ◌∷◌}
use simulation_ai.Prelude.Int.{ℤ}
use simulation_ai.Prelude.Texts.{startswith}
use simulation_ai.Json.{Value, bool, float, str, arr, obj, Items, nil, cons, Fields, texts}
use simulation_ai.Result.{
  Result, ok, guard, ◌>>◌, unsupported_operation, unsupported_class, relative_path, bad_confidence,
}
use simulation_ai.Model.{dict, one_of, epistemic_classes, in_unit}

pub record PatchOperation : Type 0 where
  pub op : String
  pub path : String
  pub value : Value
  pub evidence_ids : List String
  pub epistemic_class : String
  pub confidence : ℤ

-- `__post_init__`
unfoldable pub check_operation : PatchOperation → Result (Unit {0})
unfolding one_of startswith in_unit
check_operation o = do
  guard (one_of o.op ("test" ∷ "add" ∷ "replace" ∷ "remove" ∷ [])) unsupported_operation
  guard (one_of o.epistemic_class epistemic_classes) unsupported_class
  guard (startswith o.path "/") relative_path
  guard (in_unit o.confidence) bad_confidence

-- `PatchOperation(op, path, value, evidence_ids, epistemic_class, confidence)`
unfoldable pub make_operation :
    String → String → Value → List String → String → ℤ → Result PatchOperation
unfolding check_operation
make_operation op path value evidence_ids epistemic_class confidence =
    let o : PatchOperation = record {
      op = op;
      path = path;
      value = value;
      evidence_ids = evidence_ids;
      epistemic_class = epistemic_class;
      confidence = confidence;
    } in
    check_operation o >> ok o

-- `asdict`
unfoldable pub operation_dict : PatchOperation → Value
operation_dict o = obj (
    dict (
      ("op", str o.op)
      ∷ ("path", str o.path)
      ∷ ("value", o.value)
      ∷ ("evidence_ids", arr (texts o.evidence_ids))
      ∷ ("epistemic_class", str o.epistemic_class)
      ∷ ("confidence", float o.confidence)
      ∷ []))

unfoldable pub operation_dicts : List PatchOperation → Items
operation_dicts [] = nil
operation_dicts (o ∷ os) = cons (operation_dict o) (operation_dicts os)

pub record PatchProposal : Type 0 where
  pub proposal_id : String
  pub event_id : String
  pub parent_state_hash : String
  pub branch : String
  pub intent : Fields
  pub operations : List PatchOperation
  pub expected_postconditions : Items
  pub invariants_expected_to_hold : List String
  pub render_impact : Fields
  pub uncertainties : List String
  pub requires_review : Bool
  pub model_id : String
  pub schema : String

-- `as_dict`
unfoldable pub proposal_dict : PatchProposal → Fields
unfolding operation_dicts operation_dict
proposal_dict p = dict (
    ("proposal_id", str p.proposal_id)
    ∷ ("event_id", str p.event_id)
    ∷ ("parent_state_hash", str p.parent_state_hash)
    ∷ ("branch", str p.branch)
    ∷ ("intent", obj p.intent)
    ∷ ("operations", arr (operation_dicts p.operations))
    ∷ ("expected_postconditions", arr p.expected_postconditions)
    ∷ ("invariants_expected_to_hold", arr (texts p.invariants_expected_to_hold))
    ∷ ("render_impact", obj p.render_impact)
    ∷ ("uncertainties", arr (texts p.uncertainties))
    ∷ ("requires_review", bool p.requires_review)
    ∷ ("model_id", str p.model_id)
    ∷ ("schema", str p.schema)
    ∷ [])
