-- ===== src/Model/Proposals.antt =====
-- `PatchProposal.from_dict` of model.py.
pub mod RoundTrip
use simulation_ai.Prelude.{
  if◌then◌else◌, String, Bool, true, false, ◌&&◌, Option, none, some, List, [], ◌∷◌, ◌≡◌, refl, sym,
  ap, ◌∙◌,
}
use simulation_ai.Prelude.Int.{ℤ, pos, ◌*ℤ◌}
use simulation_ai.Prelude.Lists.{All}
use simulation_ai.Json.{
  Value, null, bool, int, float, str, arr, obj, Items, nil, cons, Fields, end, field, texts,
  empty_list,
}
use simulation_ai.Json.Dict.{lookup, get_or}
use simulation_ai.Json.Sort.{sort_keys, sort_items, sort_fields}
use simulation_ai.Result.{Result, ok, err, guard, ◌>>=◌, ◌>>◌, type_error}
use simulation_ai.Model.{one_of}
use simulation_ai.Model.State.{text_field, dict_field, value_field}
use simulation_ai.Model.Patch.{
  PatchOperation, PatchProposal, check_operation, make_operation, operation_dict, operation_dicts,
  proposal_dict,
}

-- the names that a class accepts
names_in : List String → Fields → Bool
unfolding one_of
names_in names end = true
names_in names (field k v d) = one_of k names && names_in names d

-- a field without a default; a value of another type than the annotation counts as an error
unfoldable pub needed_text : String → Fields → Result String
unfolding lookup
needed_text k d = elim (lookup k d) [ some (str s) ↦ ok s | _ ↦ err type_error ]

unfoldable pub needed_dict : String → Fields → Result Fields
unfolding lookup
needed_dict k d = elim (lookup k d) [ some (obj e) ↦ ok e | _ ↦ err type_error ]

unfoldable pub list_field : String → Fields → Result Items
unfolding lookup
list_field k d = elim (lookup k d) [
  | none ↦ ok nil
  | some (arr xs) ↦ ok xs
  | some _ ↦ err type_error
]

unfoldable pub bool_field : String → Bool → Fields → Result Bool
unfolding lookup
bool_field k default d = elim (lookup k d) [
  | none ↦ ok default
  | some (bool b) ↦ ok b
  | some _ ↦ err type_error
]

unfoldable pub strings : Items → Result (List String)
strings nil = ok []
strings (cons (str s) xs) = do rest ← strings xs; ok (s ∷ rest)
strings (cons _ xs) = err type_error

unfoldable pub texts_field : String → Fields → Result (List String)
unfolding list_field strings
texts_field k d = do xs ← list_field k d; strings xs

-- any number, as the float of its size
unfoldable pub confidence_field : Fields → Result ℤ
unfolding lookup
confidence_field d = elim (lookup "confidence" d) [
  | none ↦ ok (pos 1000000)
  | some (float m) ↦ ok m
  | some (int n) ↦ ok (n *ℤ pos 1000000)
  | some (bool b) ↦ ok (if b then pos 1000000 else pos 0)
  | some _ ↦ err type_error
]

-- `PatchOperation(**item)`
unfoldable pub operation_from : Value → Result PatchOperation
unfolding names_in needed_text texts_field text_field confidence_field value_field make_operation
    one_of
operation_from (obj d) = do
  guard
      (names_in ("op" ∷ "path" ∷ "value" ∷ "evidence_ids" ∷ "epistemic_class" ∷ "confidence" ∷ [])
        d)
      type_error
  op ← needed_text "op" d
  path ← needed_text "path" d
  evidence_ids ← texts_field "evidence_ids" d
  epistemic_class ← text_field "epistemic_class" "observed" d
  confidence ← confidence_field d
  make_operation op path (value_field "value" null d) evidence_ids epistemic_class confidence
operation_from _ = err type_error

unfoldable pub operations_from : Items → Result (List PatchOperation)
unfolding operation_from
operations_from nil = ok []
operations_from (cons v xs) = do o ← operation_from v; rest ← operations_from xs; ok (o ∷ rest)

-- the comprehension over `raw.get("operations", [])`, which runs over any value with elements
unfoldable pub operations_in : Value → Result (List PatchOperation)
unfolding operations_from
operations_in (arr xs) = operations_from xs
operations_in (obj end) = ok []
operations_in (str String.[]) = ok []
operations_in _ = err type_error

abbrev pub proposal_names : List String
proposal_names =
    "proposal_id" ∷ "event_id" ∷ "parent_state_hash" ∷ "branch" ∷ "intent" ∷ "operations"
    ∷ "expected_postconditions" ∷ "invariants_expected_to_hold" ∷ "render_impact" ∷ "uncertainties"
    ∷ "requires_review" ∷ "model_id" ∷ "schema" ∷ []

-- `from_dict`
unfoldable pub proposal_from_dict : Fields → Result PatchProposal
unfolding operations_in names_in needed_text needed_dict list_field texts_field dict_field
    bool_field text_field get_or one_of
proposal_from_dict d = do
  operations ← operations_in (get_or "operations" empty_list d)
  guard (names_in proposal_names d) type_error
  proposal_id ← needed_text "proposal_id" d
  event_id ← needed_text "event_id" d
  parent_state_hash ← needed_text "parent_state_hash" d
  branch ← needed_text "branch" d
  intent ← needed_dict "intent" d
  expected_postconditions ← list_field "expected_postconditions" d
  invariants_expected_to_hold ← texts_field "invariants_expected_to_hold" d
  render_impact ← dict_field "render_impact" end d
  uncertainties ← texts_field "uncertainties" d
  requires_review ← bool_field "requires_review" false d
  model_id ← text_field "model_id" "rule-proposer" d
  schema ← text_field "schema" "nmsr.patch-proposal/1" d
  ok (record {
    proposal_id = proposal_id;
    event_id = event_id;
    parent_state_hash = parent_state_hash;
    branch = branch;
    intent = intent;
    operations = operations;
    expected_postconditions = expected_postconditions;
    invariants_expected_to_hold = invariants_expected_to_hold;
    render_impact = render_impact;
    uncertainties = uncertainties;
    requires_review = requires_review;
    model_id = model_id;
    schema = schema;
  })
