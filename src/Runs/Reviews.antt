-- ===== src/Runs/Reviews.antt =====
-- Runs as their reviews leave them, and new reviews: `load_model_run`, `load_workflow_run`, `_latest_review`
-- and `review_model_run` of prompt_runs.py.
use simulation_ai.Prelude.{
  suc, String, Bool, true, false, not, ◌&&◌, ◌||◌, Option, none, some, List, [], ◌∷◌, ◌==◌,
  if◌then◌else◌,
}
use simulation_ai.Prelude.Texts.{is_empty, is_space, strip, take_str}
use simulation_ai.Json.{null, bool, str, obj, Fields}
use simulation_ai.Json.Dict.{lookup, get_or, put, erase}
use simulation_ai.Json.Equal.{py_eq}
use simulation_ai.Json.Sort.{str_lt}
use simulation_ai.Result.{
  Result, ok, err, guard, ◌>>=◌, ◌>>◌, key_error, type_error, review_mismatch, bad_review,
}
use simulation_ai.Runtime.{Runtime, str_of, digest}
use simulation_ai.Model.{dict, one_of}
use simulation_ai.Store.{Dir, find, overwrite, contents}
use simulation_ai.Runs.{RunStore, safe_id, record_digest, load_raw}

-- a review of the run that was not changed since it was signed
unfoldable pub is_signed : Runtime → String → Fields → Bool
unfolding str_of
is_signed rt run_id review =
    let expected = str_of rt (get_or "review_sha256" (str "") review) in
    py_eq (get_or "run_id" null review) (str run_id)
    && (not (is_empty expected) && digest rt (obj (erase "review_sha256" review)) == expected)

-- `(created_at, review_sha256)` of the first before that of the second
is_earlier : Runtime → Fields → Fields → Bool
unfolding str_of str_lt
is_earlier rt a b =
    let key = λ (k : String) (d : Fields). str_of rt (get_or k (str "") d) in
    str_lt (key "created_at" a) (key "created_at" b)
    || (key "created_at" a == key "created_at" b
        && str_lt (key "review_sha256" a) (key "review_sha256" b))

-- the last in a stable sort
latest_of : Runtime → Option Fields → List Fields → Option Fields
unfolding is_earlier
latest_of rt best [] = best
latest_of rt none (r ∷ rs) = latest_of rt (some r) rs
latest_of rt (some best) (r ∷ rs) =
    latest_of rt (some (if is_earlier rt r best then best else r)) rs

signed_of : Runtime → String → List Fields → List Fields
unfolding is_signed
signed_of rt run_id [] = []
signed_of rt run_id (r ∷ rs) =
    let rest = signed_of rt run_id rs in if is_signed rt run_id r then r ∷ rest else rest

reviews_of : String → Dir (Dir Fields) → List Fields
reviews_of run_id reviews = elim (find run_id reviews) [ none ↦ [] | some d ↦ contents d ]

-- `_latest_review`
unfoldable pub latest_review : Runtime → String → RunStore → Result (Option Fields)
unfolding safe_id latest_of signed_of reviews_of
latest_review rt run_id w = do
  clean ← safe_id run_id
  ok (latest_of rt none (signed_of rt run_id (reviews_of clean w.reviews)))

approval_of : Fields → Result Fields
approval_of review = elim (lookup "approval" review) [
  | none ↦ err key_error
  | some (obj d) ↦ ok d
  | some _ ↦ err type_error
]

-- the run as its latest review leaves it
unfoldable pub reviewed : Runtime → Fields → Option Fields → Result Fields
unfolding approval_of record_digest
reviewed rt run none = ok run
reviewed rt run (some review) = do
  guard (py_eq (get_or "base_record_sha256" null review) (get_or "record_sha256" null run))
      review_mismatch
  approval ← approval_of review
  let view = put "approval" (obj approval) run
  ok (put "record_sha256" (str (record_digest rt view)) view)

unfoldable pub load_model_run : Runtime → String → RunStore → Result Fields
unfolding load_raw latest_review reviewed
load_model_run rt run_id w = do
  run ← load_raw w.model_runs run_id
  review ← latest_review rt run_id w
  reviewed rt run review

unfoldable pub load_workflow_run : String → RunStore → Result Fields
load_workflow_run run_id w = load_raw w.workflow_runs run_id

status_of_decision : String → String
status_of_decision decision =
    if decision == "approve"
    then "approved-for-deterministic-review"
    else if decision == "reject"
    then "rejected"
    else "needs-revision"

or_operator : String → String
or_operator s = if is_empty s then "operator" else s

-- the review that an operator signs
unfoldable pub review_of : Runtime → String → String → String → String → String → Fields → Fields
unfolding status_of_decision or_operator take_str strip is_space
review_of rt reviewed_at run_id decision note reviewed_by base =
    let approval = dict (
      ("status", str (status_of_decision decision))
      ∷ ("reviewed_by", str (or_operator (take_str 120 (strip is_space reviewed_by))))
      ∷ ("note", str (take_str 2000 (strip is_space note)))
      ∷ ("reviewed_at", str reviewed_at)
      ∷ []) in
    let review = dict (
      ("schema", str "nmsr.prompt-run-operator-review/1")
      ∷ ("run_id", str run_id)
      ∷ ("base_record_sha256", get_or "record_sha256" (str "") base)
      ∷ ("decision", str decision)
      ∷ ("approval", obj approval)
      ∷ ("commit_authority", bool false)
      ∷ ("deterministic_gate_required", bool true)
      ∷ ("created_at", str reviewed_at)
      ∷ []) in
    put "review_sha256" (str (digest rt (obj review))) review

add_review : String → String → Fields → Dir (Dir Fields) → Dir (Dir Fields)
add_review run_id sha review reviews =
    let known : Dir Fields = elim (find run_id reviews) [ none ↦ [] | some d ↦ d ] in
    overwrite run_id (overwrite sha review known) reviews

-- the store after the review is written
unfoldable pub write_review :
    Runtime → String → String → String → String → RunStore → Result RunStore
unfolding load_raw review_of add_review
write_review rt run_id decision note reviewed_by w = do
  guard (one_of decision ("approve" ∷ "reject" ∷ "needs-revision" ∷ [])) bad_review
  base ← load_raw w.model_runs run_id
  let review = review_of rt (rt.utc_now w.ticks) run_id decision note reviewed_by base
  let sha = str_of rt (get_or "review_sha256" (str "") review)
  ok (record w { reviews = add_review run_id sha review w.reviews; ticks = suc w.ticks })

-- `review_model_run`: the view of the run, and the store, which keeps the review if the view raises
unfoldable pub review_model_run :
    Runtime → String → String → String → String → RunStore → Result Fields × RunStore
unfolding write_review load_model_run strip is_space
review_model_run rt run_id decision note reviewed_by w =
    elim (write_review rt run_id (rt.lower (strip is_space decision)) note reviewed_by w) [
      | ok w' ↦ (load_model_run rt run_id w', w')
      | err e ↦ (err e, w)
    ]
