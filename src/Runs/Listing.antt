-- ===== src/Runs/Listing.antt =====
-- The listings of prompt_runs.py: `list_model_runs` and `list_workflow_runs`.
use simulation_ai.Prelude.{
  ℕ, zero, suc, String, Bool, true, false, List, [], ◌∷◌, ◌++◌, leb, if◌then◌else◌,
}
use simulation_ai.Prelude.Int.{ℤ, pos, negsuc}
use simulation_ai.Json.{Fields}
use simulation_ai.Result.{Error, Result, ok, err, ◌>>=◌, bad_run_id, run_missing, review_mismatch}
use simulation_ai.Runtime.{Runtime}
use simulation_ai.Store.{Dir, contents}
use simulation_ai.Runs.{RunStore}
use simulation_ai.Runs.Reviews.{load_model_run}

first_runs : ℕ → List (String × Fields) → List (String × Fields)
first_runs zero l = []
first_runs (suc n) [] = []
first_runs (suc n) (x ∷ l) = x ∷ first_runs n l

newest : Dir Fields → List (String × Fields)
newest [] = []
newest (x ∷ d) = newest d ++ x ∷ []

-- `max(1, min(500, limit))`
unfoldable pub bounded : ℤ → ℕ
bounded (negsuc n) = 1
bounded (pos n) = if leb n 0 then 1 else if leb n 500 then n else 500

-- the exceptions of the run store itself, for which the listing leaves a run out
is_run_error : Error → Bool
is_run_error bad_run_id = true
is_run_error run_missing = true
is_run_error review_mismatch = true
is_run_error _ = false

or_left_out : Result Fields → Result (List Fields) → Result (List Fields)
unfolding is_run_error
or_left_out (ok run) rest = do runs ← rest; ok (run ∷ runs)
or_left_out (err e) rest = if is_run_error e then rest else err e

views : Runtime → RunStore → List (String × Fields) → Result (List Fields)
unfolding or_left_out load_model_run
views rt w [] = ok []
views rt w ((run_id, run) ∷ l) =
    let rest = views rt w l in or_left_out (load_model_run rt run_id w) rest

unfoldable pub list_model_runs : Runtime → ℤ → RunStore → Result (List Fields)
unfolding views first_runs newest bounded
list_model_runs rt limit w = views rt w (first_runs (bounded limit) (newest w.model_runs))

-- `_list`
list_runs : Dir Fields → ℤ → List Fields
unfolding first_runs newest bounded contents
list_runs root limit = contents (first_runs (bounded limit) (newest root))

unfoldable pub list_workflow_runs : ℤ → RunStore → List Fields
unfolding list_runs
list_workflow_runs limit w = list_runs w.workflow_runs limit
