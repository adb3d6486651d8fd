-- ===== src/Tests/Runs.antt =====
-- A run that is saved.
use simulation_ai.Prelude.{[], ◌∷◌, ◌≡◌, refl, true}
use simulation_ai.Json.{str, Fields, bool}
use simulation_ai.Json.Dict.{get_or, lookup}
use simulation_ai.Json.Equal.{py_eq}
use simulation_ai.Prelude.Texts.{str_len}
use simulation_ai.Result.{ok}
use simulation_ai.Runtime.{str_of}
use simulation_ai.Model.{dict}
use simulation_ai.Store.{find, overwrite}
use simulation_ai.Runs.{save_run, safe_id, safe_chars, is_safe_char, stamped_run, write_run}
use simulation_ai.Runs.Immutable.{AreRuns, Kept, save_run-Kept}
use simulation_ai.Tests.Fixtures.{test_runtime}

first_run : Fields
first_run = dict (
    ("schema", str "nmsr.prompt-run/1")
    ∷ ("run_id", str "run_1")
    ∷ ("commit_authority", bool true)
    ∷ [])

no_runs : AreRuns test_runtime []
unfolding find
no_runs k v e = cc

saved :
    save_run test_runtime "nmsr.prompt-run/1" "run_id" first_run []
    ≡ ok (
      stamped_run test_runtime first_run,
      overwrite "run_1" (stamped_run test_runtime first_run) [],
    )
unfolding save_run safe_id safe_chars is_safe_char write_run get_or lookup first_run py_eq str_of
    str_len find
saved = refl

save_run-Kept_example :
    Kept test_runtime [] (
      stamped_run test_runtime first_run,
      overwrite "run_1" (stamped_run test_runtime first_run) [],
    )
save_run-Kept_example =
    save_run-Kept test_runtime "nmsr.prompt-run/1" "run_id" first_run []
      (
        stamped_run test_runtime first_run,
        overwrite "run_1" (stamped_run test_runtime first_run) [],
      )
      no_runs saved
