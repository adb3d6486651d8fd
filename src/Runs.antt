-- ===== src/Runs.antt =====
-- prompt_runs.py: the store of model runs, workflow runs and reviews. A directory is in the order of
-- its files' times; its files are those that the core writes, so every one holds a dict.
pub mod Immutable
pub mod Reviews
pub mod Listing
use simulation_ai.Prelude.{
  ℕ, zero, suc, String, Bool, true, false, not, ◌&&◌, ◌||◌, Option, none, some, List, [], ◌∷◌, ◌++◌,
  ◌==◌, leb, nat_eq, if◌then◌else◌,
}
use simulation_ai.Prelude.Int.{ℤ, pos, negsuc}
use Prim.Native.Char.{Char, code}
use Prim.Native.String
use simulation_ai.Prelude.Texts.{str_len, is_empty, is_space, strip, take_str}
use simulation_ai.Json.{Value, null, bool, str, obj, Fields}
use simulation_ai.Json.Dict.{lookup, get_or, put, erase}
use simulation_ai.Json.Equal.{py_eq}
use simulation_ai.Json.Sort.{str_lt}
use simulation_ai.Result.{
  Error, Result, ok, err, guard, or_raise, ◌>>=◌, ◌>>◌, key_error, type_error, record_required,
  bad_run_id, run_collision, run_missing, review_mismatch, bad_review,
}
use simulation_ai.Runtime.{Runtime, str_of, digest}
use simulation_ai.Model.{dict, one_of}
use simulation_ai.Store.{Dir, find, overwrite, contents}

pub record RunStore : Type 0 where
  pub model_runs : Dir Fields
  pub workflow_runs : Dir Fields
  pub reviews : Dir (Dir Fields)
  pub ticks : ℕ

unfoldable pub is_safe_char : Char → Bool
is_safe_char c =
    (leb b'a' (code c) && leb (code c) b'z')
    || ((leb b'A' (code c) && leb (code c) b'Z')
        || ((leb b'0' (code c) && leb (code c) b'9')
            || (nat_eq (code c) b'_' || nat_eq (code c) b'-')))

unfoldable pub safe_chars : String → Bool
unfolding is_safe_char
safe_chars String.[] = true
safe_chars (String.◌∷◌ c s) = is_safe_char c && safe_chars s

-- `_safe_id`
unfoldable pub safe_id : String → Result String
unfolding safe_chars
safe_id value = do
  guard (not (is_empty value) && (leb (str_len value) 96 && safe_chars value)) bad_run_id
  ok value

-- `_record_digest`
unfoldable pub record_digest : Runtime → Fields → String
record_digest rt value = digest rt (obj (erase "record_sha256" value))

-- `_load_raw`
unfoldable pub load_raw : Dir Fields → String → Result Fields
unfolding safe_id
load_raw root record_id = do clean ← safe_id record_id; or_raise (find clean root) run_missing

-- the record without the authority to commit, and with its digest
unfoldable pub stamped_run : Runtime → Fields → Fields
unfolding record_digest
stamped_run rt value =
    let v =
      put "deterministic_gate_required" (bool true) (put "commit_authority" (bool false) value) in
    put "record_sha256" (str (record_digest rt v)) v

-- the record of that ID is written if there is none, and else has to be the same
unfoldable pub write_run : Runtime → String → Fields → Dir Fields → Result (Fields × Dir Fields)
write_run rt record_id value root = elim (find record_id root) [
  | none ↦ ok (value, overwrite record_id value root)
  | some existing ↦
      if py_eq (get_or "record_sha256" null existing) (get_or "record_sha256" null value)
      then ok (existing, root)
      else err run_collision
]

-- `_save`, with the directory after it
unfoldable pub save_run :
    Runtime → String → String → Fields → Dir Fields → Result (Fields × Dir Fields)
unfolding safe_id stamped_run write_run
save_run rt schema id_field value root = do
  guard (py_eq (get_or "schema" null value) (str schema)) record_required
  record_id ← safe_id (str_of rt (get_or id_field (str "") value))
  write_run rt record_id (stamped_run rt value) root

unfoldable pub save_model_run : Runtime → Fields → RunStore → Result (Fields × RunStore)
unfolding save_run
save_model_run rt value w = do
  saved ← save_run rt "nmsr.prompt-run/1" "run_id" value w.model_runs
  ok (saved.0, record w { model_runs = saved.1 })

unfoldable pub save_workflow_run : Runtime → Fields → RunStore → Result (Fields × RunStore)
unfolding save_run
save_workflow_run rt value w = do
  saved ← save_run rt "nmsr.prompt-workflow-run/1" "workflow_run_id" value w.workflow_runs
  ok (saved.0, record w { workflow_runs = saved.1 })
