-- ===== src/Store/States.antt =====
-- States and refs: `save_state`, `load_state`, `state_exists`, `set_ref`, `read_ref`, `list_refs`.
use simulation_ai.Prelude.{String, Bool, not, ◌&&◌, List, [], ◌∷◌, nat_eq, if◌then◌else◌}
use simulation_ai.Prelude.Texts.{str_len, startswith, strip, is_space, is_empty}
use simulation_ai.Json.{Fields}
use simulation_ai.Json.Sort.{sort_fields, str_lt}
use simulation_ai.Result.{Result, ok, guard, or_raise, ◌>>=◌, ◌>>◌, missing_state, file_not_found}
use simulation_ai.Runtime.{Runtime}
use simulation_ai.Model.State.{SurfaceState, as_dict, from_dict, seal}
use simulation_ai.Store.Directory.{Dir, find, exists, write_once, overwrite}
use simulation_ai.Store.Records.{Store}

abbrev pub itself : Fields → Fields
itself d = d

-- the state that `save_state` writes: one without a hash is sealed first
unfoldable pub sealed : Runtime → SurfaceState → SurfaceState
unfolding seal
sealed rt s = if is_empty s.state_hash then seal rt s else s

unfoldable pub save_state : Runtime → SurfaceState → Store → Result Store
unfolding sealed
save_state rt s w = do
  states ← write_once itself (sealed rt s).state_hash (sort_fields (as_dict (sealed rt s))) w.states
  ok (record w { states = states })

unfoldable pub state_exists : String → Store → Bool
state_exists state_hash w = exists state_hash w.states

unfoldable pub read_ref : String → Store → Result String
unfolding strip is_space
read_ref name w = do text ← or_raise (find name w.refs) file_not_found; ok (strip is_space text)

-- `_read_json` of the file of a state
unfoldable pub read_state : String → Store → Result SurfaceState
read_state state_hash w = do d ← or_raise (find state_hash w.states) file_not_found; from_dict d

unfoldable pub load_state : String → Store → Result SurfaceState
unfolding read_ref read_state state_exists str_len
load_state ref w =
    if nat_eq (str_len ref) 64 && state_exists ref w
    then read_state ref w
    else (do state_hash ← read_ref ref w; read_state state_hash w)

-- the temporary file is renamed over the ref
unfoldable pub set_ref : String → String → Store → Result Store
unfolding state_exists
set_ref name state_hash w = do
  guard (state_exists state_hash w) missing_state
  ok (record w { refs = overwrite name state_hash w.refs })

unfoldable pub insert_ref : String → String → List (String × String) → List (String × String)
insert_ref name h [] = (name, h) ∷ []
insert_ref name h ((n, g) ∷ l) =
    if str_lt n name then (n, g) ∷ insert_ref name h l else (name, h) ∷ (n, g) ∷ l

-- `list_refs(prefix)`, in the order of the names
unfoldable pub list_refs : String → Dir String → List (String × String)
unfolding insert_ref startswith strip is_space str_lt
list_refs prefix [] = []
list_refs prefix ((name, text) ∷ d) =
    let rest = list_refs prefix d in
    if not (startswith name ".") && startswith name prefix
    then insert_ref name (strip is_space text) rest
    else rest
