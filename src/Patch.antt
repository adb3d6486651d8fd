-- ===== src/Patch.antt =====
-- validation.py: the JSON-pointer patches that a proposal carries, the rules that a proposal and a
-- state keep, and the application of a proposal to the current state.
mod Pointer
mod Rules
pub mod Lens
pub mod Framed
pub mod Protected
pub mod Invariants
pub mod Identity
pub mod Inside
pub mod Layers
unfoldable pub use Pointer.{
  segments, child, with_child, get, set_in, set, remove_in, remove, list_place,
}
unfoldable pub use Rules.{
  get_attr, check_segments, check_path, validate_proposal, validate_state_invariants, in_dict,
  check_selected, check_object, check_objects, check_render, validate_interaction, has_operations,
  has_required, no_more, second_is,
}
pub use Rules.{protected_roots, allowed_roots}
use simulation_ai.Prelude.{ℕ, suc, String, Bool, true, false, ◌==◌, if◌then◌else◌}
use simulation_ai.Prelude.Int.{pos}
use simulation_ai.Json.{Value, int, str, obj, Fields}
use simulation_ai.Json.Dict.{put}
use simulation_ai.Json.Equal.{py_eq}
use simulation_ai.Result.{Result, ok, err, guard, ◌>>=◌, ◌>>◌, test_failed, type_error}
use simulation_ai.Result.Loops.{fold}
use simulation_ai.Runtime.{Runtime}
use simulation_ai.Model.Patch.{PatchOperation, PatchProposal}
use simulation_ai.Model.State.{SurfaceState, as_dict, from_dict, seal}

-- `_apply_operation`; the document comes back changed
unfoldable pub apply_operation : Value → PatchOperation → Result Value
apply_operation document o =
    if o.op == "test"
    then (do
      actual ← get document (segments o.path)
      guard (py_eq actual o.value) test_failed
      ok document)
    else if o.op == "remove"
    then remove document (segments o.path)
    else set document (segments o.path) o.value (o.op == "add")

unfoldable pub as_object : Value → Result Fields
as_object (obj d) = ok d
as_object _ = err type_error

-- the fields that the core sets itself, after the operations
unfoldable pub stamp : SurfaceState → Fields → Fields
stamp current document = put "state_hash" (str "") (
    put "logical_time" (int (pos (suc current.logical_time)))
      (put "parent_state_hash" (str current.state_hash) document))

unfoldable pub apply_proposal : Runtime → SurfaceState → PatchProposal → Result SurfaceState
unfolding as_object
apply_proposal rt current proposal = do
  validate_proposal proposal current
  document ← fold apply_operation (obj (as_dict current)) proposal.operations
  fields ← as_object document
  next_state ← from_dict (stamp current fields)
  validate_state_invariants rt next_state
  ok (seal rt next_state)
