-- ===== src/Engine/Branches.antt =====
-- `create_branch`, `switch_branch` and `list_branches`.
mod Fork
pub mod Listing
unfoldable pub use Fork.{get_item, fork_layers, fork_state, fork_event}
use simulation_ai.Prelude.{
  ℕ, suc, String, Bool, true, false, not, ◌||◌, ◌&&◌, Option, none, some, List, [], ◌∷◌, ◌++◌, ◌==◌,
  if◌then◌else◌,
}
use simulation_ai.Prelude.Texts.{str_append, after_prefix}
use simulation_ai.Prelude.Lists.{length}
use simulation_ai.Json.Sort.{str_lt}
use simulation_ai.Result.{guard, branch_exists, branch_missing}
use simulation_ai.Runtime.{Runtime}
use simulation_ai.Model.State.{SurfaceState}
use simulation_ai.Store.{Store}
use simulation_ai.Store.States.{save_state, load_state, set_ref, read_ref, list_refs}
use simulation_ai.Store.Log.{append_event, list_events}
use simulation_ai.Exec.{Exec, pure, lift, gets, reads, modify, writes, ◌>>=◌, ◌>>◌}
use simulation_ai.Engine.Clock.{now, current}
use simulation_ai.Engine.Packet.{clean_branch_name}

-- `name in refs`
unfoldable pub has_ref : String → List (String × String) → Bool
has_ref name [] = false
has_ref name ((n, h) ∷ l) = n == name || has_ref name l

abbrev pub branch_ref : String → String
branch_ref name = str_append "branch-" name

-- the writes of a new branch
unfoldable pub write_branch : Runtime → SurfaceState → SurfaceState → Exec Store (Unit {0})
write_branch rt cur branch = do
  writes (save_state rt branch)
  writes (set_ref "HEAD" branch.state_hash)
  writes (set_ref (branch_ref branch.branch) branch.state_hash)
  events ← reads (list_events none none)
  created_at ← now rt
  modify (append_event (fork_event rt created_at (suc (length events)) cur branch))

unfoldable pub create_branch : Runtime → String → Exec Store SurfaceState
unfolding write_branch has_ref
create_branch rt name = do
  clean ← lift (clean_branch_name rt name)
  refs ← gets (λ (w : Store). list_refs "branch-" w.refs)
  lift (guard (not (has_ref (branch_ref clean) refs)) branch_exists)
  cur ← current
  branch ← lift (fork_state rt clean cur)
  write_branch rt cur branch
  pure branch

unfoldable pub switch_branch : Runtime → String → Exec Store SurfaceState
unfolding has_ref
switch_branch rt name = do
  clean ← lift (clean_branch_name rt name)
  refs ← gets (λ (w : Store). list_refs "branch-" w.refs)
  lift (guard (has_ref (branch_ref clean) refs) branch_missing)
  state_hash ← reads (read_ref (branch_ref clean))
  writes (set_ref "HEAD" state_hash)
  reads (load_state "HEAD")
