-- ===== src/Engine/Boot.antt =====
-- `boot`, on the store that `SurfaceStore.__init__` makes in a new directory.
mod Objects
pub mod Genesis
pub mod First
pub use Genesis.{Pack}
unfoldable pub use Objects.{default_objects, default_links}
unfoldable pub use Genesis.{genesis_ui, genesis_layers, genesis, genesis_frame}
use simulation_ai.Prelude.{String, []}
use simulation_ai.Runtime.{Runtime}
use simulation_ai.Model.State.{SurfaceState}
use simulation_ai.Store.{Store}
use simulation_ai.Store.States.{save_state, set_ref}
use simulation_ai.Store.Files.{save_frame}
use simulation_ai.Exec.{Exec, pure, writes, ◌>>=◌, ◌>>◌}
use simulation_ai.Engine.Clock.{now}

abbrev pub empty_store : Store
empty_store = record {
  states = [];
  refs = [];
  events = [];
  evidence = [];
  proposals = [];
  memories = [];
  render_jobs = [];
  frames = [];
  ticks = 0;
}

-- the writes of `boot`
unfoldable pub write_first : Runtime → SurfaceState → Exec Store SurfaceState
unfolding genesis_frame
write_first rt state = do
  writes (save_state rt state)
  writes (set_ref "HEAD" state.state_hash)
  writes (set_ref "branch-main" state.state_hash)
  created_at ← now rt
  writes (save_frame rt (genesis_frame rt created_at state))
  pure state

unfoldable pub boot : Runtime → Pack → Exec Store SurfaceState
unfolding write_first genesis
boot rt pack = write_first rt (genesis rt pack)
