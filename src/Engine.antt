-- ===== src/Engine.antt =====
-- engine.py: the only part that commits states, appends events and moves refs. Each method is an
-- action on the store; the lock around it makes the methods run one after the other.
mod Clock
pub mod Consistent
pub mod Packet
pub mod Commit
pub mod Boot
pub mod Interact
pub mod Branches
pub mod Verify
pub mod Replay
pub mod Histories
pub mod Committed
pub mod Extends
unfoldable pub use Clock.{now, current, put_item}
