-- ===== src/Tests.antt =====
-- The theorems at concrete stores, states and proposals.
mod Fixtures
mod Patches
mod Renders
mod Sessions
mod Runs
mod Workflows
pub mod Vaults
pub mod Prompts
mod Calls
mod Downloads
mod Memories
mod Records
mod Commits
