-- ===== src/Commands.antt =====
-- The local commands (vscode-extension/src/local/localCommandService.ts): the state that they work
-- on, the guards and the reports that they share, and the command that runs Codex.
pub mod Types
pub mod Session
pub mod Deps
pub mod Keeps
pub mod Capping
pub mod Reports
pub mod Guards
pub mod Heartbeat
pub mod Execution
pub mod Closing
pub mod Calls
pub mod Answers
pub mod Quiet
pub mod Invariant
pub mod Stages
pub mod Run
pub mod Released
pub mod Errors
pub mod Closed
pub mod Settled
pub mod Replay
pub mod Prepare
pub mod Index
mod Tests
