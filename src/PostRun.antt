-- ===== src/PostRun.antt =====
-- What follows a run of codex: the comparison of the workspace before and after, the
-- classification of the outcome and its review (vscode-extension/src/local).
pub mod Types
pub mod Timeout
pub mod Classifier
pub mod Reviewer
pub mod Diff
pub mod Reconciler
pub mod Accepted
mod Tests
