-- ===== src/Retrieval.antt =====
-- The retrieval of context for an intent (vscode-extension/src/local/retrieval).
pub mod Types
pub mod Budget
pub mod Scorer
