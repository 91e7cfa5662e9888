-- ===== src/Indexing.antt =====
-- The indexing of a workspace (vscode-extension/src/local/indexing).
pub mod Chunker
pub mod Indexer
pub mod Loading
pub mod ByPaths
