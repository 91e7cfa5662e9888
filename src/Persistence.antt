-- ===== src/Persistence.antt =====
-- The PostgreSQL adapter (vscode-extension/src/local/persistence): one module per group of tables.
pub mod RunLock
pub mod Idempotency
mod Tests
pub mod IndexStore
pub mod TaskState
pub mod Records
pub mod IndexRuns
