-- ===== src/Lib.antt =====
-- Verification library of the shared development context layer: the extension under
-- vscode-extension/src, its local workflow above all (vscode-extension/src/local).
--
-- The program indexes a workspace into PostgreSQL, retrieves the parts of it that a task needs, runs
-- codex on the task and judges what the run did. Commands of several clients meet in the database:
-- a lock per project admits one run at a time, and a claim per command and key sees to it that a
-- command is carried out once.
--
--   Base              shared helpers: Boolean tests with their laws, association tables, lists
--                     over the native numbers, integers, texts as UTF-16 code units, stable
--                     sorting and sets of JavaScript, operations on strings
--   Persistence       the tables project_run_locks, idempotency_records, files and file_chunks
--                     of vscode-extension/src/local/persistence/postgresPersistenceAdapter.ts. A
--                     row is a record, an SQL statement a function of the time and the table,
--                     and several clients are a list of timed statements in the order in which
--                     the database serves them. RunLock: acquireProjectRunLock,
--                     renewProjectRunLock, releaseProjectRunLock; Idempotency: claimIdempotency
--                     (three statements, between which others may come), renewIdempotencyClaim,
--                     completeIdempotencyClaim, failIdempotencyClaim, resolveIdempotentResult,
--                     saveIdempotentResult; IndexStore: upsertIndexedFile, replaceFileChunks,
--                     listProjectFiles, markFilesDeleted, deleteChunksByFileIds; TaskState:
--                     getTaskLifecycleState, transitionTaskState, saveTask over tasks;
--                     Records: saveExecution, saveExecutionArtifact,
--                     saveDecision, saveEvent over executions, execution_artifacts, decisions
--                     and events; IndexRuns: createIndexRun, completeIndexRun,
--                     createOrUpdateIndexRunMetrics over index_runs
--   Commands          localRunCodex, localPrepareTask, localIndex and localRefresh of
--                     vscode-extension/src/local/localCommandService.ts. Types and Deps: their
--                     data and collaborators; Session: the tables, the records, the runtime
--                     snapshot and the local variables, with the actions that pass them on;
--                     Reports, Guards, Heartbeat, Execution, Closing, Calls, Stages, Run:
--                     localRunCodex cut into pieces, Capping the cut of long texts; Prepare:
--                     localRefresh and localPrepareTask; Index: localIndex. A call to the
--                     database takes a turn, which says what other clients have done meanwhile,
--                     the time, and whether the call works, fails, or loses its answer; the timer of
--                     the heartbeat fires at four places, as often as Deps says. Proofs:
--                     Keeps (rules for actions), Quiet and Invariant (what each kind of step must
--                     keep, and the pieces that keep it then), Released, Closed, Errors, Settled,
--                     Replay, Answers, Prepare.Fresh, Prepare.Stale, Index.Closed, Tests
--   Indexing          Chunker: BasicChunker of
--                     vscode-extension/src/local/indexing/basicChunker.ts; Indexer: runIndex,
--                     persistCandidate and softDeletePaths of
--                     vscode-extension/src/local/indexing/incrementalWorkspaceIndexer.ts over
--                     the tables of IndexStore, for what the scanner has found. FileFault says
--                     which statement throws for a file, the errors that the indexer catches.
--                     Its proofs: Current (the invariant of the store), Writes, Loop, Marking,
--                     Deletion, Unscanned, Run, Stale. Loading: loadCandidateFromPath, and
--                     TextFileDetector of
--                     vscode-extension/src/local/indexing/textFileDetector.ts; ByPaths:
--                     runIndexByPaths
--   Retrieval         Scorer: rankRetrievalCandidates of
--                     vscode-extension/src/local/retrieval/retrievalScorer.ts; Budget:
--                     applyRetrievalBudget of
--                     vscode-extension/src/local/retrieval/retrievalBudget.ts
--   CommandValidation validateCodexExecutableCommand of
--                     vscode-extension/src/local/codexCommandValidation.ts
--   Paths             normalizeProjectPath and toComparablePathKey of
--                     vscode-extension/src/local/pathNormalization.ts
--   PostRun           Diff: WorkspaceDiffAnalyzer of
--                     vscode-extension/src/local/workspaceDiffAnalyzer.ts; Classifier and
--                     Timeout: vscode-extension/src/local/executionOutcomeClassifier.ts;
--                     Reviewer: vscode-extension/src/local/postRunReviewer.ts; Reconciler:
--                     vscode-extension/src/local/postRunReconciler.ts, over ports for the
--                     snapshotter, the run and the indexer; Accepted: what
--                     vscode-extension/src/local/localCommandService.ts hands to the review
--
-- How the parts meet: the indexer stores the chunks of the Chunker under normalized paths, the
-- Retrieval selects among stored chunks, and after a run the Diff of two captures of the workspace
-- goes to the Classifier, whose outcome the Reviewer turns into a decision.
--
-- Numbers, bounds, fuel. Times are natural numbers, those of locks and claims in milliseconds, and so
-- are sizes; a score is an integer. Two loops
-- take fuel. The loop of the chunker has the length of the content plus one, since each round moves
-- on by one unit at least; the outer loop of the budget has nine rounds, since each round but the last
-- selects one of at most eight chunks. That this is enough is part of the results.
--
-- Parameters. SHA-256 is a function from texts; toLowerCase and localeCompare of the platform are the
-- record Locale, of which no law is assumed; randomUUID is a sequence of ids, of which the results on
-- the indexer assume that none comes twice; the file system, the path functions of the platform and
-- the decoding of UTF-8 are the record Disk.
--
-- Not modelled: the HTTP and MCP transport, the editor's API, child processes, SQL other than the
-- statements named above (so not the INSERT of transitionTaskState into task_state_transitions, which
-- no code reads), the text of messages for the log, and the Python service under backend.
pub mod Base
pub mod CommandValidation
pub mod Commands
pub mod Indexing
pub mod Paths
pub mod Persistence
pub mod PostRun
pub mod Retrieval
