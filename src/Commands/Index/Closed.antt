-- ===== src/Commands/Index/Closed.antt =====
-- The row of an index run after `localIndex`.
use shared_dev_context_layer.Base.{ℕ, ◌≡◌, ◌≢◌, String, true, false, none, some, ◌⊎◌, string_Eq}
use shared_dev_context_layer.Base.Table.{lookup}
use shared_dev_context_layer.Persistence.IndexRuns.{IndexRunRow}
use shared_dev_context_layer.Commands.Types.{LocalCommandResult}
use shared_dev_context_layer.Commands.Session.{
  Result, value, Action, recover, ◌>>=◌, Turn, Tables, Session, call,
}
use shared_dev_context_layer.Commands.Deps.{Deps}
use shared_dev_context_layer.Commands.Calls.{return_pushed}
use shared_dev_context_layer.Commands.Index.{
  WorkspaceIndexResult, RunIndex, complete_call, one_error, indexed_result, failed_result,
  on_run_error,
}

module _ (deps : Deps) (turns : ℕ → Turn) (run_index : RunIndex) (project id : String)
    (outcome : Result WorkspaceIndexResult) where
  -- The row is completed with the counts of the indexer and the result reports them, or the row has
  -- failed with the message of the result.
  pub record IsClosed (x : Result LocalCommandResult × Session) : Type 0 where
    pub row : IndexRunRow
    pub found : lookup id x.1.tables.index_runs ≡ some row
    pub finished : row.finished_at ≢ none
    pub reported :
        ((indexed : WorkspaceIndexResult) × (outcome ≡ value indexed)
          × (row.status ≡ "completed")
          × (row.counts ≡ indexed.metrics)
          × (row.summary ≡ some indexed.message)
          × (x.0 ≡ value (indexed_result deps turns run_index project id indexed)))
        ⊎ ((message : String) × (row.status ≡ "failed")
            × (row.counts ≡ one_error)
            × (row.summary ≡ some message)
            × (x.0 ≡ value (failed_result deps turns run_index project id message)))

  module _ (alone : (n : ℕ) (t : Tables) → ((turns n).others t).index_runs ≡ t.index_runs) where
    abbrev complete_failed : String → Action LocalCommandResult
    complete_failed message = call turns (complete_call id "failed" message) >>= λ _.
        return_pushed deps (failed_result deps turns run_index project id message) true

    module _ (indexed : WorkspaceIndexResult) (was : outcome ≡ value indexed) where
      abbrev complete_indexed : Action LocalCommandResult
      complete_indexed = call turns (complete_call id "completed" indexed.message) >>= λ _.
          return_pushed deps (indexed_result deps turns run_index project id indexed) false

      abbrev or_failed : Result LocalCommandResult × Session → Result LocalCommandResult × Session
      or_failed = recover (on_run_error deps turns run_index project id)
