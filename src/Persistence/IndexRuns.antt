-- ===== src/Persistence/IndexRuns.antt =====
-- The table `index_runs`: `createIndexRun`, `completeIndexRun`, `createOrUpdateIndexRunMetrics` of
-- vscode-extension/src/local/persistence/postgresPersistenceAdapter.ts. The column updated_at, which
-- no code reads, is left out.
use shared_dev_context_layer.Base.{
  ℕ, String, true, Option, none, some, List, string_Eq, ◌≡◌, refl, ◌∙◌,
}
use shared_dev_context_layer.Base.Table.{lookup, insert, update_where, lookup-update_where}

-- The columns scanned_count to error_count, which are 0 in a new row.
pub record IndexRunCounts : Type 0 where
  pub scanned_count : ℕ
  pub new_count : ℕ
  pub modified_count : ℕ
  pub deleted_count : ℕ
  pub skipped_count : ℕ
  pub chunk_count : ℕ
  pub error_count : ℕ

pub record IndexRunRow : Type 0 where
  pub project_id : String
  pub status : String
  pub summary : Option String
  pub started_at : ℕ
  pub finished_at : Option ℕ
  pub counts : IndexRunCounts

abbrev pub IndexRunTable : Type 0
IndexRunTable = List (String × IndexRunRow)

abbrev pub no_counts : IndexRunCounts
no_counts = record {
  scanned_count = 0;
  new_count = 0;
  modified_count = 0;
  deleted_count = 0;
  skipped_count = 0;
  chunk_count = 0;
  error_count = 0;
}

abbrev pub created_run : (project : String) → String → Option String → ℕ → IndexRunRow
created_run project status summary now = record {
  project_id = project;
  status = status;
  summary = summary;
  started_at = now;
  finished_at = none;
  counts = no_counts;
}

unfoldable pub create_index_run : (id : String) → IndexRunRow → IndexRunTable → IndexRunTable
create_index_run id row runs = insert id row runs

abbrev pub completed_run : ℕ → String → Option String → IndexRunRow → IndexRunRow
completed_run now status summary row = record row {
  status = status;
  summary = summary;
  finished_at = some now;
}

unfoldable pub complete_index_run :
    ℕ → (id : String) → String → Option String → IndexRunTable → IndexRunTable
complete_index_run now id status summary runs =
    (update_where id (λ row. true) (completed_run now status summary) runs).0

abbrev pub counted_run : IndexRunCounts → IndexRunRow → IndexRunRow
counted_run counts row = record row { counts = counts }

unfoldable pub create_or_update_index_run_metrics :
    (id : String) → IndexRunCounts → IndexRunTable → IndexRunTable
create_or_update_index_run_metrics id counts runs =
    (update_where id (λ row. true) (counted_run counts) runs).0

module _ (id : String) (row : IndexRunRow) (runs : IndexRunTable)
    (found : lookup id runs ≡ some row) where
  updated_row :
      (f : IndexRunRow → IndexRunRow)
      → lookup id (update_where id (λ row. true) f runs).0 ≡ some (f row)
  updated_row f =
      (lookup-update_where id id (λ row. true) f runs).1
      ∙ rw ((string_Eq.equals_iff id id).1 refl, found) refl

  pub lookup-completed_run :
      (now : ℕ) (status : String) (summary : Option String)
      → lookup id (complete_index_run now id status summary runs)
        ≡ some (completed_run now status summary row)
  unfolding complete_index_run
  lookup-completed_run now status summary = updated_row (completed_run now status summary)

  pub lookup-counted_run :
      (counts : IndexRunCounts)
      → lookup id (create_or_update_index_run_metrics id counts runs)
        ≡ some (counted_run counts row)
  unfolding create_or_update_index_run_metrics
  lookup-counted_run counts = updated_row (counted_run counts)
