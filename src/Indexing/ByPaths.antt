-- ===== src/Indexing/ByPaths.antt =====
-- The scoped run of the indexer: `runIndexByPaths` of
-- vscode-extension/src/local/indexing/incrementalWorkspaceIndexer.ts. `load` is the loading of a file
-- (Indexing.Loading); what is caught and left out is as in Indexing.Indexer. The early return for an
-- empty scope is not written out: the loop and the deletion then do nothing.
pub mod Kept
use shared_dev_context_layer.Base.{
  ℕ, ◌+◌, String, Bool, true, false, ◌&&◌, not, Option, none, some, List, [], ◌∷◌, ◌++◌, length,
  if◌then◌else◌, string_Eq,
}
use shared_dev_context_layer.Base.Text.{Text}
use shared_dev_context_layer.Base.Table.{lookup}
use shared_dev_context_layer.Base.Strings.{Locale}
use shared_dev_context_layer.Base.Sorting.{sort}
use shared_dev_context_layer.Paths.{path_le}
use shared_dev_context_layer.Indexing.Chunker.{ChunkRecord}
use shared_dev_context_layer.Persistence.IndexStore.{FileRow, IndexStore, list_project_files}
use shared_dev_context_layer.Indexing.Indexer.{
  IndexedFileCandidate, FileFault, FileChangeKind, unchanged, skipped, IndexResult, ScanResult,
  empty_result, persist_candidate, unique_sorted_paths, soft_delete_paths,
}
use shared_dev_context_layer.Indexing.Loading.{
  CandidateLoadResult, missing, skipped_file, load_error, loaded,
}

-- The store, the result so far and the paths to delete.
pub record ScopedState : Type 0 where
  pub store : IndexStore
  pub result : IndexResult
  pub to_soft_delete : List String

abbrev pub is_active : Option FileRow → Bool
is_active none = false
is_active (some row) = not row.is_deleted

-- A path without a file to index: it is deleted where it was active.
abbrev pub drop_path : FileChangeKind → String → Option FileRow → ScopedState → ScopedState
drop_path kind path existing s =
    if is_active existing
    then record s { to_soft_delete = s.to_soft_delete ++ path ∷ [] }
    else record s { result = record s.result { changes = s.result.changes ++ (kind, path) ∷ [] } }

abbrev pub count_error : ScopedState → ScopedState
count_error s = record s {
  result = record s.result {
    metrics = record s.result.metrics { errors = s.result.metrics.errors + 1 };
  };
}

abbrev pub count_skipped : ScopedState → ScopedState
count_skipped s = record s {
  result = record s.result {
    metrics = record s.result.metrics { skipped_files = s.result.metrics.skipped_files + 1 };
  };
}

module _ (uuid : ℕ → String) (chunker : Text → List ChunkRecord) (locale : Locale) where
  -- The body of the loop over the target paths.
  unfoldable pub index_path :
      String
      → Option FileRow
      → (String → FileFault)
      → String
      → CandidateLoadResult
      → ScopedState
      → ScopedState
  index_path project_id existing faults path load_error s = count_error s
  index_path project_id existing faults path missing s = drop_path unchanged path existing s
  index_path project_id existing faults path skipped_file s =
      drop_path skipped path existing (count_skipped s)
  index_path project_id existing faults path (loaded candidate) s =
      let (store, result) =
        persist_candidate uuid chunker locale project_id existing candidate
          (faults candidate.relative_path) (s.store, s.result) in
      record s { store = store; result = result }

  unfoldable pub index_paths :
      String
      → List (String × FileRow)
      → (String → FileFault)
      → (String → CandidateLoadResult)
      → List String
      → ScopedState
      → ScopedState
  index_paths project_id existing faults load [] s = s
  index_paths project_id existing faults load (path ∷ paths) s =
      index_paths project_id existing faults load paths
        (index_path project_id (lookup path existing) faults path (load path) s)

  abbrev pub sort_changes : IndexResult → IndexResult
  sort_changes result = record result {
    changes = sort (λ a b. path_le locale a.1 b.1) result.changes;
  }

  unfoldable pub run_index_by_paths :
      String
      → (String → FileFault)
      → (String → CandidateLoadResult)
      → List String
      → IndexStore
      → IndexStore × IndexResult
  run_index_by_paths project_id faults load raw_paths store =
      let paths = unique_sorted_paths locale raw_paths in
      let existing = list_project_files project_id store.files in
      let start = empty_result (record { candidates = []; skipped_count = 0; error_count = 0 }) in
      let s = index_paths project_id existing faults load paths (record {
        store = store;
        result = record start { metrics = record start.metrics { scanned = length paths } };
        to_soft_delete = [];
      }) in
      let (store', result) =
        soft_delete_paths locale project_id s.to_soft_delete (s.store, s.result) in
      (store', sort_changes result)
