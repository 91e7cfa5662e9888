-- ===== src/Indexing/Indexer.antt =====
-- The incremental indexer: `runIndex`, `persistCandidate`, `softDeletePaths` of
-- vscode-extension/src/local/indexing/incrementalWorkspaceIndexer.ts over the tables of
-- Persistence.IndexStore. What the scanner found is an argument; of the result the printed message
-- and the copies of its numbers are left out. `FileFault` says which statement throws for a
-- candidate, the only errors that the indexer catches: another one ends the run.
pub mod Current
pub mod Writes
pub mod Loop
pub mod Marking
pub mod Deletion
pub mod Unscanned
pub mod Run
pub mod Stale
mod Tests
use Prim.Native.String
use shared_dev_context_layer.Base.{
  ℕ, ◌+◌, String, Bool, true, false, not, ◌&&◌, Option, none, some, List, [], ◌∷◌, ◌++◌, map,
  length, if◌then◌else◌, ◌==◌, string_Eq, filter_by, nat_eq,
}
use Prim.Native.Char.{code}
use shared_dev_context_layer.Base.Text.{Text}
use shared_dev_context_layer.Base.Table.{lookup}
use shared_dev_context_layer.Base.Strings.{Locale, is_empty}
use shared_dev_context_layer.Base.Sorting.{sort, unique, includes}
use shared_dev_context_layer.Paths.{normalize_project_path, path_le}
use shared_dev_context_layer.Indexing.Chunker.{ChunkRecord, BasicChunkerConfig, chunk}
use shared_dev_context_layer.Persistence.IndexStore.{
  FileKey, FileRow, file_key, IndexStore, UpsertIndexedFileInput, upsert_indexed_file,
  replace_file_chunks, list_project_files, mark_files_deleted, delete_chunks_by_file_ids,
}

pub record IndexedFileCandidate : Type 0 where
  pub relative_path : String
  pub extension : String
  pub size_bytes : ℕ
  pub content_hash : String
  pub content : Text
  pub modified_at : String

pub data FileChangeKind : Type 0 where
  added modified unchanged deleted skipped reactivated : FileChangeKind

pub record IndexRunMetrics : Type 0 where
  pub scanned : ℕ
  pub new_files : ℕ
  pub modified_files : ℕ
  pub deleted_files : ℕ
  pub skipped_files : ℕ
  pub chunks_written : ℕ
  pub errors : ℕ

pub record ScanResult : Type 0 where
  pub candidates : List IndexedFileCandidate
  pub skipped_count : ℕ
  pub error_count : ℕ

pub record IndexResult : Type 0 where
  pub metrics : IndexRunMetrics
  pub changes : List (FileChangeKind × String)

pub data FileFault : Type 0 where
  healthy upsert_fails replace_fails : FileFault

-- The chunker always returns (Indexing.Chunker.Cover).
abbrev pub chunks_or_none : Option (List ChunkRecord) → List ChunkRecord
chunks_or_none none = []
chunks_or_none (some chunks) = chunks

abbrev drop_dot : String → String
drop_dot String.[] = String.[]
drop_dot (String.◌∷◌ c s) = if nat_eq (code c) b'.' then s else String.◌∷◌ c s

pub infer_language_from_extension : Locale → String → Option String
infer_language_from_extension locale extension =
    if is_empty extension then none else some (locale.to_lower (drop_dot extension))

unfoldable pub unique_sorted_paths : Locale → List String → List String
unique_sorted_paths locale paths =
    sort (path_le locale)
      (unique (filter_by (λ p. not (is_empty p)) (map normalize_project_path paths)))

-- `makeEmptyMetrics`, and no changes
abbrev pub empty_result : ScanResult → IndexResult
empty_result scan = record {
  metrics = record {
    scanned = length scan.candidates;
    new_files = 0;
    modified_files = 0;
    deleted_files = 0;
    skipped_files = scan.skipped_count;
    chunks_written = 0;
    errors = scan.error_count;
  };
  changes = [];
}

-- The kind of the change, and whether the chunks are written again.
unfoldable pub change_of : Option FileRow → String → FileChangeKind × Bool
change_of none hash = (added, true)
change_of (some row) hash =
    if row.is_deleted
    then (reactivated, true)
    else if not (row.content_hash == hash)
    then (modified, true)
    else (unchanged, false)

abbrev pub new_count : FileChangeKind → ℕ
new_count added = 1
new_count _ = 0

abbrev pub modified_count : FileChangeKind → ℕ
modified_count reactivated = 1
modified_count modified = 1
modified_count _ = 0

-- The statements of `softDeletePaths`: no statement is run on an empty list.
unfoldable pub delete_paths : String → List String → IndexStore → IndexStore × ℕ
delete_paths project_id [] store = (store, 0)
delete_paths project_id (path ∷ paths) store =
    let (marked, ids) = mark_files_deleted project_id (path ∷ paths) store in
    (delete_chunks_by_file_ids ids marked, length ids)

unfoldable pub soft_delete_paths :
    Locale → String → List String → IndexStore × IndexResult → IndexStore × IndexResult
soft_delete_paths locale project_id raw_paths (store, result) =
    let paths = unique_sorted_paths locale raw_paths in
    let (store', count) = delete_paths project_id paths store in
    let m = result.metrics in
    (
      store',
      record {
        metrics = record m { deleted_files = m.deleted_files + count };
        changes = result.changes ++ map (λ path. (deleted, path)) paths;
      },
    )

-- The active rows that no candidate has.
unfoldable pub unscanned : List IndexedFileCandidate → List (String × FileRow) → List String
unscanned candidates [] = []
unscanned candidates ((path, row) ∷ rows) =
    let rest = unscanned candidates rows in
    if not row.is_deleted && not (includes (map (λ c. c.relative_path) candidates) path)
    then path ∷ rest
    else rest

module _ (uuid : ℕ → String) (chunker : Text → List ChunkRecord) (locale : Locale) where
  abbrev pub upsert_input : String → IndexedFileCandidate → UpsertIndexedFileInput
  upsert_input project_id candidate = record {
    key = file_key project_id candidate.relative_path;
    content_hash = candidate.content_hash;
    language = infer_language_from_extension locale candidate.extension;
    size_bytes = candidate.size_bytes;
    modified_at = candidate.modified_at;
  }

  -- The statements of `persistCandidate`: the store, the chunks written and the errors.
  unfoldable pub write_candidate :
      String → IndexedFileCandidate → Bool → FileFault → IndexStore → IndexStore × ℕ × ℕ
  write_candidate project_id candidate rewrite upsert_fails store = (store, 0, 1)
  write_candidate project_id candidate rewrite replace_fails store =
      let (saved, row) = upsert_indexed_file uuid (upsert_input project_id candidate) store in
      if rewrite then (saved, 0, 1) else (saved, 0, 0)
  write_candidate project_id candidate rewrite healthy store =
      let (saved, row) = upsert_indexed_file uuid (upsert_input project_id candidate) store in
      if rewrite
      then (let (written, count) = replace_file_chunks row.id (chunker candidate.content) saved in
          (written, count, 0))
      else (saved, 0, 0)

  -- `persistCandidate`, and what the loop does with its result.
  unfoldable pub persist_candidate :
      String
      → Option FileRow
      → IndexedFileCandidate
      → FileFault
      → IndexStore × IndexResult
      → IndexStore × IndexResult
  persist_candidate project_id existing candidate fault (store, result) =
      let (kind, rewrite) = change_of existing candidate.content_hash in
      let (store', written, failed) = write_candidate project_id candidate rewrite fault store in
      let m = result.metrics in
      (
        store',
        record {
          metrics = record m {
            new_files = m.new_files + new_count kind;
            modified_files = m.modified_files + modified_count kind;
            chunks_written = m.chunks_written + written;
            errors = m.errors + failed;
          };
          changes = result.changes ++ (kind, candidate.relative_path) ∷ [];
        },
      )

  unfoldable pub persist_all :
      String
      → List (String × FileRow)
      → (String → FileFault)
      → List IndexedFileCandidate
      → IndexStore × IndexResult
      → IndexStore × IndexResult
  persist_all project_id existing faults [] s = s
  persist_all project_id existing faults (candidate ∷ candidates) s =
      persist_all project_id existing faults candidates (
        persist_candidate project_id (lookup candidate.relative_path existing) candidate
          (faults candidate.relative_path) s)

  unfoldable pub run_index :
      String → (String → FileFault) → ScanResult → IndexStore → IndexStore × IndexResult
  run_index project_id faults scan store =
      let existing = list_project_files project_id store.files in
      soft_delete_paths locale project_id (unscanned scan.candidates existing)
        (persist_all project_id existing faults scan.candidates (store, empty_result scan))
