-- ===== src/Indexing/Indexer/Run.antt =====
-- A full run of the indexer.
use shared_dev_context_layer.Base.{
  ℕ, String, false, Option, none, some, List, [], ◌∷◌, ◌≡◌, ◌≢◌, refl, sym, ◌∙◌, string_Eq, All,
  arith, Bool-cases, All-mono, All-always, inl, inr, map,
}
use shared_dev_context_layer.Base.Text.{Text}
use shared_dev_context_layer.Base.Strings.{Locale}
use shared_dev_context_layer.Base.Sorting.{includes}
use shared_dev_context_layer.Base.Table.{lookup}
use shared_dev_context_layer.Indexing.Chunker.{ChunkRecord}
use shared_dev_context_layer.Persistence.IndexStore.{
  FileRow, IndexStore, file_key_Eq, file_key, list_project_files,
}
use shared_dev_context_layer.Persistence.IndexStore.Laws.{lookup-list_project_files}
use shared_dev_context_layer.Indexing.Indexer.{
  IndexedFileCandidate, FileFault, healthy, upsert_fails, replace_fails, ScanResult, empty_result,
  persist_all, delete_paths, soft_delete_paths, unique_sorted_paths, unscanned, run_index,
}
use shared_dev_context_layer.Indexing.Indexer.Current.{Current}
use shared_dev_context_layer.Indexing.Indexer.Writes.{NoRepeats}
use shared_dev_context_layer.Indexing.Indexer.Loop.{
  DistinctPaths, Indexed, persist_all-Current, persist_all-Indexed, persist_all-elsewhere,
  apart_keys,
}
use shared_dev_context_layer.Indexing.Indexer.Marking.{Gone}
use shared_dev_context_layer.Indexing.Indexer.Deletion.{
  IsNormal, delete_paths-Current, delete_paths-elsewhere, delete_paths-keeps, delete_paths-Gone,
  unique_sorted_paths-All, All-unique_sorted_paths,
}
use shared_dev_context_layer.Indexing.Indexer.Unscanned.{
  NormalRows, unscanned-All, unscanned-has, not_scanned, deleted_apart, normal_apart,
}

module _ (uuid : ℕ → String) (chunker : Text → List ChunkRecord) (content_of : String → Text)
    (locale : Locale) (project_id : String) where
  rows_agree :
      (store : IndexStore) (candidates : List IndexedFileCandidate)
      → All
          (λ c.
            lookup (file_key project_id c.relative_path) store.files
            ≡ lookup c.relative_path (list_project_files project_id store.files))
          candidates
  rows_agree store [] = tt
  rows_agree store (c ∷ cs) =
      (sym (lookup-list_project_files project_id c.relative_path store.files), rows_agree store cs)

  -- A full run keeps the store current, whatever saving of a file fails, unless the writing of
  -- chunks fails after its file was saved: for ids that do not repeat, candidates with different
  -- paths, and contents that their hashes tell apart.
  pub run_index-Current :
      (faults : String → FileFault) (scan : ScanResult) (store : IndexStore)
      → NoRepeats uuid
      → DistinctPaths scan.candidates
      → All (λ c. content_of c.content_hash ≡ c.content) scan.candidates
      → All (λ c. faults c.relative_path ≢ replace_fails) scan.candidates
      → Current uuid chunker content_of store
      → Current uuid chunker content_of
          (run_index uuid chunker locale project_id faults scan store).0
  unfolding run_index soft_delete_paths
  run_index-Current faults scan store distinct apart contents fine old =
      delete_paths-Current uuid chunker content_of project_id _ _ (
        persist_all-Current uuid chunker content_of locale project_id _ faults scan.candidates store
          (empty_result scan) distinct apart contents fine (rows_agree store scan.candidates) old)

  -- The file of a candidate is active, with its hash and the chunks of its content.
  pub record Mirrored (store : IndexStore) (c : IndexedFileCandidate) : Type 0 where
    pub row : FileRow
    pub found : lookup (file_key project_id c.relative_path) store.files ≡ some row
    pub same_hash : row.content_hash ≡ c.content_hash
    pub active : row.is_deleted ≡ false
    pub chunks : lookup row.id store.file_chunks ≡ some (chunker c.content)

  Mirrored-after :
      (before : IndexStore) (raw : List String) (c : IndexedFileCandidate)
      → let after = (delete_paths project_id (unique_sorted_paths locale raw) before).0 in
        Current uuid chunker content_of after
        → content_of c.content_hash ≡ c.content
        → All IsNormal raw
        → All (λ q. c.relative_path ≢ q) raw
        → Indexed project_id before c
        → Mirrored after c
  Mirrored-after before raw c now content normal apart i =
      let key = file_key project_id c.relative_path in
      let found =
        delete_paths-elsewhere project_id key (unique_sorted_paths locale raw) before (
          unique_sorted_paths-All (λ q. key ≢ file_key project_id q) locale raw
            (normal_apart project_id c.relative_path raw normal apart))
        ∙ i.found in
      record {
        row = i.row;
        found = found;
        same_hash = i.same_hash;
        active = i.active;
        chunks = now.current key i.row found i.active ∙ cc (i.same_hash, content);
      }

  All-Mirrored :
      (before : IndexStore) (raw : List String) (cs : List IndexedFileCandidate)
      → let after = (delete_paths project_id (unique_sorted_paths locale raw) before).0 in
        Current uuid chunker content_of after
        → All (λ c. content_of c.content_hash ≡ c.content) cs
        → All IsNormal raw
        → All (λ c. All (λ q. c.relative_path ≢ q) raw) cs
        → All (Indexed project_id before) cs
        → All (Mirrored after) cs
  All-Mirrored before raw [] now contents normal apart is = tt
  All-Mirrored before raw (c ∷ cs) now (content, contents) normal (ne, apart) (i, is) = (
    Mirrored-after before raw c now content normal ne i,
    All-Mirrored before raw cs now contents normal apart is,
  )

  Gone-after :
      (cs : List IndexedFileCandidate) (store before : IndexStore) (path : String)
      (o : Option FileRow)
      → let existing = list_project_files project_id store.files in
        let raw = unscanned cs existing in
        let after = (delete_paths project_id (unique_sorted_paths locale raw) before).0 in
        let key = file_key project_id path in
        lookup key store.files ≡ o
        → lookup key before.files ≡ o
        → NormalRows existing
        → includes (map (λ c. c.relative_path) cs) path ≡ false
        → Gone after.files key
  Gone-after cs store before path none found same normal out =
      delete_paths-keeps project_id _ _ before (λ row h. cc)
  Gone-after cs store before path (some row) found same normal out =
      let existing = list_project_files project_id store.files in
      let raw = unscanned cs existing in
      let paths = unique_sorted_paths locale raw in
      let after = (delete_paths project_id paths before).0 in
      elim (Bool-cases row.is_deleted) [
        | inl d ↦
            delete_paths-keeps project_id (file_key project_id path) paths before
              (λ r h. ground (arith, h, same))
        | inr d ↦
            unscanned-has (λ q. Gone after.files (file_key project_id q)) cs existing path row
              (lookup-list_project_files project_id path store.files ∙ found) d out
              (All-unique_sorted_paths (λ q. Gone after.files (file_key project_id q)) locale raw
                (delete_paths-Gone project_id paths before)
                (All-mono _ IsNormal (λ q p. p.0) raw (unscanned-All cs existing normal)))
      ]

  -- After a run in which no statement fails the index is the scanned workspace: every scanned file
  -- is active, with its hash and the chunks of its content, and no other file of the project is
  -- active. This for a store that was current, stored paths that are normal, ids that do not repeat,
  -- candidates with different paths, and contents that their hashes tell apart.
  pub run_index-mirrors :
      (scan : ScanResult) (store : IndexStore)
      → NoRepeats uuid
      → Current uuid chunker content_of store
      → NormalRows (list_project_files project_id store.files)
      → DistinctPaths scan.candidates
      → All (λ c. content_of c.content_hash ≡ c.content) scan.candidates
      → let after = (run_index uuid chunker locale project_id (λ path. healthy) scan store).0 in
        All (Mirrored after) scan.candidates
        × ((path : String)
            → All (λ c. c.relative_path ≢ path) scan.candidates
            → Gone after.files (file_key project_id path))
  unfolding run_index soft_delete_paths
  run_index-mirrors scan store distinct old normal apart contents =
      let existing = list_project_files project_id store.files in
      let raw = unscanned scan.candidates existing in
      let (before, result) =
        persist_all uuid chunker locale project_id existing (λ path. healthy) scan.candidates
          (store, empty_result scan) in
      let parts = unscanned-All scan.candidates existing normal in
      let now =
        run_index-Current (λ path. healthy) scan store distinct apart contents
          (All-always (λ c. healthy ≢ replace_fails) (λ c e. ground arith) scan.candidates) old in
      (
        All-Mirrored before raw scan.candidates now contents
            (All-mono _ IsNormal (λ q p. p.0) raw parts)
            (deleted_apart scan.candidates raw (
              All-mono _ (λ q. includes (map (λ c. c.relative_path) scan.candidates) q ≡ false)
                (λ q p. p.1) raw parts))
            (persist_all-Indexed uuid chunker content_of locale project_id existing
              (λ path. healthy) scan.candidates store (empty_result scan) apart
              (All-always (λ c. healthy ≢ upsert_fails) (λ c e. ground arith) scan.candidates)),
        λ path out.
            let key = file_key project_id path in
            Gone-after scan.candidates store before path (lookup key store.files) refl
              (persist_all-elsewhere uuid chunker content_of locale project_id existing
                (λ path. healthy) scan.candidates store (empty_result scan) key
                (apart_keys project_id path scan.candidates out))
              normal (not_scanned scan.candidates path out),
      )
