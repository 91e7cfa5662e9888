-- ===== src/Indexing/Indexer/Stale.antt =====
-- What a failed writing of chunks leaves behind.
use shared_dev_context_layer.Base.{
  ℕ, String, Bool, true, false, Option, some, List, [], ◌≡◌, ◌∙◌, ap, refl, arith, string_Eq,
}
use shared_dev_context_layer.Base.Strings.{Locale}
use shared_dev_context_layer.Base.Text.{Text}
use shared_dev_context_layer.Base.Table.{lookup}
use shared_dev_context_layer.Indexing.Chunker.{ChunkRecord}
use shared_dev_context_layer.Persistence.IndexStore.{
  FileRow, IndexStore, file_key_Eq, file_key, upserted_row, id_or, upsert_indexed_file,
  UpsertIndexedFileInput,
}
use shared_dev_context_layer.Indexing.Indexer.{
  IndexedFileCandidate, healthy, replace_fails, change_of, IndexResult, upsert_input,
  write_candidate, persist_candidate,
}
use shared_dev_context_layer.Indexing.Indexer.Writes.{write_candidate-saved}

change_of_saved :
    (id : String) (input : UpsertIndexedFileInput)
    → (change_of (some (upserted_row id input)) input.content_hash).1 ≡ false
unfolding change_of
change_of_saved id input =
    ground (arith, string_Eq.equals_iff input.content_hash input.content_hash)

module _ (uuid : ℕ → String) (chunker : Text → List ChunkRecord) (locale : Locale) where
  failed_chunks :
      (project_id : String) (c : IndexedFileCandidate) (rewrite : Bool) (store : IndexStore)
      → (write_candidate uuid chunker locale project_id c rewrite replace_fails store).0
        ≡ (upsert_indexed_file uuid (upsert_input uuid chunker locale project_id c) store).0
  unfolding write_candidate
  failed_chunks project_id c true store = refl
  failed_chunks project_id c false store = refl

  next_chunks :
      (project_id : String) (c : IndexedFileCandidate) (rewrite : Bool) (store : IndexStore)
      → rewrite ≡ false
      → (write_candidate uuid chunker locale project_id c rewrite healthy store).0.file_chunks
        ≡ store.file_chunks
  unfolding write_candidate upsert_indexed_file
  next_chunks project_id c rewrite store h = rw (h, write_candidate) refl

  -- Where the writing of a file's chunks failed after the file was saved, the next run over the same
  -- content writes none, though nothing fails: the chunks stay those of before the failure.
  pub persist_candidate-stale :
      (project_id : String) (existing : Option FileRow) (c : IndexedFileCandidate)
      (store : IndexStore) (first second : IndexResult)
      → let key = file_key project_id c.relative_path in
        let after =
          (persist_candidate uuid chunker locale project_id existing c replace_fails
            (store, first)).0 in
        (persist_candidate uuid chunker locale project_id
          (lookup key after.files)
          c
          healthy
          (after, second)).0.file_chunks
        ≡ store.file_chunks
  unfolding persist_candidate upsert_indexed_file
  persist_candidate-stale project_id existing c store first second =
      let rewrite = (change_of existing c.content_hash).1 in
      let input = upsert_input uuid chunker locale project_id c in
      let id = id_or (uuid store.ids) (lookup input.key store.files) in
      let after =
        (write_candidate uuid chunker locale project_id c rewrite replace_fails store).0 in
      let saved =
        write_candidate-saved uuid chunker (λ hash. []) locale project_id c rewrite replace_fails
          store (λ e. ground arith) in
      next_chunks project_id c (change_of (lookup input.key after.files) c.content_hash).1 after
        (rw saved (change_of_saved id input))
      ∙ ap (λ s. s.file_chunks) (failed_chunks project_id c rewrite store)
