-- ===== src/Indexing/Indexer/Deletion.antt =====
-- What the deletion of the paths that were not scanned leaves in the store.
use shared_dev_context_layer.Base.{
  ℕ, String, false, not, some, List, [], ◌∷◌, ◌≡◌, ◌≢◌, refl, ◌∙◌, ap, string_Eq, All, arith,
  Bool-cases, inl, inr, map, filter_by,
}
use shared_dev_context_layer.Base.Text.{Text}
use shared_dev_context_layer.Base.Strings.{Locale, is_empty}
use shared_dev_context_layer.Base.Sorting.{sort-All, unique-All, All-sort, All-unique}
use shared_dev_context_layer.Base.Table.{lookup, lookup-remove}
use shared_dev_context_layer.Paths.{normalize_project_path, path_le}
use shared_dev_context_layer.Indexing.Chunker.{ChunkRecord}
use shared_dev_context_layer.Persistence.IndexStore.{
  FileKey, FileRow, IndexStore, file_key_Eq, file_key, mark_paths, mark_files_deleted, remove_all,
  delete_chunks_by_file_ids,
}
use shared_dev_context_layer.Indexing.Indexer.{delete_paths, unique_sorted_paths}
use shared_dev_context_layer.Indexing.Indexer.Current.{Current}
use shared_dev_context_layer.Indexing.Indexer.Marking.{
  Gone, DeletedId, mark_paths-ids, mark_paths-Current, mark_paths-elsewhere, mark_paths-Gone,
  mark_paths-keeps,
}

remove_all-kept :
    (id : String) (ids : List String) (rows : List (String × List ChunkRecord))
    → All (λ x. x ≢ id) ids
    → lookup id (remove_all ids rows) ≡ lookup id rows
remove_all-kept id [] rows apart = refl
remove_all-kept id (x ∷ xs) rows (ne, apart) = ground (
  arith,
  lookup-remove x id (remove_all xs rows),
  string_Eq.equals_iff x id,
  remove_all-kept id xs rows apart,
)

module _ (uuid : ℕ → String) (chunker : Text → List ChunkRecord) (content_of : String → Text) where
  -- The id of an active row is the id of no deleted one.
  active_apart :
      (store : IndexStore) (key : FileKey) (row : FileRow) (ids : List String)
      → Current uuid chunker content_of store
      → lookup key store.files ≡ some row
      → row.is_deleted ≡ false
      → All (DeletedId store.files) ids
      → All (λ id. id ≢ row.id) ids
  active_apart store key row [] old found active h = tt
  active_apart store key row (id ∷ ids) old found active ((k, r, e, same, gone), h) = (
    λ x.
        let keys = old.unique_ids k key r row e found (same ∙ x) in
        ground (arith, ap (λ y. lookup y store.files) keys),
    active_apart store key row ids old found active h,
  )

  delete_chunks-Current :
      (store : IndexStore) (ids : List String)
      → All (DeletedId store.files) ids
      → Current uuid chunker content_of store
      → Current uuid chunker content_of (delete_chunks_by_file_ids ids store)
  unfolding delete_chunks_by_file_ids
  delete_chunks-Current store ids h old = record {
    unique_ids = old.unique_ids;
    given_ids = old.given_ids;
    current = λ k r found active.
        remove_all-kept r.id ids store.file_chunks (active_apart store k r ids old found active h)
        ∙ old.current k r found active;
  }

  pub delete_paths-Current :
      (project_id : String) (paths : List String) (store : IndexStore)
      → Current uuid chunker content_of store
      → Current uuid chunker content_of (delete_paths project_id paths store).0
  unfolding delete_paths mark_files_deleted
  delete_paths-Current project_id [] store old = old
  delete_paths-Current project_id (p ∷ ps) store old =
      let (files, ids) = mark_paths project_id (p ∷ ps) store.files in
      delete_chunks-Current (record store { files = files }) ids
        (mark_paths-ids project_id (p ∷ ps) store.files)
        (mark_paths-Current uuid chunker content_of project_id (p ∷ ps) store old)

delete_paths-files :
    (project_id : String) (paths : List String) (store : IndexStore)
    → (delete_paths project_id paths store).0.files ≡ (mark_paths project_id paths store.files).0
unfolding delete_paths mark_files_deleted delete_chunks_by_file_ids mark_paths
delete_paths-files project_id [] store = refl
delete_paths-files project_id (p ∷ ps) store = refl

pub delete_paths-elsewhere :
    (project_id : String) (key : FileKey) (paths : List String) (store : IndexStore)
    → All (λ p. key ≢ file_key project_id p) paths
    → lookup key (delete_paths project_id paths store).0.files ≡ lookup key store.files
delete_paths-elsewhere project_id key paths store apart =
    rw (delete_paths-files project_id paths store)
      (mark_paths-elsewhere project_id key paths store.files apart)

pub delete_paths-keeps :
    (project_id : String) (key : FileKey) (paths : List String) (store : IndexStore)
    → Gone store.files key
    → Gone (delete_paths project_id paths store).0.files key
delete_paths-keeps project_id key paths store gone =
    rw (delete_paths-files project_id paths store)
      (mark_paths-keeps project_id key paths store.files gone)

pub delete_paths-Gone :
    (project_id : String) (paths : List String) (store : IndexStore)
    → All (λ p. Gone (delete_paths project_id paths store).0.files (file_key project_id p)) paths
delete_paths-Gone project_id paths store =
    rw (delete_paths-files project_id paths store) (mark_paths-Gone project_id paths store.files)

-- What the normal form of a path leaves as it is.
abbrev pub IsNormal : String → Type 0
IsNormal path = (normalize_project_path path ≡ path) × (is_empty path ≡ false)

module _ {κ} (P : String → Type κ) where
  normalized-All :
      (raw : List String)
      → All (λ p. P (normalize_project_path p)) raw
      → All P (filter_by (λ p. not (is_empty p)) (map normalize_project_path raw))
  normalized-All [] h = tt
  normalized-All (p ∷ ps) (q, h) = elim (Bool-cases (is_empty (normalize_project_path p))) [
    | inl e ↦ rw e (normalized-All ps h)
    | inr e ↦ rw e (q, normalized-All ps h)
  ]

  -- What holds of the normal forms holds of all paths of the list.
  pub unique_sorted_paths-All :
      (locale : Locale) (raw : List String)
      → All (λ p. P (normalize_project_path p)) raw
      → All P (unique_sorted_paths locale raw)
  unfolding unique_sorted_paths
  unique_sorted_paths-All locale raw h =
      sort-All (path_le locale) P _ (unique-All P _ (normalized-All raw h))

  All-normalized :
      (raw : List String)
      → All P (filter_by (λ p. not (is_empty p)) (map normalize_project_path raw))
      → All IsNormal raw
      → All P raw
  All-normalized [] h normal = tt
  All-normalized (p ∷ ps) h ((same, nonempty), normal) =
      let (q, rest) = rw (same, nonempty) at h in (q, All-normalized ps rest normal)

  -- The list has every path that is normal.
  pub All-unique_sorted_paths :
      (locale : Locale) (raw : List String)
      → All P (unique_sorted_paths locale raw)
      → All IsNormal raw
      → All P raw
  unfolding unique_sorted_paths
  All-unique_sorted_paths locale raw h normal =
      All-normalized raw (All-unique P _ (All-sort (path_le locale) P _ h)) normal
