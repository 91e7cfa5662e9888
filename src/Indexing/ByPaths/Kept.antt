-- ===== src/Indexing/ByPaths/Kept.antt =====
-- A scoped run keeps the store current.
use shared_dev_context_layer.Base.{
  ℕ, String, Option, some, map, filter_by, not, List, [], ◌∷◌, ◌≡◌, ◌≢◌, refl, sym, ◌∙◌, ap, All,
  subst, string_Eq, Bool-cases, inl, inr,
}
use shared_dev_context_layer.Base.Strings.{Locale, is_empty}
use shared_dev_context_layer.Base.Sorting.{
  sort-All, unique-All, Distinct, sort-Distinct, unique-Distinct,
}
use shared_dev_context_layer.Base.Text.{Text}
use shared_dev_context_layer.Base.Table.{lookup}
use shared_dev_context_layer.Paths.{path_le, normalize_project_path}
use shared_dev_context_layer.Indexing.Chunker.{ChunkRecord}
use shared_dev_context_layer.Persistence.IndexStore.{
  FileKey, FileRow, IndexStore, file_key_Eq, file_key, list_project_files,
}
use shared_dev_context_layer.Persistence.IndexStore.Laws.{lookup-list_project_files}
use shared_dev_context_layer.Indexing.Indexer.{
  IndexedFileCandidate, FileFault, FileChangeKind, unchanged, skipped, replace_fails, change_of,
  persist_candidate, unique_sorted_paths, soft_delete_paths,
}
use shared_dev_context_layer.Indexing.Indexer.Current.{Current}
use shared_dev_context_layer.Indexing.Indexer.Writes.{
  NoRepeats, write_candidate-Current, write_candidate-elsewhere,
}
use shared_dev_context_layer.Indexing.Indexer.Deletion.{delete_paths-Current}
use shared_dev_context_layer.Indexing.Loading.{
  Disk, LocalIndexConfig, CandidateLoadResult, missing, skipped_file, load_error, loaded,
  load_candidate_from_path,
}
use shared_dev_context_layer.Indexing.Loading.Eligible.{load_candidate_from_path-Eligible}
use shared_dev_context_layer.Indexing.ByPaths.{
  ScopedState, is_active, drop_path, count_skipped, index_path, index_paths, run_index_by_paths,
}

-- What the run relies on of a loaded file: it stands under its path, its content is the one that the
-- hash stands for, and the writing of its chunks does not fail.
pub record Loads (content_of : String → Text) (faults : String → FileFault) (path : String)
    (c : IndexedFileCandidate) : Type 0 where
  pub same_path : c.relative_path ≡ path
  pub content : content_of c.content_hash ≡ c.content
  pub written : faults c.relative_path ≢ replace_fails

module _ (uuid : ℕ → String) (chunker : Text → List ChunkRecord) (content_of : String → Text)
    (locale : Locale) (project_id : String) (faults : String → FileFault) where
  drop_path-store :
      (kind : FileChangeKind) (path : String) (existing : Option FileRow) (s : ScopedState)
      → (drop_path kind path existing s).store ≡ s.store
  drop_path-store kind path existing s = elim (Bool-cases (is_active existing)) [
    | inl e ↦ rw e refl
    | inr e ↦ rw e refl
  ]

  index_path-Current :
      (existing : Option FileRow) (path : String) (answer : CandidateLoadResult) (s : ScopedState)
      → NoRepeats uuid
      → lookup (file_key project_id path) s.store.files ≡ existing
      → ((c : IndexedFileCandidate) → answer ≡ loaded c → Loads content_of faults path c)
      → Current uuid chunker content_of s.store
      → Current uuid chunker content_of
          (index_path uuid chunker locale project_id existing faults path answer s).store
  unfolding index_path persist_candidate
  index_path-Current existing path load_error s distinct found loads old = old
  index_path-Current existing path missing s distinct found loads old =
      subst (Current uuid chunker content_of) (sym (drop_path-store unchanged path existing s)) old
  index_path-Current existing path skipped_file s distinct found loads old =
      subst (Current uuid chunker content_of)
        (sym (drop_path-store skipped path existing (count_skipped s))) old
  index_path-Current existing path (loaded c) s distinct found loads old =
      let l = loads c refl in
      write_candidate-Current uuid chunker content_of locale project_id c (faults c.relative_path)
        s.store existing distinct old (rw l.same_path found) l.content l.written

  index_path-elsewhere :
      (existing : Option FileRow) (path : String) (answer : CandidateLoadResult) (s : ScopedState)
      (key : FileKey)
      → key ≢ file_key project_id path
      → ((c : IndexedFileCandidate) → answer ≡ loaded c → Loads content_of faults path c)
      → lookup key
          (index_path uuid chunker locale project_id existing faults path answer s).store.files
        ≡ lookup key s.store.files
  unfolding index_path persist_candidate
  index_path-elsewhere existing path load_error s key ne loads = refl
  index_path-elsewhere existing path missing s key ne loads =
      ap (λ t. lookup key t.files) (drop_path-store unchanged path existing s)
  index_path-elsewhere existing path skipped_file s key ne loads =
      ap (λ t. lookup key t.files) (drop_path-store skipped path existing (count_skipped s))
  index_path-elsewhere existing path (loaded c) s key ne loads =
      let l = loads c refl in
      write_candidate-elsewhere uuid chunker content_of locale project_id c
        (change_of existing c.content_hash).1 (faults c.relative_path) s.store key
        (rw l.same_path ne)

  Agrees-index_path :
      (existing : List (String × FileRow)) (path : String) (paths : List String)
      (answer : CandidateLoadResult) (s : ScopedState)
      → ((c : IndexedFileCandidate) → answer ≡ loaded c → Loads content_of faults path c)
      → All (λ p. p ≢ path) paths
      → All (λ p. lookup (file_key project_id p) s.store.files ≡ lookup p existing) paths
      → let s' =
          index_path uuid chunker locale project_id (lookup path existing) faults path answer s in
        All (λ p. lookup (file_key project_id p) s'.store.files ≡ lookup p existing) paths
  Agrees-index_path existing path [] answer s loads apart agrees = tt
  Agrees-index_path existing path (p ∷ ps) answer s loads (ne, apart) (e, agrees) = (
    index_path-elsewhere (lookup path existing) path answer s (file_key project_id p)
          (λ same. ne (ap (λ key. key.path) same)) loads
        ∙ e,
    Agrees-index_path existing path ps answer s loads apart agrees,
  )

  index_paths-Current :
      (existing : List (String × FileRow)) (load : String → CandidateLoadResult)
      (paths : List String) (s : ScopedState)
      → NoRepeats uuid
      → All
          (λ path.
            (c : IndexedFileCandidate) → load path ≡ loaded c → Loads content_of faults path c)
          paths
      → Distinct paths
      → All (λ p. lookup (file_key project_id p) s.store.files ≡ lookup p existing) paths
      → Current uuid chunker content_of s.store
      → Current uuid chunker content_of
          (index_paths uuid chunker locale project_id existing faults load paths s).store
  unfolding index_paths
  index_paths-Current existing load [] s distinct loads apart agrees old = old
  index_paths-Current existing load (p ∷ ps) s distinct (first, loads) (ne, apart) (e, agrees) old =
      index_paths-Current existing load ps
        (index_path uuid chunker locale project_id (lookup p existing) faults p (load p) s) distinct
        loads apart (Agrees-index_path existing p ps (load p) s first ne agrees)
        (index_path-Current (lookup p existing) p (load p) s distinct e first old)

  rows_agree :
      (store : IndexStore) (paths : List String)
      → All
          (λ p.
            lookup (file_key project_id p) store.files
            ≡ lookup p (list_project_files project_id store.files))
          paths
  rows_agree store [] = tt
  rows_agree store (p ∷ ps) =
      (sym (lookup-list_project_files project_id p store.files), rows_agree store ps)

  All-map :
      (P : String → Type 0) (xs : List String)
      → All (λ x. P (normalize_project_path x)) xs
      → All P (map normalize_project_path xs)
  All-map P [] h = tt
  All-map P (x ∷ xs) (p, h) = (p, All-map P xs h)

  All-filter :
      (P : String → Type 0) (xs : List String)
      → All P xs
      → All P (filter_by (λ p. not (is_empty p)) xs)
  All-filter P [] h = tt
  All-filter P (x ∷ xs) (p, h) = elim (Bool-cases (is_empty x)) [
    | inl e ↦ rw e (All-filter P xs h)
    | inr e ↦ rw e (p, All-filter P xs h)
  ]

  -- What holds of the normalized paths holds of the paths that the run works on.
  All-unique_sorted_paths :
      (P : String → Type 0) (raw_paths : List String)
      → All (λ raw. P (normalize_project_path raw)) raw_paths
      → All P (unique_sorted_paths locale raw_paths)
  unfolding unique_sorted_paths
  All-unique_sorted_paths P raw_paths h =
      sort-All (path_le locale) P _ (
        unique-All P _
          (All-filter P (map normalize_project_path raw_paths) (All-map P raw_paths h)))

  module _ (disk : Disk) (config : LocalIndexConfig) where
    -- The normalized path is in normal form, the path functions of the platform lead from it to itself
    -- (it has no "." or ".." in it, say), and the writing of its chunks does not fail.
    pub record StandsForItself (raw : String) : Type 0 where
      pub stable : normalize_project_path (normalize_project_path raw) ≡ normalize_project_path raw
      pub in_place :
          (relative : String)
          → disk.relative_from_root (normalize_project_path raw) ≡ some relative
          → relative ≡ normalize_project_path raw
      pub written : faults (normalize_project_path raw) ≢ replace_fails

    loaded-Loads :
        (path : String) (c : IndexedFileCandidate)
        → normalize_project_path path ≡ path
        → ((relative : String) → disk.relative_from_root path ≡ some relative → relative ≡ path)
        → faults path ≢ replace_fails
        → ((bytes : List ℕ) → content_of (disk.sha256 bytes) ≡ disk.decode bytes)
        → load_candidate_from_path disk config locale path ≡ loaded c
        → Loads content_of faults path c
    loaded-Loads path c stable in_place written content h =
        let (_, _, _, e) = load_candidate_from_path-Eligible disk config locale path c h in
        let same : c.relative_path ≡ path =
          in_place c.relative_path
            (subst (λ p. disk.relative_from_root p ≡ some c.relative_path) stable e.rooted) in
        record {
          same_path = same;
          content = rw e.hash (content e.bytes) ∙ sym e.content;
          written = subst (λ p. faults p ≢ replace_fails) (sym same) written;
        }

    All-Loads :
        (raw_paths : List String)
        → ((bytes : List ℕ) → content_of (disk.sha256 bytes) ≡ disk.decode bytes)
        → All StandsForItself raw_paths
        → All
            (λ raw.
              (c : IndexedFileCandidate)
              → load_candidate_from_path disk config locale (normalize_project_path raw) ≡ loaded c
              → Loads content_of faults (normalize_project_path raw) c)
            raw_paths
    All-Loads [] content h = tt
    All-Loads (raw ∷ raws) content (s, h) = (
      λ c e. loaded-Loads (normalize_project_path raw) c s.stable s.in_place s.written content e,
      All-Loads raws content h,
    )

    -- A scoped run with the loader of the indexer keeps the store current, whatever file is missing,
    -- not eligible, or cannot be read or saved: for ids that do not repeat, hashes that tell contents
    -- apart, and given paths whose normalized form is in normal form, is led to itself by the path
    -- functions of the platform, and has its chunks written without failure.
    pub run_index_by_paths-Current :
        (raw_paths : List String) (store : IndexStore)
        → NoRepeats uuid
        → ((bytes : List ℕ) → content_of (disk.sha256 bytes) ≡ disk.decode bytes)
        → All StandsForItself raw_paths
        → Current uuid chunker content_of store
        → Current uuid chunker content_of
            (run_index_by_paths uuid chunker locale project_id faults
              (load_candidate_from_path disk config locale)
              raw_paths
              store).0
    unfolding run_index_by_paths soft_delete_paths unique_sorted_paths
    run_index_by_paths-Current raw_paths store distinct content stands old =
        let load = load_candidate_from_path disk config locale in
        delete_paths-Current uuid chunker content_of project_id _ _ (
          index_paths-Current (list_project_files project_id store.files) load
            (unique_sorted_paths locale raw_paths) _ distinct
            (All-unique_sorted_paths
              (λ path.
                (c : IndexedFileCandidate) → load path ≡ loaded c → Loads content_of faults path c)
              raw_paths (All-Loads raw_paths content stands))
            (sort-Distinct (path_le locale) _ (unique-Distinct _)) (rows_agree store _) old)
