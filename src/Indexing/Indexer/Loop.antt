-- ===== src/Indexing/Indexer/Loop.antt =====
-- What the loop over the candidates leaves in the store.
use shared_dev_context_layer.Base.{
  ℕ, String, false, some, List, [], ◌∷◌, ◌≡◌, ◌≢◌, refl, sym, ◌∙◌, ap, string_Eq, All,
}
use shared_dev_context_layer.Base.Strings.{Locale}
use shared_dev_context_layer.Base.Text.{Text}
use shared_dev_context_layer.Base.Table.{lookup}
use shared_dev_context_layer.Indexing.Chunker.{ChunkRecord}
use shared_dev_context_layer.Persistence.IndexStore.{
  FileKey, FileRow, IndexStore, file_key_Eq, file_key,
}
use shared_dev_context_layer.Indexing.Indexer.{
  IndexedFileCandidate, FileFault, upsert_fails, replace_fails, change_of, IndexResult,
  persist_candidate, persist_all,
}
use shared_dev_context_layer.Indexing.Indexer.Current.{Current}
use shared_dev_context_layer.Indexing.Indexer.Writes.{
  NoRepeats, write_candidate-Current, write_candidate-elsewhere, write_candidate-saved,
}

-- No two candidates have the same path.
abbrev pub DistinctPaths : List IndexedFileCandidate → Type 0
DistinctPaths [] = Unit
DistinctPaths (c ∷ cs) = All (λ d. d.relative_path ≢ c.relative_path) cs × DistinctPaths cs

file_key-apart :
    (project_id : String) (p q : String)
    → p ≢ q
    → ◌≢◌ {A = FileKey} (file_key project_id p) (file_key project_id q)
file_key-apart project_id p q h e = h (ap (λ key. key.path) e)

pub apart_keys :
    (project_id path : String) (cs : List IndexedFileCandidate)
    → All (λ d. d.relative_path ≢ path) cs
    → All (λ d. file_key project_id path ≢ file_key project_id d.relative_path) cs
apart_keys project_id path [] apart = tt
apart_keys project_id path (d ∷ ds) (ne, apart) =
    (λ e. ne (sym (ap (λ key. key.path) e)), apart_keys project_id path ds apart)

-- The file of a candidate is active, with the candidate's hash.
pub record Indexed (project_id : String) (store : IndexStore) (c : IndexedFileCandidate)
    : Type 0 where
  pub row : FileRow
  pub found : lookup (file_key project_id c.relative_path) store.files ≡ some row
  pub same_hash : row.content_hash ≡ c.content_hash
  pub active : row.is_deleted ≡ false

module _ (uuid : ℕ → String) (chunker : Text → List ChunkRecord) (content_of : String → Text)
    (locale : Locale) (project_id : String) (existing : List (String × FileRow))
    (faults : String → FileFault) where
  -- The rows that the run has read are still those of the table.
  abbrev Agrees : IndexStore → List IndexedFileCandidate → Type 0
  Agrees store candidates =
      All
        (λ c.
          lookup (file_key project_id c.relative_path) store.files
          ≡ lookup c.relative_path existing)
        candidates

  abbrev pub after_one : IndexedFileCandidate → IndexStore × IndexResult → IndexStore × IndexResult
  after_one c s =
      persist_candidate uuid chunker locale project_id (lookup c.relative_path existing) c
        (faults c.relative_path) s

  elsewhere_one :
      (c : IndexedFileCandidate) (store : IndexStore) (result : IndexResult) (key : FileKey)
      → key ≢ file_key project_id c.relative_path
      → lookup key (after_one c (store, result)).0.files ≡ lookup key store.files
  unfolding persist_candidate
  elsewhere_one c store result key other =
      write_candidate-elsewhere uuid chunker content_of locale project_id c
        (change_of (lookup c.relative_path existing) c.content_hash).1 (faults c.relative_path)
        store key other

  Agrees-after_one :
      (c : IndexedFileCandidate) (cs : List IndexedFileCandidate) (store : IndexStore)
      (result : IndexResult)
      → All (λ d. d.relative_path ≢ c.relative_path) cs
      → Agrees store cs
      → Agrees (after_one c (store, result)).0 cs
  Agrees-after_one c [] store result apart agrees = tt
  Agrees-after_one c (d ∷ ds) store result (ne, apart) (e, agrees) = (
    elsewhere_one c store result (file_key project_id d.relative_path)
          (file_key-apart project_id d.relative_path c.relative_path ne)
        ∙ e,
    Agrees-after_one c ds store result apart agrees,
  )

  pub persist_all-elsewhere :
      (cs : List IndexedFileCandidate) (store : IndexStore) (result : IndexResult) (key : FileKey)
      → All (λ c. key ≢ file_key project_id c.relative_path) cs
      → lookup key
          (persist_all uuid chunker locale project_id existing faults cs (store, result)).0.files
        ≡ lookup key store.files
  unfolding persist_all
  persist_all-elsewhere [] store result key apart = refl
  persist_all-elsewhere (c ∷ cs) store result key (ne, apart) =
      let (store', result') = after_one c (store, result) in
      persist_all-elsewhere cs store' result' key apart ∙ elsewhere_one c store result key ne

  pub persist_all-Current :
      (cs : List IndexedFileCandidate) (store : IndexStore) (result : IndexResult)
      → NoRepeats uuid
      → DistinctPaths cs
      → All (λ c. content_of c.content_hash ≡ c.content) cs
      → All (λ c. faults c.relative_path ≢ replace_fails) cs
      → Agrees store cs
      → Current uuid chunker content_of store
      → Current uuid chunker content_of
          (persist_all uuid chunker locale project_id existing faults cs (store, result)).0
  unfolding persist_all persist_candidate
  persist_all-Current [] store result distinct apart contents fine agrees old = old
  persist_all-Current (c ∷ cs) store result distinct (apart, rest) (content, contents) (good, fine)
        (e, agrees) old =
      let (store', result') = after_one c (store, result) in
      persist_all-Current cs store' result' distinct rest contents fine
        (Agrees-after_one c cs store result apart agrees)
        (write_candidate-Current uuid chunker content_of locale project_id c
          (faults c.relative_path) store (lookup c.relative_path existing) distinct old e content
          good)

  pub persist_all-Indexed :
      (cs : List IndexedFileCandidate) (store : IndexStore) (result : IndexResult)
      → DistinctPaths cs
      → All (λ c. faults c.relative_path ≢ upsert_fails) cs
      → All
          (Indexed project_id
            (persist_all uuid chunker locale project_id existing faults cs (store, result)).0)
          cs
  unfolding persist_all persist_candidate
  persist_all-Indexed [] store result apart fine = tt
  persist_all-Indexed (c ∷ cs) store result (apart, rest) (good, fine) =
      let (store', result') = after_one c (store, result) in
      (
        record {
          row = _;
          found =
              persist_all-elsewhere cs store' result' (file_key project_id c.relative_path)
                (apart_keys project_id c.relative_path cs apart)
              ∙ write_candidate-saved uuid chunker content_of locale project_id c
                  (change_of (lookup c.relative_path existing) c.content_hash).1
                  (faults c.relative_path) store good;
          same_hash = refl;
          active = refl;
        },
        persist_all-Indexed cs store' result' rest fine,
      )
