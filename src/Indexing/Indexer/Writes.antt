-- ===== src/Indexing/Indexer/Writes.antt =====
-- What the statements for one candidate leave in the store.
use shared_dev_context_layer.Base.{
  ℕ, suc, ◌<◌, String, Bool, true, false, Option, none, some, List, ◌≡◌, ◌≢◌, arith, refl, inl, inr,
  sym, string_Eq, ◌==◌, Bool-cases,
}
use native.Mathlib.Nat.{lt_irrefl}
use shared_dev_context_layer.Base.Strings.{Locale}
use shared_dev_context_layer.Base.Text.{Text}
use shared_dev_context_layer.Base.Table.{lookup, lookup-insert_self, lookup-insert_other}
use shared_dev_context_layer.Indexing.Chunker.{ChunkRecord}
use shared_dev_context_layer.Persistence.IndexStore.{
  FileKey, FileRow, IndexStore, file_key_Eq, file_key, UpsertIndexedFileInput, upserted_row, id_or,
  upsert_indexed_file, replace_file_chunks,
}
use shared_dev_context_layer.Indexing.Indexer.{
  IndexedFileCandidate, FileFault, healthy, upsert_fails, replace_fails, change_of, upsert_input,
  write_candidate,
}
use shared_dev_context_layer.Indexing.Indexer.Current.{Current, OwnId, Current-put}

-- `randomUUID` gives no id twice.
abbrev pub NoRepeats : (ℕ → String) → Type 0
NoRepeats uuid = (m n : ℕ) → uuid m ≡ uuid n → m ≡ n

module _ (uuid : ℕ → String) (chunker : Text → List ChunkRecord) (content_of : String → Text) where
  upserted-OwnId :
      (store : IndexStore) (input : UpsertIndexedFileInput) (o : Option FileRow)
      → Current uuid chunker content_of store
      → lookup input.key store.files ≡ o
      → OwnId uuid chunker content_of store input.key
          (upserted_row (id_or (uuid store.ids) o) input)
  upserted-OwnId store input none old found k r h e =
      absurd (lt_irrefl store.ids (old.given_ids k r store.ids h e))
  upserted-OwnId store input (some q) old found k r h e =
      old.unique_ids input.key k q r found h (sym e)

  upserted_given :
      (store : IndexStore) (input : UpsertIndexedFileInput) (o : Option FileRow) (n : ℕ)
      → NoRepeats uuid
      → Current uuid chunker content_of store
      → lookup input.key store.files ≡ o
      → id_or (uuid store.ids) o ≡ uuid n
      → n < suc store.ids
  upserted_given store input none n distinct old found e =
      let same = distinct store.ids n e in omega arith
  upserted_given store input (some q) n distinct old found e =
      let below = old.given_ids input.key q n found e in omega arith

  -- No chunks are written only where the row has those of the candidate.
  kept_chunks :
      (store : IndexStore) (key : FileKey) (hash : String) (o : Option FileRow)
      → Current uuid chunker content_of store
      → lookup key store.files ≡ o
      → (change_of o hash).1 ≡ false
      → lookup (id_or (uuid store.ids) o) store.file_chunks ≡ some (chunker (content_of hash))
  unfolding change_of
  kept_chunks store key hash none old found e = cc
  kept_chunks store key hash (some q) old found e = elim (Bool-cases q.is_deleted) [
    | inl d ↦ ground arith
    | inr d ↦ elim (Bool-cases (q.content_hash == hash)) [
      | inl s ↦ cc (old.current key q found d, (string_Eq.equals_iff q.content_hash hash).0 s)
      | inr s ↦ ground arith
    ]
  ]

  write_from :
      (locale : Locale) (project_id : String) (candidate : IndexedFileCandidate) (rewrite : Bool)
      (store : IndexStore) (o : Option FileRow)
      → let input = upsert_input uuid chunker locale project_id candidate in
        NoRepeats uuid
        → Current uuid chunker content_of store
        → lookup input.key store.files ≡ o
        → content_of candidate.content_hash ≡ candidate.content
        → (rewrite ≡ false
            → lookup (id_or (uuid store.ids) o) store.file_chunks
              ≡ some (chunker (content_of candidate.content_hash)))
        → Current uuid chunker content_of
            (write_candidate uuid chunker locale project_id candidate rewrite healthy store).0
  unfolding write_candidate upsert_indexed_file replace_file_chunks
  write_from locale project_id candidate true store o distinct old found content kept =
      let input = upsert_input uuid chunker locale project_id candidate in
      let row = upserted_row (id_or (uuid store.ids) o) input in
      Current-put uuid chunker content_of store
        (write_candidate uuid chunker locale project_id candidate true healthy store).0 input.key
        row old (upserted-OwnId store input o old found) (rw found refl) (omega arith)
        (λ n e. upserted_given store input o n distinct old found e)
        (λ active.
          rw (found, content)
            (lookup-insert_self row.id (chunker candidate.content) store.file_chunks))
        (λ id other.
          rw found
            (lookup-insert_other row.id id (chunker candidate.content) store.file_chunks other))
  write_from locale project_id candidate false store o distinct old found content kept =
      let input = upsert_input uuid chunker locale project_id candidate in
      let row = upserted_row (id_or (uuid store.ids) o) input in
      Current-put uuid chunker content_of store
        (write_candidate uuid chunker locale project_id candidate false healthy store).0 input.key
        row old (upserted-OwnId store input o old found) (rw found refl) (omega arith)
        (λ n e. upserted_given store input o n distinct old found e) (λ active. kept refl)
        (λ id other. refl)

  -- The statements for a candidate keep the store current, unless the writing of chunks fails.
  pub write_candidate-Current :
      (locale : Locale) (project_id : String) (candidate : IndexedFileCandidate) (fault : FileFault)
      (store : IndexStore) (existing : Option FileRow)
      → NoRepeats uuid
      → Current uuid chunker content_of store
      → lookup (file_key project_id candidate.relative_path) store.files ≡ existing
      → content_of candidate.content_hash ≡ candidate.content
      → fault ≢ replace_fails
      → Current uuid chunker content_of
          (write_candidate uuid chunker locale project_id candidate
            (change_of existing candidate.content_hash).1
            fault
            store).0
  unfolding write_candidate
  write_candidate-Current locale project_id candidate upsert_fails store o distinct old found
        content fine =
      old
  write_candidate-Current locale project_id candidate replace_fails store o distinct old found
        content fine =
      absurd (fine refl)
  write_candidate-Current locale project_id candidate healthy store o distinct old found content
        fine =
      write_from locale project_id candidate (change_of o candidate.content_hash).1 store o distinct
        old found content
        (kept_chunks store (file_key project_id candidate.relative_path) candidate.content_hash o
          old found)

  pub write_candidate-elsewhere :
      (locale : Locale) (project_id : String) (candidate : IndexedFileCandidate) (rewrite : Bool)
      (fault : FileFault) (store : IndexStore) (key : FileKey)
      → key ≢ file_key project_id candidate.relative_path
      → lookup key
          (write_candidate uuid chunker locale project_id candidate rewrite fault store).0.files
        ≡ lookup key store.files
  unfolding write_candidate upsert_indexed_file replace_file_chunks
  write_candidate-elsewhere locale project_id candidate rewrite upsert_fails store key other = refl
  write_candidate-elsewhere locale project_id candidate true replace_fails store key other =
      lookup-insert_other _ key _ store.files other
  write_candidate-elsewhere locale project_id candidate false replace_fails store key other =
      lookup-insert_other _ key _ store.files other
  write_candidate-elsewhere locale project_id candidate true healthy store key other =
      lookup-insert_other _ key _ store.files other
  write_candidate-elsewhere locale project_id candidate false healthy store key other =
      lookup-insert_other _ key _ store.files other

  -- The row of a candidate after its file was saved.
  pub write_candidate-saved :
      (locale : Locale) (project_id : String) (candidate : IndexedFileCandidate) (rewrite : Bool)
      (fault : FileFault) (store : IndexStore)
      → let key = file_key project_id candidate.relative_path in
        fault ≢ upsert_fails
        → lookup key
            (write_candidate uuid chunker locale project_id candidate rewrite fault store).0.files
          ≡ some (
              upserted_row
                (id_or (uuid store.ids) (lookup key store.files))
                (upsert_input uuid chunker locale project_id candidate))
  unfolding write_candidate upsert_indexed_file replace_file_chunks
  write_candidate-saved locale project_id candidate rewrite upsert_fails store fine =
      absurd (fine refl)
  write_candidate-saved locale project_id candidate true replace_fails store fine =
      lookup-insert_self _ _ store.files
  write_candidate-saved locale project_id candidate false replace_fails store fine =
      lookup-insert_self _ _ store.files
  write_candidate-saved locale project_id candidate true healthy store fine =
      lookup-insert_self _ _ store.files
  write_candidate-saved locale project_id candidate false healthy store fine =
      lookup-insert_self _ _ store.files
