-- ===== src/Indexing/Indexer/Current.antt =====
-- A store whose active files have the chunks of their contents, and what keeps it so.
use shared_dev_context_layer.Base.{
  ℕ, ◌<◌, ◌≤◌, String, false, some, List, ◌≡◌, ◌≢◌, arith, inl, inr, sym, ◌∙◌, ap, string_Eq,
}
use shared_dev_context_layer.Base.Text.{Text}
use shared_dev_context_layer.Base.Table.{lookup, insert, found-insert}
use shared_dev_context_layer.Indexing.Chunker.{ChunkRecord}
use shared_dev_context_layer.Persistence.IndexStore.{FileKey, FileRow, IndexStore, file_key_Eq}

-- `content_of` gives the content that a hash stands for.
module _ (uuid : ℕ → String) (chunker : Text → List ChunkRecord) (content_of : String → Text) where
  abbrev pub chunks_for : FileRow → List ChunkRecord
  chunks_for row = chunker (content_of row.content_hash)

  -- No two rows share an id, none has an id that is still to be given out, and an active file has
  -- the chunks of the content that its hash stands for.
  pub record Current (store : IndexStore) : Type 0 where
    pub unique_ids :
        (j k : FileKey) (q r : FileRow)
        → lookup j store.files ≡ some q
        → lookup k store.files ≡ some r
        → q.id ≡ r.id
        → j ≡ k
    pub given_ids :
        (k : FileKey) (r : FileRow) (n : ℕ)
        → lookup k store.files ≡ some r
        → r.id ≡ uuid n
        → n < store.ids
    pub current :
        (k : FileKey) (r : FileRow)
        → lookup k store.files ≡ some r
        → r.is_deleted ≡ false
        → lookup r.id store.file_chunks ≡ some (chunks_for r)

  -- The id of a row belongs to the key.
  abbrev pub OwnId : IndexStore → FileKey → FileRow → Type 0
  OwnId store key row =
      (k : FileKey) (r : FileRow) → lookup k store.files ≡ some r → r.id ≡ row.id → key ≡ k

  -- A row is put, and at most the chunks of its id change.
  pub Current-put :
      (store after : IndexStore) (key : FileKey) (row : FileRow)
      → Current store
      → OwnId store key row
      → after.files ≡ insert key row store.files
      → store.ids ≤ after.ids
      → ((n : ℕ) → row.id ≡ uuid n → n < after.ids)
      → (row.is_deleted ≡ false → lookup row.id after.file_chunks ≡ some (chunks_for row))
      → ((id : String) → id ≢ row.id → lookup id after.file_chunks ≡ lookup id store.file_chunks)
      → Current after
  Current-put store after key row old own same more given mine others = record {
    unique_ids = λ j k q r hj hk e. elim (found-insert key j row q store.files (rw same at hj)) [
      | inl (ej, eq) ↦ elim (found-insert key k row r store.files (rw same at hk)) [
        | inl (ek, er) ↦ sym ej ∙ ek
        | inr (ne, hk') ↦ sym ej ∙ own k r hk' (sym e ∙ sym (ap (λ x. x.id) eq))
      ]
      | inr (nj, hj') ↦ elim (found-insert key k row r store.files (rw same at hk)) [
        | inl (ek, er) ↦ sym (own j q hj' (e ∙ sym (ap (λ x. x.id) er))) ∙ ek
        | inr (ne, hk') ↦ old.unique_ids j k q r hj' hk' e
      ]
    ];
    given_ids = λ k r n h e. elim (found-insert key k row r store.files (rw same at h)) [
      | inl (ek, er) ↦ given n (ap (λ x. x.id) er ∙ e)
      | inr (ne, h') ↦ let below = old.given_ids k r n h' e in omega arith
    ];
    current = λ k r h active. elim (found-insert key k row r store.files (rw same at h)) [
      | inl (ek, er) ↦ cc (mine (ap (λ x. x.is_deleted) er ∙ active))
      | inr (ne, h') ↦ others r.id (λ e. ne (own k r h' e)) ∙ old.current k r h' active
    ];
  }
