-- ===== src/Indexing/Indexer/Marking.antt =====
-- What the marking of rows as deleted leaves in the table.
use shared_dev_context_layer.Base.{
  ℕ, String, true, Option, none, some, List, [], ◌∷◌, ◌≡◌, ◌≢◌, refl, sym, ◌∙◌, ap, string_Eq, All,
  arith, Bool-cases, inl, inr, All-append,
}
use shared_dev_context_layer.Base.Text.{Text}
use shared_dev_context_layer.Base.Table.{
  lookup, insert, found-insert, lookup-insert_other, lookup-insert_self,
}
use shared_dev_context_layer.Indexing.Chunker.{ChunkRecord}
use shared_dev_context_layer.Persistence.IndexStore.{
  FileKey, FileRow, IndexStore, file_key_Eq, file_key, mark_on, mark_paths,
}
use shared_dev_context_layer.Indexing.Indexer.Current.{Current, Current-put}

abbrev pub Files : Type 0
Files = List (FileKey × FileRow)

-- There is no active file under the key.
abbrev pub Gone : Files → FileKey → Type 0
Gone files key = (row : FileRow) → lookup key files ≡ some row → row.is_deleted ≡ true

mark_on-elsewhere :
    (key other : FileKey) (o : Option FileRow) (files : Files)
    → other ≢ key
    → lookup other (mark_on key o files).0 ≡ lookup other files
unfolding mark_on
mark_on-elsewhere key other none files ne = refl
mark_on-elsewhere key other (some row) files ne = elim (Bool-cases row.is_deleted) [
  | inl e ↦ rw e refl
  | inr e ↦ rw e (lookup-insert_other key other (record row { is_deleted = true }) files ne)
]

mark_on-Gone :
    (key : FileKey) (o : Option FileRow) (files : Files)
    → lookup key files ≡ o
    → Gone (mark_on key o files).0 key
unfolding mark_on
mark_on-Gone key none files found row h = cc
mark_on-Gone key (some old) files found row h =
    ground (arith, found-insert key key (record old { is_deleted = true }) row files)

mark_on-keeps :
    (key other : FileKey) (o : Option FileRow) (files : Files)
    → Gone files other
    → Gone (mark_on key o files).0 other
unfolding mark_on
mark_on-keeps key other none files gone row h = gone row h
mark_on-keeps key other (some old) files gone row h =
    ground (arith, gone row, found-insert key other (record old { is_deleted = true }) row files)

pub mark_paths-elsewhere :
    (project_id : String) (key : FileKey) (paths : List String) (files : Files)
    → All (λ p. key ≢ file_key project_id p) paths
    → lookup key (mark_paths project_id paths files).0 ≡ lookup key files
unfolding mark_paths
mark_paths-elsewhere project_id key [] files apart = refl
mark_paths-elsewhere project_id key (p ∷ ps) files (ne, apart) =
    let here = file_key project_id p in
    mark_paths-elsewhere project_id key ps (mark_on here (lookup here files) files).0 apart
    ∙ mark_on-elsewhere here key (lookup here files) files ne

pub mark_paths-keeps :
    (project_id : String) (key : FileKey) (paths : List String) (files : Files)
    → Gone files key
    → Gone (mark_paths project_id paths files).0 key
unfolding mark_paths
mark_paths-keeps project_id key [] files gone = gone
mark_paths-keeps project_id key (p ∷ ps) files gone =
    let here = file_key project_id p in
    mark_paths-keeps project_id key ps (mark_on here (lookup here files) files).0
      (mark_on-keeps here key (lookup here files) files gone)

pub mark_paths-Gone :
    (project_id : String) (paths : List String) (files : Files)
    → All (λ p. Gone (mark_paths project_id paths files).0 (file_key project_id p)) paths
unfolding mark_paths
mark_paths-Gone project_id [] files = tt
mark_paths-Gone project_id (p ∷ ps) files =
    let here = file_key project_id p in
    let next = (mark_on here (lookup here files) files).0 in
    (
      mark_paths-keeps project_id here ps next (mark_on-Gone here (lookup here files) files refl),
      mark_paths-Gone project_id ps next,
    )

-- The id is the one of a row that is marked as deleted.
abbrev pub DeletedId : Files → String → Type 0
DeletedId files id =
    (key : FileKey) × (row : FileRow) × (lookup key files ≡ some row)
    × (row.id ≡ id)
    × (row.is_deleted ≡ true)

DeletedId-mark_on :
    (key : FileKey) (o : Option FileRow) (files : Files) (id : String)
    → lookup key files ≡ o
    → DeletedId files id
    → DeletedId (mark_on key o files).0 id
unfolding mark_on
DeletedId-mark_on key none files id found d = d
DeletedId-mark_on key (some old) files id found (k, row, h, e, gone) =
    elim (Bool-cases old.is_deleted) [
      | inl d ↦ rw d (k, row, h, e, gone)
      | inr d ↦ rw d (
        k,
        row,
        lookup-insert_other key k (record old { is_deleted = true }) files
              (λ same. ground (arith, ap (λ x. lookup x files) same))
            ∙ h,
        e,
        gone,
      )
    ]

DeletedId-mark_paths :
    (project_id : String) (paths : List String) (files : Files) (id : String)
    → DeletedId files id
    → DeletedId (mark_paths project_id paths files).0 id
unfolding mark_paths
DeletedId-mark_paths project_id [] files id d = d
DeletedId-mark_paths project_id (p ∷ ps) files id d =
    let here = file_key project_id p in
    DeletedId-mark_paths project_id ps (mark_on here (lookup here files) files).0 id
      (DeletedId-mark_on here (lookup here files) files id refl d)

mark_on-ids :
    (key : FileKey) (o : Option FileRow) (files : Files)
    → All (DeletedId (mark_on key o files).0) (mark_on key o files).1
unfolding mark_on
mark_on-ids key none files = tt
mark_on-ids key (some row) files = elim (Bool-cases row.is_deleted) [
  | inl d ↦ rw d tt
  | inr d ↦
      let deleted = record row { is_deleted = true } in
      rw d ((key, deleted, lookup-insert_self key deleted files, refl, refl), tt)
]

All-later :
    (project_id : String) (paths : List String) (files : Files) (ids : List String)
    → All (DeletedId files) ids
    → All (DeletedId (mark_paths project_id paths files).0) ids
All-later project_id paths files [] h = tt
All-later project_id paths files (id ∷ ids) (d, h) =
    (DeletedId-mark_paths project_id paths files id d, All-later project_id paths files ids h)

-- The ids that the marking returns are those of rows that are deleted.
pub mark_paths-ids :
    (project_id : String) (paths : List String) (files : Files)
    → All (DeletedId (mark_paths project_id paths files).0) (mark_paths project_id paths files).1
unfolding mark_paths
mark_paths-ids project_id [] files = tt
mark_paths-ids project_id (p ∷ ps) files =
    let here = file_key project_id p in
    let (next, ids) = mark_on here (lookup here files) files in
    All-append (DeletedId (mark_paths project_id ps next).0) ids (mark_paths project_id ps next).1
      (All-later project_id ps next ids (mark_on-ids here (lookup here files) files))
      (mark_paths-ids project_id ps next)

module _ (uuid : ℕ → String) (chunker : Text → List ChunkRecord) (content_of : String → Text) where
  mark_on-Current :
      (store : IndexStore) (key : FileKey) (o : Option FileRow)
      → lookup key store.files ≡ o
      → Current uuid chunker content_of store
      → Current uuid chunker content_of (record store { files = (mark_on key o store.files).0 })
  unfolding mark_on
  mark_on-Current store key none found old = old
  mark_on-Current store key (some row) found old = elim (Bool-cases row.is_deleted) [
    | inl d ↦ rw d old
    | inr d ↦ rw d (
        Current-put uuid chunker content_of store
          (record store { files = insert key (record row { is_deleted = true }) store.files }) key
          (record row { is_deleted = true }) old
          (λ k r h e. sym (old.unique_ids k key r row h found e)) refl (omega arith)
          (λ n e. old.given_ids key row n found e) (λ active. ground arith) (λ id other. refl))
  ]

  pub mark_paths-Current :
      (project_id : String) (paths : List String) (store : IndexStore)
      → Current uuid chunker content_of store
      → Current uuid chunker content_of
          (record store { files = (mark_paths project_id paths store.files).0 })
  unfolding mark_paths
  mark_paths-Current project_id [] store old = old
  mark_paths-Current project_id (p ∷ ps) store old =
      let here = file_key project_id p in
      mark_paths-Current project_id ps
        (record store { files = (mark_on here (lookup here store.files) store.files).0 })
        (mark_on-Current store here (lookup here store.files) refl old)
