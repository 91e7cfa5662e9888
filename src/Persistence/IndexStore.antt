-- ===== src/Persistence/IndexStore.antt =====
-- The tables `files` and `file_chunks`: `listProjectFiles`, `upsertIndexedFile`,
-- `markFilesDeleted`, `replaceFileChunks`, `deleteChunksByFileIds` of
-- vscode-extension/src/local/persistence/postgresPersistenceAdapter.ts. `files` is keyed by project
-- and path, `file_chunks` holds the rows of each file id in the order of `chunk_index`; the times of
-- changes and the columns that are constant are left out. `uuid` stands for `randomUUID`: the n-th
-- call yields `uuid n`. A statement that throws is not run, and what then happens is the caller's.
pub mod Laws
use shared_dev_context_layer.Base.{
  ℕ, suc, String, Bool, true, false, ◌&&◌, ◌||◌, not, Option, none, some, List, [], ◌∷◌, ◌++◌,
  length, if◌then◌else◌, ◌==◌, string_Eq, Eq, ◌≡◌, ◌↔◌, arith, filter_by, map,
}
use shared_dev_context_layer.Base.Table.{lookup, insert, remove}
use shared_dev_context_layer.Base.Sorting.{includes}
use shared_dev_context_layer.Indexing.Chunker.{ChunkRecord}

-- UNIQUE (project_id, path)
pub record FileKey : Type 0 where
  pub project_id : String
  pub path : String

abbrev pub file_key : String → String → FileKey
file_key project_id path = record { project_id = project_id; path = path }

unfoldable pub file_key_eq : FileKey → FileKey → Bool
file_key_eq a b = a.project_id == b.project_id && a.path == b.path

pub file_key_eq_iff : (a b : FileKey) → (file_key_eq a b ≡ true) ↔ (a ≡ b)
unfolding file_key_eq
file_key_eq_iff a b =
    ground
      (arith, string_Eq.equals_iff a.project_id b.project_id, string_Eq.equals_iff a.path b.path)

instance abbrev pub file_key_Eq : Eq FileKey
file_key_Eq = record { equals = file_key_eq; equals_iff = file_key_eq_iff }

pub record FileRow : Type 0 where
  pub id : String
  pub content_hash : String
  pub language : Option String
  pub size_bytes : ℕ
  pub modified_at : String
  pub is_deleted : Bool

pub record IndexStore : Type 0 where
  pub files : List (FileKey × FileRow)
  pub file_chunks : List (String × List ChunkRecord)
  -- how many ids `randomUUID` has given out
  pub ids : ℕ

pub record UpsertIndexedFileInput : Type 0 where
  pub key : FileKey
  pub content_hash : String
  pub language : Option String
  pub size_bytes : ℕ
  pub modified_at : String

abbrev pub upserted_row : String → UpsertIndexedFileInput → FileRow
upserted_row id input = record {
  id = id;
  content_hash = input.content_hash;
  language = input.language;
  size_bytes = input.size_bytes;
  modified_at = input.modified_at;
  is_deleted = false;
}

-- The id of the row that a conflict leaves in place, or the new one.
abbrev pub id_or : String → Option FileRow → String
id_or new none = new
id_or new (some row) = row.id

unfoldable pub upsert_indexed_file :
    (ℕ → String) → UpsertIndexedFileInput → IndexStore → IndexStore × FileRow
upsert_indexed_file uuid input store =
    let row = upserted_row (id_or (uuid store.ids) (lookup input.key store.files)) input in
    (record store { files = insert input.key row store.files; ids = suc store.ids }, row)

-- One transaction: the rows of the file are deleted and the chunks inserted.
unfoldable pub replace_file_chunks : String → List ChunkRecord → IndexStore → IndexStore × ℕ
replace_file_chunks id chunks store =
    (record store { file_chunks = insert id chunks store.file_chunks }, length chunks)

-- The rows of a project, the deleted ones among them: what a client builds a map by path from. The
-- rows come in the order of the table; the callers do not use the order of the statement.
unfoldable pub list_project_files : String → List (FileKey × FileRow) → List (String × FileRow)
list_project_files project_id [] = []
list_project_files project_id ((key, row) ∷ rows) =
    let rest = list_project_files project_id rows in
    if key.project_id == project_id then (key.path, row) ∷ rest else rest

-- UPDATE … SET is_deleted WHERE path = ANY(paths) AND is_deleted = false RETURNING id, one path after
-- the other: a path that comes twice finds its row deleted.
unfoldable pub mark_on :
    FileKey → Option FileRow → List (FileKey × FileRow) → List (FileKey × FileRow) × List String
mark_on key none files = (files, [])
mark_on key (some row) files =
    if row.is_deleted
    then (files, [])
    else (insert key (record row { is_deleted = true }) files, row.id ∷ [])

unfoldable pub mark_paths :
    String → List String → List (FileKey × FileRow) → List (FileKey × FileRow) × List String
mark_paths project_id [] files = (files, [])
mark_paths project_id (path ∷ paths) files =
    let key = file_key project_id path in
    let (first, id) = mark_on key (lookup key files) files in
    let (marked, ids) = mark_paths project_id paths first in (marked, id ++ ids)

unfoldable pub mark_files_deleted : String → List String → IndexStore → IndexStore × List String
mark_files_deleted project_id paths store =
    let (files, ids) = mark_paths project_id paths store.files in
    (record store { files = files }, ids)

abbrev pub remove_all :
    List String → List (String × List ChunkRecord) → List (String × List ChunkRecord)
remove_all [] rows = rows
remove_all (id ∷ ids) rows = remove id (remove_all ids rows)

unfoldable pub delete_chunks_by_file_ids : List String → IndexStore → IndexStore
delete_chunks_by_file_ids ids store = record store {
  file_chunks = remove_all ids store.file_chunks;
}
