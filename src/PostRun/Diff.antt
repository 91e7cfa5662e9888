-- ===== src/PostRun/Diff.antt =====
-- The comparison of two workspace snapshots:
-- vscode-extension/src/local/workspaceDiffAnalyzer.ts. The maps by comparable path are tables: a
-- later entry with the same key replaces the value and keeps the place.
pub mod Moved
pub mod Changes
use shared_dev_context_layer.Base.{
  ℕ, ◌+◌, String, Bool, true, false, ◌&&◌, ◌||◌, not, Option, none, some, List, [], ◌∷◌, ◌++◌, map,
  if◌then◌else◌, nat_eq, length, take, string_Eq, ◌==◌,
}
use shared_dev_context_layer.Base.Table.{lookup, insert}
use shared_dev_context_layer.Base.Strings.{is_empty, Locale, locale_le}
use shared_dev_context_layer.Base.Sorting.{sort, unique}
use shared_dev_context_layer.Paths.{to_comparable_path_key, path_le}
use shared_dev_context_layer.PostRun.Types.{WorkspaceDiffSummary}

pub record WorkspaceFileSnapshotEntry : Type 0 where
  pub relative_path : String
  pub exists : Bool
  pub size_bytes : ℕ
  pub content_hash : Option String
  pub modified_at : Option String

abbrev pub EntryMap : Type 0
EntryMap = List (String × WorkspaceFileSnapshotEntry)

abbrev pub same_text : Option String → Option String → Bool
same_text none none = true
same_text (some a) (some b) = a == b
same_text _ _ = false

-- A hash counts if it is there and not the empty text.
abbrev pub is_truthy : Option String → Bool
is_truthy none = false
is_truthy (some s) = not (is_empty s)

unfoldable pub has_entry_changed : WorkspaceFileSnapshotEntry → WorkspaceFileSnapshotEntry → Bool
has_entry_changed before after =
    if is_truthy before.content_hash && is_truthy after.content_hash
    then not (same_text before.content_hash after.content_hash)
    else if not (same_text before.content_hash after.content_hash)
    then true
    else not (nat_eq before.size_bytes after.size_bytes)
      || not (same_text before.modified_at after.modified_at)

pub data ChangeKind : Type 0 where
  created modified deleted unchanged no_path : ChangeKind

abbrev pub exists_in : Option WorkspaceFileSnapshotEntry → Bool
exists_in none = false
exists_in (some entry) = entry.exists

-- `afterEntry?.relative_path ?? beforeEntry?.relative_path`
abbrev pub path_of : Option WorkspaceFileSnapshotEntry → Option WorkspaceFileSnapshotEntry → String
path_of before (some entry) = entry.relative_path
path_of (some entry) none = entry.relative_path
path_of none none = ""

abbrev pub changed_between :
    Option WorkspaceFileSnapshotEntry → Option WorkspaceFileSnapshotEntry → Bool
changed_between (some before) (some after) = has_entry_changed before after
changed_between _ _ = false

-- The body of the loop over the keys: the list to which the path is added.
unfoldable pub kind_of :
    Option WorkspaceFileSnapshotEntry → Option WorkspaceFileSnapshotEntry → ChangeKind
kind_of before after =
    if is_empty (path_of before after)
    then no_path
    else if not (exists_in before) && exists_in after
    then created
    else if exists_in before && not (exists_in after)
    then deleted
    else if exists_in before && exists_in after
    then (if changed_between before after then modified else unchanged)
    else unchanged

pub record DiffLists : Type 0 where
  pub created_paths : List String
  pub modified_paths : List String
  pub deleted_paths : List String
  pub unchanged_paths : List String

unfoldable pub add_path : ChangeKind → String → DiffLists → DiffLists
add_path created path lists = record lists { created_paths = path ∷ lists.created_paths }
add_path modified path lists = record lists { modified_paths = path ∷ lists.modified_paths }
add_path deleted path lists = record lists { deleted_paths = path ∷ lists.deleted_paths }
add_path unchanged path lists = record lists { unchanged_paths = path ∷ lists.unchanged_paths }
add_path no_path path lists = lists

-- The loop over the keys; the paths stand in the order of the keys.
unfoldable pub diff_keys : EntryMap → EntryMap → List String → DiffLists
diff_keys before after [] = record {
  created_paths = [];
  modified_paths = [];
  deleted_paths = [];
  unchanged_paths = [];
}
diff_keys before after (key ∷ keys) =
    let b = lookup key before in
    let a = lookup key after in add_path (kind_of b a) (path_of b a) (diff_keys before after keys)

module _ (locale : Locale) where
  unfoldable pub comparable_map_from : EntryMap → List WorkspaceFileSnapshotEntry → EntryMap
  comparable_map_from m [] = m
  comparable_map_from m (entry ∷ entries) =
      comparable_map_from (insert (to_comparable_path_key locale entry.relative_path) entry m)
        entries

  unfoldable pub to_comparable_map : List WorkspaceFileSnapshotEntry → EntryMap
  to_comparable_map entries = comparable_map_from [] entries

  unfoldable pub summary : DiffLists → WorkspaceDiffSummary
  summary lists =
      let created_files = sort (path_le locale) lists.created_paths in
      let modified_files = sort (path_le locale) lists.modified_paths in
      let deleted_files = sort (path_le locale) lists.deleted_paths in
      let unchanged_files = sort (path_le locale) lists.unchanged_paths in
      let changed_files =
        sort (path_le locale) (created_files ++ (modified_files ++ deleted_files)) in
      record {
        created_files = created_files;
        modified_files = modified_files;
        deleted_files = deleted_files;
        unchanged_files = unchanged_files;
        changed_files_count = length changed_files;
        changed_files_preview = take 20 changed_files;
        unchanged_count = length unchanged_files;
      }

  unfoldable pub diff_key_list : EntryMap → EntryMap → List String
  diff_key_list before after =
      sort (locale_le locale) (unique (map (λ e. e.0) before ++ map (λ e. e.0) after))

  -- `analyze`, over the entries of the two snapshots.
  unfoldable pub analyze : (before after : List WorkspaceFileSnapshotEntry) → WorkspaceDiffSummary
  analyze before after =
      let before_map = to_comparable_map before in
      let after_map = to_comparable_map after in
      summary (diff_keys before_map after_map (diff_key_list before_map after_map))
