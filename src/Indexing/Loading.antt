-- ===== src/Indexing/Loading.antt =====
-- The loading of one file: `loadCandidateFromPath` of
-- vscode-extension/src/local/indexing/incrementalWorkspaceIndexer.ts and `TextFileDetector` of
-- indexing/textFileDetector.ts. The file system, the path functions of the platform, the decoding of
-- UTF-8 and the hash are the record `Disk`.
pub mod Detector
pub mod Eligible
use Prim.Native.String
use Prim.Native.Char.{Char, code}
use shared_dev_context_layer.Base.{
  ℕ, suc, ◌+◌, ◌*◌, min, String, Bool, true, false, ◌&&◌, ◌||◌, not, Option, none, some, List, [],
  ◌∷◌, map, length, take, if◌then◌else◌, ltb, leb, nat_eq, any, filter_by, string_Eq,
}
use shared_dev_context_layer.Base.Text.{Text}
use shared_dev_context_layer.Base.Strings.{Locale, is_empty, trim_str}
use shared_dev_context_layer.Base.Sorting.{includes}
use shared_dev_context_layer.Paths.{normalize_project_path, is_slash}
use shared_dev_context_layer.Indexing.Indexer.{IndexedFileCandidate}

abbrev pub is_suspicious : ℕ → Bool
is_suspicious byte =
    not (nat_eq byte 9 || nat_eq byte 10 || nat_eq byte 13)
    && not (leb 32 byte && leb byte 126)
    && not (leb 128 byte)

-- The loop over the sample: `none` where it meets a zero byte.
unfoldable pub count_suspicious : List ℕ → Option ℕ
count_suspicious [] = some 0
count_suspicious (byte ∷ bytes) = elim (count_suspicious bytes) [
  | none ↦ none
  | some n ↦ if nat_eq byte 0 then none else if is_suspicious byte then some (suc n) else some n
]

abbrev pub few_suspicious : ℕ → Option ℕ → Bool
few_suspicious sample_size none = false
few_suspicious sample_size (some n) = ltb (n * 10) sample_size

-- `suspicious / sampleSize < 0.1`, without the division
unfoldable pub is_likely_text : List ℕ → Bool
is_likely_text [] = true
is_likely_text (b ∷ bs) =
    few_suspicious (min (length (b ∷ bs)) 4096) (count_suspicious (take 4096 (b ∷ bs)))

-- What `fs.stat` gives.
pub data Stat : Type 0 where
  enoent stat_error : Stat
  entry : Bool → ℕ → String → Stat  -- `isFile()`, `size`, `mtime.toISOString()`

pub record Disk : Type 0 where
  pub extname : String → String
  -- `normalizeRelativePathFromRoot(rootPath, path.resolve(rootPath, relative))`, where it does not throw
  pub relative_from_root : String → Option String
  pub stat : String → Stat
  pub read_file : String → Option (List ℕ)
  pub decode : List ℕ → Text
  pub sha256 : List ℕ → String

pub record LocalIndexConfig : Type 0 where
  pub exclude_dirs : List String
  pub include_extensions : List String
  pub max_file_bytes : ℕ

pub data CandidateLoadResult : Type 0 where
  missing skipped_file load_error : CandidateLoadResult
  loaded : IndexedFileCandidate → CandidateLoadResult

unfoldable pub starts_with_dots : String → Bool
starts_with_dots (String.◌∷◌ c (String.◌∷◌ d s)) = nat_eq (code c) b'.' && nat_eq (code d) b'.'
starts_with_dots s = false

-- split("/"), with the segment read so far
unfoldable pub segments_from : String → String → List String
segments_from current String.[] = current ∷ []
segments_from current (String.◌∷◌ c s) = elim (is_slash c) [
  | true ↦ current ∷ segments_from "" s
  | false ↦ segments_from (String.◌++◌ current (String.◌∷◌ c String.[])) s
]

unfoldable pub has_excluded_segment : List String → String → Bool
has_excluded_segment exclude_dirs path =
    any (includes (filter_by (λ d. not (is_empty d)) (map trim_str exclude_dirs)))
      (filter_by (λ segment. not (is_empty segment)) (segments_from "" path))

unfoldable pub normalize_extension : Locale → String → String
normalize_extension locale String.[] = ""
normalize_extension locale (String.◌∷◌ c s) =
    if nat_eq (code c) b'.'
    then locale.to_lower (String.◌∷◌ c s)
    else String.◌++◌ "." (locale.to_lower (String.◌∷◌ c s))

unfoldable pub has_included_extension : Locale → List String → String → Bool
has_included_extension locale include_extensions extension =
    includes
      (filter_by (λ e. not (is_empty e)) (map (normalize_extension locale) include_extensions))
      extension

module _ (disk : Disk) (config : LocalIndexConfig) where
  unfoldable pub content_at :
      String → String → String → ℕ → String → Option (List ℕ) → CandidateLoadResult
  content_at normalized relative extension size modified none = load_error
  content_at normalized relative extension size modified (some bytes) =
      if not (is_likely_text bytes)
      then skipped_file
      else loaded (record {
        relative_path = relative;
        extension = extension;
        size_bytes = size;
        content_hash = disk.sha256 bytes;
        content = disk.decode bytes;
        modified_at = modified;
      })

  unfoldable pub file_at : String → String → String → Stat → CandidateLoadResult
  file_at normalized relative extension enoent = missing
  file_at normalized relative extension stat_error = load_error
  file_at normalized relative extension (entry is_file size modified) =
      if not is_file
      then missing
      else if ltb config.max_file_bytes size
      then skipped_file
      else content_at normalized relative extension size modified (disk.read_file normalized)

  unfoldable pub at_root : String → String → Option String → CandidateLoadResult
  at_root normalized extension none = skipped_file
  at_root normalized extension (some relative) =
      file_at normalized relative extension (disk.stat normalized)

  unfoldable pub load_candidate_from_path : Locale → String → CandidateLoadResult
  load_candidate_from_path locale raw =
      let normalized = normalize_project_path raw in
      let extension = normalize_extension locale (disk.extname normalized) in
      if is_empty normalized || starts_with_dots normalized
      then skipped_file
      else if has_excluded_segment config.exclude_dirs normalized
      then skipped_file
      else if not (has_included_extension locale config.include_extensions extension)
      then skipped_file
      else at_root normalized extension (disk.relative_from_root normalized)
