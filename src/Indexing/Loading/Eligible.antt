-- ===== src/Indexing/Loading/Eligible.antt =====
-- Which files are loaded.
use shared_dev_context_layer.Base.{
  ℕ, ◌≤◌, String, ◌≡◌, ◌≢◌, Bool, true, false, ◌||◌, not, Option, none, some, List, if◌then◌else◌,
  ltb, arith, refl, sym, ◌∙◌, ap, subst, Bool-cases, inl, inr,
}
use shared_dev_context_layer.Base.Strings.{Locale, is_empty}
use shared_dev_context_layer.Paths.{normalize_project_path}
use shared_dev_context_layer.Indexing.Indexer.{IndexedFileCandidate}
use shared_dev_context_layer.Indexing.Loading.{
  Disk, Stat, enoent, stat_error, entry, LocalIndexConfig, CandidateLoadResult, skipped_file,
  loaded, is_likely_text, load_candidate_from_path, at_root, file_at, content_at, starts_with_dots,
  has_excluded_segment, has_included_extension, normalize_extension,
}

loaded_inj : (c d : IndexedFileCandidate) → loaded c ≡ loaded d → c ≡ d
loaded_inj c d h = cc

not_loaded : (c : IndexedFileCandidate) → skipped_file ≢ loaded c
not_loaded c h = ground arith

loaded_guards :
    (empty dots excluded included : Bool) (result : CandidateLoadResult) (c : IndexedFileCandidate)
    → (if empty || dots
        then skipped_file
        else if excluded
        then skipped_file
        else if not included
        then skipped_file
        else result)
      ≡ loaded c
    → (dots ≡ false) × (excluded ≡ false) × (included ≡ true) × (result ≡ loaded c)
loaded_guards empty dots excluded included result c h = ground arith

module _ (disk : Disk) (config : LocalIndexConfig) (locale : Locale) where
  -- What is known of a loaded file.
  pub record Eligible (path : String) (c : IndexedFileCandidate) : Type 0 where
    pub bytes : List ℕ
    pub read : disk.read_file path ≡ some bytes
    pub is_text : is_likely_text bytes ≡ true
    pub hash : c.content_hash ≡ disk.sha256 bytes
    pub content : c.content ≡ disk.decode bytes
    pub small : c.size_bytes ≤ config.max_file_bytes
    pub rooted : disk.relative_from_root path ≡ some c.relative_path

  content_at-Eligible :
      (path relative extension : String) (size : ℕ) (modified : String) (o : Option (List ℕ))
      (c : IndexedFileCandidate)
      → disk.read_file path ≡ o
      → disk.relative_from_root path ≡ some relative
      → size ≤ config.max_file_bytes
      → content_at disk config path relative extension size modified o ≡ loaded c
      → Eligible path c
  unfolding content_at
  content_at-Eligible path relative extension size modified none c found rooted small h =
      ground arith
  content_at-Eligible path relative extension size modified (some bytes) c found rooted small h =
      elim (Bool-cases (is_likely_text bytes)) [
        | inl e ↦
            let same = loaded_inj _ c (rw (e, content_at) at h) in
            record {
              bytes = bytes;
              read = found;
              is_text = e;
              hash = ap (λ d. d.content_hash) (sym same);
              content = ap (λ d. d.content) (sym same);
              small = subst (λ d. d.size_bytes ≤ config.max_file_bytes) same small;
              rooted = rooted ∙ ap (λ d. some d.relative_path) same;
            }
        | inr e ↦ absurd (not_loaded c (rw (e, content_at) at h))
      ]

  file_at-Eligible :
      (path relative extension : String) (stat : Stat) (c : IndexedFileCandidate)
      → disk.relative_from_root path ≡ some relative
      → file_at disk config path relative extension stat ≡ loaded c
      → Eligible path c
  unfolding file_at
  file_at-Eligible path relative extension enoent c rooted h = ground arith
  file_at-Eligible path relative extension stat_error c rooted h = ground arith
  file_at-Eligible path relative extension (entry false size modified) c rooted h = ground arith
  file_at-Eligible path relative extension (entry true size modified) c rooted h =
      elim (Bool-cases (ltb config.max_file_bytes size)) [
        | inl e ↦ absurd (not_loaded c (rw (e, file_at) at h))
        | inr e ↦
            content_at-Eligible path relative extension size modified (disk.read_file path) c refl
              rooted (ground arith) (rw (e, file_at) at h)
      ]

  at_root-Eligible :
      (path extension : String) (o : Option String) (c : IndexedFileCandidate)
      → disk.relative_from_root path ≡ o
      → at_root disk config path extension o ≡ loaded c
      → Eligible path c
  unfolding at_root
  at_root-Eligible path extension none c rooted h = ground arith
  at_root-Eligible path extension (some relative) c rooted h =
      file_at-Eligible path relative extension (disk.stat path) c rooted h

  -- A file is loaded only where its normalized path is inside the root, in no excluded directory and
  -- has an included extension, the file is not larger than the limit and its content is likely text;
  -- the hash and the content of the candidate are then those of one reading of the file.
  pub load_candidate_from_path-Eligible :
      (raw : String) (c : IndexedFileCandidate)
      → let path = normalize_project_path raw in
        load_candidate_from_path disk config locale raw ≡ loaded c
        → (has_excluded_segment config.exclude_dirs path ≡ false)
          × (has_included_extension locale config.include_extensions
                (normalize_extension locale (disk.extname path))
              ≡ true)
          × (starts_with_dots path ≡ false)
          × Eligible path c
  unfolding load_candidate_from_path
  load_candidate_from_path-Eligible raw c h =
      let path = normalize_project_path raw in
      let extension = normalize_extension locale (disk.extname path) in
      let (dots, excluded, included, rest) =
        loaded_guards (is_empty path) (starts_with_dots path)
          (has_excluded_segment config.exclude_dirs path)
          (has_included_extension locale config.include_extensions extension)
          (at_root disk config path extension (disk.relative_from_root path)) c h in
      (
        excluded,
        included,
        dots,
        at_root-Eligible path extension (disk.relative_from_root path) c refl rest,
      )
