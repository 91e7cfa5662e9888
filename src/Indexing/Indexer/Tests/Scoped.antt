-- ===== src/Indexing/Indexer/Tests/Scoped.antt =====
-- Loading and the scoped run on a concrete workspace.
use shared_dev_context_layer.Base.{
  ◌*◌, ◌<◌, min, String, true, false, some, [], ◌∷◌, ◌≡◌, ◌↔◌, refl, arith, string_Eq, ◌==◌, length,
  if◌then◌else◌, Option, List, All, filter_by,
}
use shared_dev_context_layer.Base.Strings.{trim_str}
use shared_dev_context_layer.Paths.{
  normalize_project_path, normalize_slashes, strip_dot_prefix, collapse_separators, strip_trailing,
}
use shared_dev_context_layer.Indexing.Indexer.{healthy}
use shared_dev_context_layer.Indexing.Indexer.Current.{Current}
use shared_dev_context_layer.Indexing.Loading.{
  Disk, entry, enoent, LocalIndexConfig, loaded, load_candidate_from_path, is_suspicious,
  is_likely_text, has_excluded_segment, has_included_extension, normalize_extension,
  starts_with_dots, at_root, file_at, content_at, segments_from, count_suspicious,
}
use shared_dev_context_layer.Indexing.Loading.Detector.{NoZero, is_likely_text_iff}
use shared_dev_context_layer.Indexing.Loading.Eligible.{Eligible, load_candidate_from_path-Eligible}
use shared_dev_context_layer.Indexing.ByPaths.{run_index_by_paths}
use shared_dev_context_layer.Indexing.ByPaths.Kept.{StandsForItself, run_index_by_paths-Current}
use shared_dev_context_layer.Indexing.Indexer.Tests.{
  plain, id_of, id_of-NoRepeats, whole, abc, content_of, candidate, store1, store1-Current,
}

is_likely_text_iff_example :
    (is_likely_text abc ≡ true)
    ↔ (NoZero abc × (length (filter_by is_suspicious abc) * 10 < min (length abc) 4096))
is_likely_text_iff_example = is_likely_text_iff abc (λ e. ground arith)

abbrev disk : Disk
disk = record {
  extname = λ path. ".ts";
  relative_from_root = λ path. some path;
  stat = λ path. entry true 3 "2026-01-01";
  read_file = λ path. some abc;
  decode = λ bytes. bytes;
  sha256 = λ bytes. "h";
}

abbrev config : LocalIndexConfig
config = record { exclude_dirs = "dist" ∷ []; include_extensions = "ts" ∷ []; max_file_bytes = 100 }

loads_file : load_candidate_from_path disk config plain "src//a.ts" ≡ loaded (candidate "src/a.ts")
unfolding load_candidate_from_path normalize_project_path normalize_slashes strip_dot_prefix
    collapse_separators strip_trailing trim_str has_excluded_segment has_included_extension
    normalize_extension starts_with_dots at_root file_at content_at segments_from is_likely_text
    count_suspicious
loads_file = refl

load_candidate_from_path-Eligible_example :
    let path = normalize_project_path "src//a.ts" in
    (has_excluded_segment config.exclude_dirs path ≡ false)
    × (has_included_extension plain config.include_extensions
          (normalize_extension plain (disk.extname path))
        ≡ true)
    × (starts_with_dots path ≡ false)
    × Eligible disk config plain path (candidate "src/a.ts")
load_candidate_from_path-Eligible_example =
    load_candidate_from_path-Eligible disk config plain "src//a.ts" (candidate "src/a.ts")
      loads_file

-- One of the files is there; all files have the same content. One path is not eligible.
abbrev small_disk : Disk
small_disk = record disk {
  stat = λ path. if path == "a.ts" then entry true 3 "2026-01-01" else enoent;
  decode = λ bytes. abc;
}

stays :
    (path relative : String) → ◌≡◌ {A = Option String} (some path) (some relative) → relative ≡ path
stays path relative h = ground (arith, h)

abbrev given_paths : List String
given_paths = "./a.ts" ∷ "gone.ts" ∷ "dist//b.ts" ∷ []

stand :
    All
      (StandsForItself id_of whole content_of plain "p" (λ path. healthy) small_disk config)
      given_paths
unfolding normalize_project_path normalize_slashes strip_dot_prefix collapse_separators
    strip_trailing trim_str
stand = (
  record { stable = refl; in_place = stays _; written = λ q. ground arith },
  (
    record { stable = refl; in_place = stays _; written = λ q. ground arith },
    (record { stable = refl; in_place = stays _; written = λ q. ground arith }, tt),
  ),
)

run_index_by_paths-Current_example :
    Current id_of whole content_of
      (run_index_by_paths id_of whole plain "p"
        (λ path. healthy)
        (load_candidate_from_path small_disk config plain)
        given_paths
        store1).0
run_index_by_paths-Current_example =
    run_index_by_paths-Current id_of whole content_of plain "p" (λ path. healthy) small_disk config
      given_paths store1 id_of-NoRepeats (λ bytes. refl) stand store1-Current
