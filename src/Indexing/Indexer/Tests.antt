-- ===== src/Indexing/Indexer/Tests.antt =====
-- The indexer on a concrete workspace.
mod Scoped
use Prim.Native.String
use shared_dev_context_layer.Base.{
  ℕ, zero, suc, String, false, none, some, List, [], ◌∷◌, ◌≡◌, ◌≢◌, refl, sym, ◌∙◌, ap, arith,
  string_Eq, All,
}
use shared_dev_context_layer.Base.Strings.{Locale}
use shared_dev_context_layer.Base.Text.{Text}
use shared_dev_context_layer.Base.Table.{lookup, insert}
use shared_dev_context_layer.Indexing.Chunker.{ChunkRecord, chunk}
use shared_dev_context_layer.Persistence.IndexStore.{
  FileRow, IndexStore, file_key_Eq, file_key, list_project_files,
}
use shared_dev_context_layer.Indexing.Indexer.{
  IndexedFileCandidate, healthy, upsert_fails, replace_fails, ScanResult, chunks_or_none,
  empty_result, persist_candidate, run_index,
}
use shared_dev_context_layer.Indexing.Indexer.Current.{Current, Current-put}
use shared_dev_context_layer.Indexing.Indexer.Writes.{NoRepeats}
use shared_dev_context_layer.Indexing.Indexer.Marking.{Gone}
use shared_dev_context_layer.Indexing.Indexer.Run.{run_index-Current, Mirrored, run_index-mirrors}
use shared_dev_context_layer.Paths.{
  normalize_project_path, normalize_slashes, strip_dot_prefix, collapse_separators, strip_trailing,
}
use shared_dev_context_layer.Base.Strings.{trim_str}
use shared_dev_context_layer.Indexing.Indexer.Unscanned.{NormalRows}
use shared_dev_context_layer.Indexing.Indexer.Loop.{DistinctPaths}
use shared_dev_context_layer.Indexing.Indexer.Stale.{persist_candidate-stale}

abbrev plain : Locale
plain = record { to_lower = λ s. s; locale_compare = String.compare }

-- Ids of growing length.
abbrev id_of : ℕ → String
id_of zero = String.[]
id_of (suc n) = String.◌∷◌ "u" (id_of n)

abbrev size : String → ℕ
size String.[] = 0
size (String.◌∷◌ c s) = suc (size s)

size-id_of : (n : ℕ) → size (id_of n) ≡ n
size-id_of zero = refl
size-id_of (suc n) = omega (arith, size-id_of n)

id_of-NoRepeats : NoRepeats id_of
id_of-NoRepeats m n e = sym (size-id_of m) ∙ ap size e ∙ size-id_of n

abbrev whole : Text → List ChunkRecord
whole t =
    chunks_or_none
      (chunk (λ s. "hash") (record { chunk_size_chars = 4; chunk_overlap_chars = 1 }) t)

abbrev abc : Text
abc = 97 ∷ 98 ∷ 99 ∷ []

abbrev content_of : String → Text
content_of hash = abc

abbrev store0 : IndexStore
store0 = record { files = []; file_chunks = []; ids = 0 }

store0-Current : Current id_of whole content_of store0
unfolding lookup
store0-Current = record {
  unique_ids = λ j k q r hj hk e. cc;
  given_ids = λ k r n h e. cc;
  current = λ k r h a. cc;
}

abbrev candidate : String → IndexedFileCandidate
candidate path = record {
  relative_path = path;
  extension = ".ts";
  size_bytes = 3;
  content_hash = "h";
  content = abc;
  modified_at = "2026-01-01";
}

abbrev old_row : FileRow
old_row = record {
  id = id_of 0;
  content_hash = "h";
  language = some "ts";
  size_bytes = 3;
  modified_at = "2026-01-01";
  is_deleted = false;
}

-- One file, indexed before.
abbrev store1 : IndexStore
unfolding insert
store1 = record {
  files = insert (file_key "p" "gone.ts") old_row [];
  file_chunks = insert (id_of 0) (whole abc) [];
  ids = 1;
}

store1-Current : Current id_of whole content_of store1
unfolding lookup insert
store1-Current =
    Current-put id_of whole content_of store0 store1 (file_key "p" "gone.ts") old_row store0-Current
      (λ k r h e. cc) refl (omega arith) (λ n e. let same = id_of-NoRepeats 0 n e in omega arith)
      (λ active. refl) (λ id other. ground (arith, string_Eq.equals_iff (id_of 0) id))

abbrev scan : ScanResult
scan = record {
  candidates = candidate "a.ts" ∷ candidate "src/b.ts" ∷ [];
  skipped_count = 0;
  error_count = 0;
}

gone_path-normal : NormalRows (list_project_files "p" store1.files)
unfolding list_project_files insert normalize_project_path normalize_slashes strip_dot_prefix
    collapse_separators strip_trailing trim_str
gone_path-normal = ((refl, refl), tt)

two_paths-DistinctPaths : DistinctPaths scan.candidates
two_paths-DistinctPaths =
    (((λ e. ground (arith, string_Eq.equals_iff "src/b.ts" "a.ts")), tt), (tt, tt))

run_index-mirrors_example :
    let after = (run_index id_of whole plain "p" (λ path. healthy) scan store1).0 in
    All (Mirrored id_of whole content_of plain "p" after) scan.candidates
    × ((path : String)
        → All (λ c. c.relative_path ≢ path) scan.candidates
        → Gone after.files (file_key "p" path))
run_index-mirrors_example =
    run_index-mirrors id_of whole content_of plain "p" scan store1 id_of-NoRepeats store1-Current
      gone_path-normal two_paths-DistinctPaths (refl, (refl, tt))

run_index-Current_example :
    Current id_of whole content_of
      (run_index id_of whole plain "p" (λ path. upsert_fails) scan store1).0
run_index-Current_example =
    run_index-Current id_of whole content_of plain "p" (λ path. upsert_fails) scan store1
      id_of-NoRepeats two_paths-DistinctPaths (refl, (refl, tt))
      ((λ e. ground arith), ((λ e. ground arith), tt)) store1-Current

persist_candidate-stale_example :
    let after =
      (persist_candidate id_of whole plain "p" none
        (candidate "a.ts")
        replace_fails
        (store1, empty_result scan)).0 in
    (persist_candidate id_of whole plain "p"
      (lookup (file_key "p" "a.ts") after.files)
      (candidate "a.ts")
      healthy
      (after, empty_result scan)).0.file_chunks
    ≡ store1.file_chunks
persist_candidate-stale_example =
    persist_candidate-stale id_of whole plain "p" none (candidate "a.ts") store1 (empty_result scan)
      (empty_result scan)
