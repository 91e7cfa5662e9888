-- ===== src/Retrieval/Scorer.antt =====
-- The ranking of what the coarse search has found: `rankRetrievalCandidates` of
-- vscode-extension/src/local/retrieval/retrievalScorer.ts. `toLowerCase` of a content is a parameter.
-- The maps by file id are tables in the order of their insertion.
pub mod Kept
mod Tests
use Prim.Native.Nat.{Ordering}
use shared_dev_context_layer.Base.{
  ℕ, zero, suc, ◌+◌, ◌*◌, ◌-◌, min, String, Bool, true, false, ◌&&◌, Option, none, some, List, [],
  ◌∷◌, ◌++◌, map, filter_by, length, ltb, leb, if◌then◌else◌, ◌==◌, string_Eq, nat_eq,
}
use shared_dev_context_layer.Base.Int.{ℤ, pos, negsuc, ◌+ℤ◌, ◌-ℤ◌, ltb_ℤ}
use shared_dev_context_layer.Base.Text.{Text}
use shared_dev_context_layer.Base.Table.{lookup, insert}
use shared_dev_context_layer.Base.Strings.{Locale, locale_le, is_empty}
use shared_dev_context_layer.Base.Sorting.{sort, unique}
use shared_dev_context_layer.Paths.{to_comparable_path_key}
use shared_dev_context_layer.Retrieval.Types.{RetrievedChunk, RankedFileCandidate}

pub record RetrievedIndexedFileCandidate : Type 0 where
  pub file_id : String
  pub path : String
  pub content_hash : String
  pub coarse_score : ℤ
  pub coarse_reasons : List String
  pub path_token_hits : ℕ
  pub filename_token_hits : ℕ

pub record RetrievedIndexedChunk : Type 0 where
  pub file_id : String
  pub file_path : String
  pub chunk_index : ℕ
  pub content : Text
  pub content_hash : String
  pub coarse_score : ℤ
  pub coarse_reasons : List String
  pub path_token_hits : ℕ
  pub filename_token_hits : ℕ
  pub content_token_hits : ℕ

-- The two lists that the scorer reads.
pub record ParsedRetrievalQuery : Type 0 where
  pub tokens : List Text
  pub path_hints : List String

pub record ScoreBreakdown : Type 0 where
  pub score : ℤ
  pub reasons : List String

abbrev pub max_ℤ : ℤ → ℤ → ℤ
max_ℤ a b = if ltb_ℤ a b then b else a

abbrev pub is_zero : ℤ → Bool
is_zero (pos n) = nat_eq n 0
is_zero (negsuc n) = false

abbrev pub starts_with : Text → Text → Bool
starts_with [] text = true
starts_with (t ∷ ts) [] = false
starts_with (t ∷ ts) (c ∷ cs) = nat_eq t c && starts_with ts cs

-- The occurrences of a token from the position that `skip` units are ahead. No token is empty, the
-- query parser drops those of fewer than two units.
unfoldable pub count_from : (skip : ℕ) → (text token : Text) → ℕ
count_from skip [] token = 0
count_from (suc skip) (c ∷ cs) token = count_from skip cs token
count_from zero (c ∷ cs) token =
    let after = count_from (length token - 1) cs token in
    let next = count_from zero cs token in if starts_with token (c ∷ cs) then suc after else next

abbrev pub count_occurrences : (text token : Text) → ℕ
count_occurrences text token = count_from zero text token

abbrev pub bonus : Bool → ℕ → ℤ → ℤ
bonus true n score = score +ℤ pos n
bonus false n score = score

abbrev pub reason_if : Bool → String → List String
reason_if true reason = reason ∷ []
reason_if false reason = []

unfoldable pub score_file_candidate :
    RetrievedIndexedFileCandidate → ParsedRetrievalQuery → ScoreBreakdown
score_file_candidate file query =
    let dense = ltb 1 file.path_token_hits in
    let named = ltb 0 file.filename_token_hits in
    let score =
      bonus named (min 18 (file.filename_token_hits * 6))
        (bonus dense (min 24 (file.path_token_hits * 4)) file.coarse_score) in
    record {
      score =
          if ltb 0 (length query.path_hints) && nat_eq file.path_token_hits 0
          then score -ℤ pos 6
          else score;
      reasons = unique (
          file.coarse_reasons
          ++ reason_if dense "path_multi_token_density"
          ++ reason_if named "filename_token_density");
    }

-- `matchedTerms` and `totalOccurrences`
unfoldable pub count_terms : Text → List Text → ℕ × ℕ
count_terms text [] = (0, 0)
count_terms text (token ∷ tokens) =
    let n = count_occurrences text token in
    let (matched, total) = count_terms text tokens in
    if nat_eq n 0 then (matched, total) else (suc matched, n + total)

unfoldable pub score_chunk_candidate :
    (Text → Text) → RetrievedIndexedChunk → ParsedRetrievalQuery → ScoreBreakdown → ScoreBreakdown
score_chunk_candidate to_lower chunk query file_score =
    let (matched, total) = count_terms (to_lower chunk.content) query.tokens in
    let found = ltb 0 matched in
    let dense = ltb 1 chunk.content_token_hits in
    record {
      score = bonus (leb 3 total) 10 (
          bonus (ltb 1 matched) 14 (
            bonus dense (min 20 (chunk.content_token_hits * 4)) (
              bonus found (matched * 12 + min 24 (total * 3))
                (max_ℤ file_score.score chunk.coarse_score))));
      reasons = unique (
          file_score.reasons
          ++ chunk.coarse_reasons
          ++ reason_if found "content_match"
          ++ reason_if dense "coarse_content_density"
          ++ reason_if (ltb 1 matched) "multi_term_match"
          ++ reason_if (leb 3 total) "high_term_density");
    }

-- `fileMap`
abbrev pub FileMap : Type 0
FileMap = List (String × RetrievedIndexedFileCandidate)

abbrev pub file_of_chunk : RetrievedIndexedChunk → RetrievedIndexedFileCandidate
file_of_chunk chunk = record {
  file_id = chunk.file_id;
  path = chunk.file_path;
  content_hash = "";
  coarse_score = chunk.coarse_score;
  coarse_reasons = chunk.coarse_reasons;
  path_token_hits = chunk.path_token_hits;
  filename_token_hits = chunk.filename_token_hits;
}

unfoldable pub add_files : List RetrievedIndexedFileCandidate → FileMap → FileMap
add_files [] files = files
add_files (f ∷ fs) files = add_files fs (insert f.file_id f files)

abbrev pub add_missing :
    RetrievedIndexedChunk → Option RetrievedIndexedFileCandidate → FileMap → FileMap
add_missing chunk none files = insert chunk.file_id (file_of_chunk chunk) files
add_missing chunk (some f) files = files

unfoldable pub add_chunk_files : List RetrievedIndexedChunk → FileMap → FileMap
add_chunk_files [] files = files
add_chunk_files (c ∷ cs) files = add_chunk_files cs (add_missing c (lookup c.file_id files) files)

module _ (locale : Locale) (to_lower : Text → Text) where
  unfoldable pub scored_chunk :
      ParsedRetrievalQuery → ScoreBreakdown → RetrievedIndexedChunk → RetrievedChunk
  scored_chunk query file_score chunk =
      let scored = score_chunk_candidate to_lower chunk query file_score in
      record {
        file_path = chunk.file_path;
        chunk_index = chunk.chunk_index;
        content = chunk.content;
        content_hash = if is_empty chunk.content_hash then none else some chunk.content_hash;
        coarse_score = chunk.coarse_score;
        score = scored.score;
        evidence = scored.reasons;
      }

  abbrev pub text_or_blank : Option String → String
  text_or_blank none = ""
  text_or_blank (some s) = s

  -- `compareChunks(left, right) <= 0`
  unfoldable pub chunk_le : RetrievedChunk → RetrievedChunk → Bool
  chunk_le left right =
      if ltb_ℤ right.score left.score
      then true
      else if ltb_ℤ left.score right.score
      then false
      else elim (locale.locale_compare (to_comparable_path_key locale left.file_path)
          (to_comparable_path_key locale right.file_path)) [
            | Ordering.lt ↦ true
            | Ordering.gt ↦ false
            | Ordering.eq ↦
                if ltb left.chunk_index right.chunk_index
                then true
                else if ltb right.chunk_index left.chunk_index
                then false
                else locale_le locale (text_or_blank left.content_hash)
                    (text_or_blank right.content_hash)
          ]

  -- `compareFiles(left, right) <= 0`
  unfoldable pub file_le : RankedFileCandidate → RankedFileCandidate → Bool
  file_le left right =
      if ltb_ℤ right.score left.score
      then true
      else if ltb_ℤ left.score right.score
      then false
      else elim (locale.locale_compare (to_comparable_path_key locale left.file_path)
          (to_comparable_path_key locale right.file_path)) [
            | Ordering.lt ↦ true
            | Ordering.gt ↦ false
            | Ordering.eq ↦ locale_le locale left.file_id right.file_id
          ]

  unfoldable pub saturated : ℕ → RetrievedChunk → RetrievedChunk
  saturated index chunk = record chunk {
    score = max_ℤ (pos 0) (chunk.score -ℤ pos (index * 4));
    evidence =
        if ltb 0 (index * 4)
        then unique (chunk.evidence ++ "same_file_saturation" ∷ [])
        else chunk.evidence;
  }

  unfoldable pub saturate_from : ℕ → List RetrievedChunk → List RetrievedChunk
  saturate_from index [] = []
  saturate_from index (c ∷ cs) = saturated index c ∷ saturate_from (suc index) cs

  unfoldable pub rank_chunks :
      ParsedRetrievalQuery → ScoreBreakdown → List RetrievedIndexedChunk → List RetrievedChunk
  rank_chunks query file_score chunks = sort chunk_le (
      saturate_from 0 (
        sort chunk_le
          (filter_by (λ c. ltb_ℤ (pos 0) c.score) (map (scored_chunk query file_score) chunks))))

  abbrev pub best_score : List RetrievedChunk → ℤ
  best_score [] = pos 0
  best_score (c ∷ cs) = c.score

  unfoldable pub rank_file :
      ParsedRetrievalQuery
      → List RetrievedIndexedChunk
      → RetrievedIndexedFileCandidate
      → List RankedFileCandidate
  rank_file query chunks file =
      let file_score = score_file_candidate file query in
      let ranked =
        rank_chunks query file_score (filter_by (λ c. c.file_id == file.file_id) chunks) in
      if is_zero file_score.score && nat_eq (length ranked) 0
      then []
      else record {
        file_id = file.file_id;
        file_path = file.path;
        score = max_ℤ file_score.score (best_score ranked) +ℤ pos (min 4 (length ranked) * 3);
        reasons =
            unique (file_score.reasons ++ reason_if (ltb 0 (length ranked)) "has_ranked_chunks");
        chunks = ranked;
      }
        ∷ []

  unfoldable pub rank_files :
      ParsedRetrievalQuery → List RetrievedIndexedChunk → FileMap → List RankedFileCandidate
  rank_files query chunks [] = []
  rank_files query chunks ((id, file) ∷ files) =
      rank_file query chunks file ++ rank_files query chunks files

  unfoldable pub rank_retrieval_candidates :
      List RetrievedIndexedFileCandidate
      → List RetrievedIndexedChunk
      → ParsedRetrievalQuery
      → List RankedFileCandidate
  rank_retrieval_candidates files chunks query =
      sort file_le (rank_files query chunks (add_chunk_files chunks (add_files files [])))
