-- ===== src/Retrieval/Scorer/Tests.antt =====
-- The ranking of the chunks of one file, and the theorem about it there.
use Prim.Native.Nat.{Ordering}
use shared_dev_context_layer.Base.{ℕ, List, [], ◌∷◌, ◌≡◌, refl}
use shared_dev_context_layer.Base.Int.{ℤ, pos}
use shared_dev_context_layer.Base.Text.{Text}
use shared_dev_context_layer.Base.Strings.{Locale}
use shared_dev_context_layer.Retrieval.Scorer.{
  RetrievedIndexedChunk, ParsedRetrievalQuery, ScoreBreakdown, count_from, count_occurrences,
}

abbrev plain : Locale
plain = record { to_lower = λ s. s; locale_compare = λ a b. Ordering.eq }

abbrev same : Text → Text
same t = t

abbrev found_chunk : ℕ → List ℕ → ℤ → RetrievedIndexedChunk
found_chunk index content coarse = record {
  file_id = "F";
  file_path = "a.ts";
  chunk_index = index;
  content = content;
  content_hash = "";
  coarse_score = coarse;
  coarse_reasons = [];
  path_token_hits = 0;
  filename_token_hits = 0;
  content_token_hits = 0;
}

abbrev query : ParsedRetrievalQuery
query = record { tokens = (b'a' ∷ b'a' ∷ []) ∷ []; path_hints = [] }

abbrev no_score : ScoreBreakdown
no_score = record { score = pos 0; reasons = [] }

abbrev found_chunks : List RetrievedIndexedChunk
found_chunks =
    found_chunk 0 [] (pos 0)
    ∷ found_chunk 1 [] (pos 5)
    ∷ found_chunk 2 (b'a' ∷ b'a' ∷ b'a' ∷ b'a' ∷ []) (pos 1)
    ∷ []

-- Occurrences do not overlap.
occurrences : count_occurrences (b'a' ∷ b'a' ∷ b'a' ∷ b'a' ∷ b'a' ∷ []) (b'a' ∷ b'a' ∷ []) ≡ 2
unfolding count_from
occurrences = refl
