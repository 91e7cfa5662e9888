-- ===== src/Retrieval/Scorer/Kept.antt =====
-- What the ranking of the chunks of a file keeps.
use mathlib.Core.List.{Perm}
use mathlib.Core.List.Perm
use shared_dev_context_layer.Base.{ℕ, String, Bool, Option, List}
use shared_dev_context_layer.Base.Int.{ℤ, pos, ltb_ℤ, ◌≤ℤ◌}
use shared_dev_context_layer.Base.Text.{Text}
use shared_dev_context_layer.Base.Strings.{Locale}
use shared_dev_context_layer.Retrieval.Types.{RetrievedChunk}

-- A chunk without its score and its evidence.
pub record Origin : Type 0 where
  pub file_path : String
  pub chunk_index : ℕ
  pub content : Text
  pub content_hash : Option String
  pub coarse_score : ℤ

abbrev pub origin : RetrievedChunk → Origin
origin c = record {
  file_path = c.file_path;
  chunk_index = c.chunk_index;
  content = c.content;
  content_hash = c.content_hash;
  coarse_score = c.coarse_score;
}

abbrev pub NoBetter : RetrievedChunk → RetrievedChunk → Type 0
NoBetter left right = right.score ≤ℤ left.score

module _ (locale : Locale) (to_lower : Text → Text) where
  abbrev pub positive : RetrievedChunk → Bool
  positive c = ltb_ℤ (pos 0) c.score
