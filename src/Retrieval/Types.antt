-- ===== src/Retrieval/Types.antt =====
-- The data that the retrieval modules exchange: `RetrievedChunk`, `RetrievalBudgetStats` of
-- vscode-extension/src/local/ports.ts and `RankedFileCandidate` of retrieval/retrievalScorer.ts.
-- A text whose characters are counted or cut is the list of its UTF-16 code units; a score is an
-- integer.
use shared_dev_context_layer.Base.{ℕ, String, Bool, Option, List}
use shared_dev_context_layer.Base.Text.{Text}
use shared_dev_context_layer.Base.Int.{ℤ}

pub record RetrievedChunk : Type 0 where
  pub file_path : String
  pub chunk_index : ℕ
  pub content : Text
  pub content_hash : Option String
  pub coarse_score : ℤ
  pub score : ℤ
  pub evidence : List String

pub record RankedFileCandidate : Type 0 where
  pub file_id : String
  pub file_path : String
  pub score : ℤ
  pub reasons : List String
  pub chunks : List RetrievedChunk

pub data TruncationReason : Type 0 where
  max_files max_chunks_per_file max_total_chars max_chunks : TruncationReason

-- `max_files`, … of the statistics are the constants of the budget and left out.
pub record RetrievalBudgetStats : Type 0 where
  pub selected_files : ℕ
  pub selected_chunks : ℕ
  pub selected_chars : ℕ
  pub truncated : Bool
  pub truncation_reasons : List TruncationReason
