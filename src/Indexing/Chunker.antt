-- ===== src/Indexing/Chunker.antt =====
-- Chunks of a file: `BasicChunker` of vscode-extension/src/local/indexing/basicChunker.ts.
-- A content is its UTF-16 code units; `sha256` stands for `FileHasher.sha256FromText`, a library
-- call. Each round of the loop moves `start` on by one at least, so the length of the content is
-- enough fuel (Chunker/Cover).
pub mod Cover
mod Tests
use shared_dev_context_layer.Base.{
  ℕ, zero, suc, ◌+◌, ◌-◌, String, Bool, true, false, Option, none, some, List, [], ◌∷◌, min, max,
  length, ltb, leb, if◌then◌else◌,
}
use shared_dev_context_layer.Base.Text.{Text, is_blank, slice}
use mathlib.Core.Option

pub record ChunkRecord : Type 0 where
  pub chunk_index : ℕ
  pub content : Text
  pub content_hash : String

pub record BasicChunkerConfig : Type 0 where
  pub chunk_size_chars : ℕ
  pub chunk_overlap_chars : ℕ

-- `Math.max(1, chunkSizeChars - chunkOverlapChars)`
abbrev pub chunk_step : BasicChunkerConfig → ℕ
chunk_step config = max 1 (config.chunk_size_chars - config.chunk_overlap_chars)

module _ (sha256 : Text → String) (config : BasicChunkerConfig) (content : Text) where
  -- The slice that the loop takes at `start`.
  abbrev pub chunk_at : ℕ → ℕ → ChunkRecord
  chunk_at index start =
      let end = min (length content) (start + config.chunk_size_chars) in
      record {
        chunk_index = index;
        content = slice content start end;
        content_hash = sha256 (slice content start end);
      }

  -- The `while` loop; `none` means that the fuel ran out.
  chunk_from : ℕ → ℕ → ℕ → Option (List ChunkRecord)
  chunk_from zero start index = none
  chunk_from (suc fuel) start index =
      let end = min (length content) (start + config.chunk_size_chars) in
      let rest = chunk_from fuel (start + chunk_step config) (suc index) in
      if ltb start (length content)
      then (if leb (length content) end
          then some (chunk_at index start ∷ [])
          else Option.map (λ cs. chunk_at index start ∷ cs) rest)
      else some []

  unfoldable pub chunk : Option (List ChunkRecord)
  unfolding chunk_from
  chunk = if is_blank content then some [] else chunk_from (suc (length content)) 0 0
