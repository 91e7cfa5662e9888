-- ===== src/Indexing/Chunker/Tests.antt =====
-- The chunker on concrete contents.
use shared_dev_context_layer.Base.{String, ◌≡◌, refl, false, some, List, [], ◌∷◌, map, arith}
use mathlib.Core.Option
use shared_dev_context_layer.Base.Text.{Text, is_blank}
use shared_dev_context_layer.Indexing.Chunker.{
  ChunkRecord, BasicChunkerConfig, chunk_step, chunk_from, chunk,
}
use shared_dev_context_layer.Indexing.Chunker.Cover.{Placed, rebuild, chunk_covers, chunk_total}

abbrev no_hash : Text → String
no_hash t = "hash"

abbrev four_by_one : BasicChunkerConfig
four_by_one = record { chunk_size_chars = 4; chunk_overlap_chars = 1 }

abbrev letters : Text
letters = 97 ∷ 98 ∷ 99 ∷ 100 ∷ 101 ∷ 102 ∷ 103 ∷ 104 ∷ []

chunk-letters :
    Option.map {B = List Text} (map (λ c. c.content)) (chunk no_hash four_by_one letters)
    ≡ some ((97 ∷ 98 ∷ 99 ∷ 100 ∷ []) ∷ (100 ∷ 101 ∷ 102 ∷ 103 ∷ []) ∷ (103 ∷ 104 ∷ []) ∷ [])
unfolding chunk chunk_from is_blank
chunk-letters = refl

letters_filled : is_blank letters ≡ false
unfolding is_blank
letters_filled = refl

chunk_covers_example :
    (cs : List ChunkRecord) × (chunk no_hash four_by_one letters ≡ some cs)
    × Placed no_hash four_by_one letters 0 0 cs
    × (rebuild (chunk_step four_by_one) cs ≡ letters)
chunk_covers_example = chunk_covers no_hash four_by_one letters letters_filled (omega arith)

chunk_total_example : (cs : List ChunkRecord) × (chunk no_hash four_by_one letters ≡ some cs)
chunk_total_example = chunk_total no_hash four_by_one letters
