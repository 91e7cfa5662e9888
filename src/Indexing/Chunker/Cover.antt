-- ===== src/Indexing/Chunker/Cover.antt =====
-- The chunks of a content: they exist, and they cover it.
use shared_dev_context_layer.Base.{
  ℕ, zero, suc, ◌+◌, ◌-◌, ◌≤◌, ◌<◌, String, ◌≡◌, refl, ◌∙◌, ap, sym, ◌⊎◌, false, some, List, [],
  ◌∷◌, ◌++◌, min, arith, length, take, drop, length-drop, take-append-drop, Bool-cases, inl, inr,
  ltb, leb, leb→le, leb→lt,
}
use shared_dev_context_layer.Base.Text.{Text, is_blank, slice, take_all, take-take, drop-drop}
use shared_dev_context_layer.Indexing.Chunker.{
  ChunkRecord, BasicChunkerConfig, chunk_step, chunk_at, chunk_from, chunk,
}

-- The content that chunks stand for: of each but the last the first `step` characters.
abbrev pub rebuild : ℕ → List ChunkRecord → Text
rebuild step [] = []
rebuild step (c ∷ []) = c.content
rebuild step (c ∷ d ∷ cs) = take step c.content ++ rebuild step (d ∷ cs)

module _ (sha256 : Text → String) (config : BasicChunkerConfig) (content : Text) where
  -- The chunks are numbered on from `index` and stand one step apart from `start` on.
  abbrev pub Placed : ℕ → ℕ → List ChunkRecord → Type 0
  Placed index start [] = Unit
  Placed index start (c ∷ cs) =
      (c.chunk_index ≡ index)
      × (c.content ≡ take config.chunk_size_chars (drop start content))
      × (c.content_hash ≡ sha256 c.content)
      × Placed (suc index) (start + chunk_step config) cs

  chunk_at-content :
      (index start : ℕ)
      → start ≤ length content
      → (chunk_at sha256 config content index start).content
        ≡ take config.chunk_size_chars (drop start content)
  chunk_at-content index start inside =
      elim (le_or_lt (start + config.chunk_size_chars) (length content)) [
        | inl short ↦
            let whole : min (length content) (start + config.chunk_size_chars) - start
                ≡ config.chunk_size_chars =
              omega arith in
            rw whole refl
        | inr long ↦
            take_all (min (length content) (start + config.chunk_size_chars) - start)
              (drop start content) (omega (arith, length-drop start content))
            ∙ sym (
                take_all config.chunk_size_chars (drop start content)
                  (omega (arith, length-drop start content)))
      ]
    where
      le_or_lt : (m n : ℕ) → (m ≤ n) ⊎ (n < m)
      le_or_lt m n = ground arith

  -- Before a chunk that is not the last, the rest follows its first `step` characters.
  rebuild-cons :
      (c : ChunkRecord) (cs : List ChunkRecord) (rest : Text)
      → rebuild (chunk_step config) cs ≡ rest
      → 0 < length rest
      → rebuild (chunk_step config) (c ∷ cs) ≡ take (chunk_step config) c.content ++ rest
  rebuild-cons c [] rest h more = absurd (omega (arith, ap length h))
  rebuild-cons c (d ∷ cs) rest h more = rw h

  -- A chunk that does not reach the end, with what the next step finds.
  step_covers :
      (start : ℕ)
      → 0 < config.chunk_size_chars
      → start + config.chunk_size_chars < length content
      → take
            (chunk_step config)
            (slice content start (min (length content) (start + config.chunk_size_chars)))
          ++ drop (start + chunk_step config) content
        ≡ drop start content
  step_covers start positive inside =
      let whole : min (length content) (start + config.chunk_size_chars) - start
          ≡ config.chunk_size_chars =
        omega arith in
      rw
        (
          whole,
          take-take (chunk_step config) config.chunk_size_chars (drop start content) (omega arith),
          ← drop-drop start (chunk_step config) content,
        )
        (take-append-drop (chunk_step config) (drop start content))

  chunk_from-Placed :
      (fuel start index : ℕ)
      → length content < fuel + start
      → start ≤ length content
      → (cs : List ChunkRecord) × (chunk_from sha256 config content fuel start index ≡ some cs)
        × Placed index start cs
        × (0 < config.chunk_size_chars → rebuild (chunk_step config) cs ≡ drop start content)
  unfolding chunk_from
  chunk_from-Placed zero start index enough inside = absurd (omega arith)
  chunk_from-Placed (suc fuel) start index enough inside =
      let end = min (length content) (start + config.chunk_size_chars) in
      elim (Bool-cases (ltb start (length content))) [
        | inl more ↦ elim (Bool-cases (leb (length content) end)) [
          | inl last ↦
              rw (more, last)
                (
                  chunk_at sha256 config content index start ∷ [],
                  refl,
                  (refl, chunk_at-content index start inside, refl, tt),
                  λ _.
                      take_all (end - start) (drop start content)
                        (omega (arith, length-drop start content, leb→le _ _ last)),
                )
          | inr further ↦
              let (cs, ended, placed, covers) =
                chunk_from-Placed fuel (start + chunk_step config) (suc index) (omega arith)
                  (omega (arith, leb→lt _ _ further)) in
              rw (more, further, ended)
                (
                  chunk_at sha256 config content index start ∷ cs,
                  refl,
                  (refl, chunk_at-content index start inside, refl, placed),
                  λ positive.
                      rebuild-cons (chunk_at sha256 config content index start) cs
                        (drop (start + chunk_step config) content) (covers positive)
                        (omega (
                          arith,
                          length-drop (start + chunk_step config) content,
                          leb→lt _ _ further,
                        ))
                      ∙ step_covers start positive (omega (arith, leb→lt _ _ further)),
                )
        ]
        | inr over ↦ rw over (
          [],
          refl,
          tt,
          λ _. take_all 0 (drop start content) (ground (arith, length-drop start content)),
        )
      ]

-- For a positive chunk size, every content that is not blank is cut into chunks that are numbered
-- from 0 on, of which the i-th has what stands at i steps in the content, up to the chunk size, and
-- the hash of just that; they cover the content: the first `step` characters of each chunk, and all
-- of the last, make up the content again.
pub chunk_covers :
    (sha256 : Text → String) (config : BasicChunkerConfig) (content : Text)
    → is_blank content ≡ false
    → 0 < config.chunk_size_chars
    → (cs : List ChunkRecord) × (chunk sha256 config content ≡ some cs)
      × Placed sha256 config content 0 0 cs
      × (rebuild (chunk_step config) cs ≡ content)
unfolding chunk
chunk_covers sha256 config content filled positive =
    let (cs, ended, placed, covers) =
      chunk_from-Placed sha256 config content (suc (length content)) 0 0 (omega arith)
        (omega arith) in
    rw filled (cs, ended, placed, covers positive)

-- Whatever the configuration, a chunk size of 0 included, the loop ends.
pub chunk_total :
    (sha256 : Text → String) (config : BasicChunkerConfig) (content : Text)
    → (cs : List ChunkRecord) × (chunk sha256 config content ≡ some cs)
unfolding chunk
chunk_total sha256 config content =
    let (cs, ended, _, _) =
      chunk_from-Placed sha256 config content (suc (length content)) 0 0 (omega arith)
        (omega arith) in
    elim (Bool-cases (is_blank content)) [
      | inl blank ↦ rw blank ([], refl)
      | inr filled ↦ rw filled (cs, ended)
    ]
