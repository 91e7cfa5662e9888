-- ===== src/Retrieval/Budget/Invariant.antt =====
-- What every state of the budget loop satisfies: the three caps, and where the chunks come from.
use shared_dev_context_layer.Base.{
  ℕ, suc, ◌+◌, ◌≤◌, ◌<◌, String, ◌≡◌, refl, Bool, true, ◌||◌, Option, none, some, List, [], ◌∷◌,
  ◌++◌, arith, length, get_elem?, All, All-push, length-push, Bool-cases, inl, inr, leb, ltb,
  leb→lt, string_Eq,
}
use mathlib.Core.List.{Memᴰ}
use shared_dev_context_layer.Base.Table.{insert, lookup-insert}
use shared_dev_context_layer.Retrieval.Types.{RetrievedChunk, RankedFileCandidate}
use shared_dev_context_layer.Retrieval.Budget.{
  BudgetState, Turn, passed, took, filled, chunk_limit, chunk_limit_per_file, char_limit, count_of,
  offer, at_cursor, visit_file,
}

abbrev pub total_chars : List RetrievedChunk → ℕ
total_chars [] = 0
total_chars (c ∷ cs) = length c.content + total_chars cs

pub total_chars-push :
    (cs : List RetrievedChunk) (c : RetrievedChunk)
    → total_chars (cs ++ c ∷ []) ≡ total_chars cs + length c.content
total_chars-push [] c = omega arith
total_chars-push (d ∷ cs) c = omega (arith, total_chars-push cs c)

-- A chunk of one of the files.
abbrev pub FromFiles : List RankedFileCandidate → RetrievedChunk → Type 0
FromFiles files c =
    (file : RankedFileCandidate) × Memᴰ file files × ((i : ℕ) × (get_elem? file.chunks i ≡ some c))

-- `cut` says whether files were left out before the loop.
pub record BudgetInv (files : List RankedFileCandidate) (cut : Bool) (s : BudgetState)
    : Type 0 where
  pub counted : s.selected_chars ≡ total_chars s.selected_chunks
  pub chars_capped : s.selected_chars ≤ char_limit
  pub chunks_capped : length s.selected_chunks ≤ chunk_limit
  pub file_capped : (id : String) → count_of id s.selected_by_file ≤ chunk_limit_per_file
  pub from_files : All (FromFiles files) s.selected_chunks
  pub flagged : cut ≡ true → s.truncated ≡ true

-- How a turn changes the number of selected chunks.
abbrev pub Selects : Turn → (before after : ℕ) → Type 0
Selects passed before after = after ≡ before
Selects took before after = (after ≡ suc before) × (after < chunk_limit)
Selects filled before after = (after ≡ suc before) × (after ≡ chunk_limit)

module _ (files : List RankedFileCandidate) (cut : Bool) (file : RankedFileCandidate)
    (s : BudgetState) where
  count_of-insert :
      (id : String)
      → count_of file.file_id s.selected_by_file < chunk_limit_per_file
      → count_of id s.selected_by_file ≤ chunk_limit_per_file
      → count_of id
          (insert file.file_id (suc (count_of file.file_id s.selected_by_file)) s.selected_by_file)
        ≤ chunk_limit_per_file
  count_of-insert id below h =
      rw (lookup-insert file.file_id id _ s.selected_by_file)
        (elim (Bool-cases (string_Eq.equals file.file_id id)) [
          | inl same ↦ rw same below
          | inr other ↦ rw other h
        ])

  offer-BudgetInv :
      (cursor : ℕ) (c : RetrievedChunk)
      → BudgetInv files cut s
      → length s.selected_chunks < chunk_limit
      → count_of file.file_id s.selected_by_file < chunk_limit_per_file
      → FromFiles files c
      → let (s', turn) = offer file cursor c s in
        BudgetInv files cut s' × Selects turn (length s.selected_chunks) (length s'.selected_chunks)
  unfolding offer
  offer-BudgetInv cursor c inv room below source =
      let pushed = length-push s.selected_chunks c in
      let chars = total_chars-push s.selected_chunks c in
      let sources = All-push (FromFiles files) s.selected_chunks inv.from_files source in
      let capped = λ (id : String). count_of-insert id below (inv.file_capped id) in
      let flag : cut ≡ true → (s.truncated || ltb (cursor + 1) (length file.chunks)) ≡ true =
        λ e. rw (inv.flagged e) refl in
      elim (Bool-cases (ltb char_limit (s.selected_chars + length c.content))) [
        | inl big ↦ rw big (
          record {
            counted = inv.counted;
            chars_capped = inv.chars_capped;
            chunks_capped = inv.chunks_capped;
            file_capped = inv.file_capped;
            from_files = inv.from_files;
            flagged = λ _. refl;
          },
          refl,
        )
        | inr fits ↦ elim (Bool-cases (leb chunk_limit (length (s.selected_chunks ++ c ∷ [])))) [
          | inl full ↦
              rw (fits, full)
                (
                  record {
                    counted = omega arith;
                    chars_capped = ground arith;
                    chunks_capped = omega arith;
                    file_capped = capped;
                    from_files = sources;
                    flagged = flag;
                  },
                  ground arith,
                )
          | inr more ↦
              rw (fits, more)
                (
                  record {
                    counted = omega arith;
                    chars_capped = ground arith;
                    chunks_capped = omega arith;
                    file_capped = capped;
                    from_files = sources;
                    flagged = inv.flagged;
                  },
                  ground arith,
                )
        ]
      ]

  at_cursor-BudgetInv :
      (cursor : ℕ) (o : Option RetrievedChunk)
      → get_elem? file.chunks cursor ≡ o
      → BudgetInv files cut s
      → length s.selected_chunks < chunk_limit
      → count_of file.file_id s.selected_by_file < chunk_limit_per_file
      → Memᴰ file files
      → let (s', turn) = at_cursor file cursor o s in
        BudgetInv files cut s' × Selects turn (length s.selected_chunks) (length s'.selected_chunks)
  unfolding at_cursor
  at_cursor-BudgetInv cursor none found inv room below here = (inv, refl)
  at_cursor-BudgetInv cursor (some c) found inv room below here =
      offer-BudgetInv cursor c inv room below (file, here, (cursor, found))

  pub visit_file-BudgetInv :
      BudgetInv files cut s
      → length s.selected_chunks < chunk_limit
      → Memᴰ file files
      → let (s', turn) = visit_file file s in
        BudgetInv files cut s' × Selects turn (length s.selected_chunks) (length s'.selected_chunks)
  unfolding visit_file
  visit_file-BudgetInv inv room here =
      elim (Bool-cases (leb chunk_limit_per_file (count_of file.file_id s.selected_by_file))) [
        | inl full ↦ rw full (
          record {
            counted = inv.counted;
            chars_capped = inv.chars_capped;
            chunks_capped = inv.chunks_capped;
            file_capped = inv.file_capped;
            from_files = inv.from_files;
            flagged = inv.flagged;
          },
          refl,
        )
        | inr below ↦ rw below (at_cursor-BudgetInv _ _ refl inv room (leb→lt _ _ below) here)
      ]
