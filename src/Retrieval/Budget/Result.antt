-- ===== src/Retrieval/Budget/Result.antt =====
-- The result of the budget: it exists, it stays within every cap, and its statistics are true.
use shared_dev_context_layer.Base.{
  ℕ, ◌≤◌, String, ◌≡◌, refl, true, false, ◌||◌, some, List, [], ◌∷◌, map, arith, length, take,
  length-take, All, any, Bool-cases, ◌⊎◌, inl, inr, ltb,
}
use shared_dev_context_layer.Base.Table.{lookup}
use shared_dev_context_layer.Retrieval.Types.{RankedFileCandidate}
use shared_dev_context_layer.Retrieval.Budget.{
  BudgetState, BudgetedRetrievalResult, file_limit, chunk_limit, char_limit, chunk_limit_per_file,
  count_of, initial_state, short_of, budget_result, rounds, apply_retrieval_budget,
}
use shared_dev_context_layer.Retrieval.Budget.Invariant.{BudgetInv, total_chars, FromFiles}
use shared_dev_context_layer.Retrieval.Budget.Rounds.{run_rounds_total}

-- Within every cap, with true counts, and made of chunks of the best-ranked files only.
pub record WithinBudget (files : List RankedFileCandidate) (r : BudgetedRetrievalResult)
    : Type 0 where
  pub few_files : length r.candidate_files ≤ file_limit
  pub few_chunks : length r.selected_chunks ≤ chunk_limit
  pub few_chars : total_chars r.selected_chunks ≤ char_limit
  pub the_best : r.candidate_files ≡ map (λ f. f.file_path) (take file_limit files)
  pub sources : All (FromFiles (take file_limit files)) r.selected_chunks
  pub files_counted : r.budget_stats.selected_files ≡ length r.candidate_files
  pub chunks_counted : r.budget_stats.selected_chunks ≡ length r.selected_chunks
  pub chars_counted : r.budget_stats.selected_chars ≡ total_chars r.selected_chunks
  -- what is not reported as truncated is not: no file left out, and none with chunks that could
  -- not have been taken
  pub honest :
      (r.budget_stats.truncated ≡ true)
      ⊎ ((length files ≤ file_limit)
          × All (λ f. length f.chunks ≤ chunk_limit_per_file) (take file_limit files))

length-map : (fs : List RankedFileCandidate) → length (map (λ f. f.file_path) fs) ≡ length fs
length-map [] = refl
length-map (f ∷ fs) = omega (arith, length-map fs)

initial-BudgetInv :
    (files limited : List RankedFileCandidate)
    → BudgetInv limited (ltb (length limited) (length files)) (initial_state files limited)
unfolding initial_state lookup
initial-BudgetInv files limited = record {
  counted = refl;
  chars_capped = omega arith;
  chunks_capped = omega arith;
  file_capped = λ id. omega arith;
  from_files = tt;
  flagged = λ e. e;
}

none_short :
    (by_file : List (String × ℕ)) (fs : List RankedFileCandidate)
    → ((id : String) → count_of id by_file ≤ chunk_limit_per_file)
    → any (short_of by_file) fs ≡ false
    → All (λ f. length f.chunks ≤ chunk_limit_per_file) fs
unfolding short_of
none_short by_file [] cap h = tt
none_short by_file (f ∷ fs) cap h =
    (ground (arith, cap f.file_id), none_short by_file fs cap (ground arith))

budget_result-WithinBudget :
    (files : List RankedFileCandidate) (s : BudgetState)
    → BudgetInv (take file_limit files) (ltb (length (take file_limit files)) (length files)) s
    → WithinBudget files (budget_result (take file_limit files) s)
unfolding budget_result
budget_result-WithinBudget files s inv =
    let paths = length-map (take file_limit files) in
    let taken = length-take file_limit files in
    let truncated = s.truncated || any (short_of s.selected_by_file) (take file_limit files) in
    record {
      few_files = omega arith;
      few_chunks = inv.chunks_capped;
      few_chars = omega (arith, inv.counted, inv.chars_capped);
      the_best = refl;
      sources = inv.from_files;
      files_counted = omega arith;
      chunks_counted = refl;
      chars_counted = inv.counted;
      honest = elim (Bool-cases truncated) [
        | inl cut ↦ inl cut
        | inr whole ↦ inr (
          ground (arith, inv.flagged),
          none_short s.selected_by_file (take file_limit files) inv.file_capped (ground arith),
        )
      ];
    }

-- For every list of ranked files the budget ends and gives a result: at most 5 files, the first of
-- the list, 8 chunks and 6000 characters, all chunks being chunks of those files; the counts in the
-- statistics are those of the result; and when it is not marked as truncated, there were at most 5
-- files and none of them has more than 3 chunks.
pub apply_retrieval_budget-WithinBudget :
    (files : List RankedFileCandidate)
    → (r : BudgetedRetrievalResult) × (apply_retrieval_budget files ≡ some r) × WithinBudget files r
unfolding apply_retrieval_budget
apply_retrieval_budget-WithinBudget files =
    let limited = take file_limit files in
    let (s, ended, inv) =
      run_rounds_total limited (ltb (length limited) (length files)) rounds
        (initial_state files limited) (unfold initial_state in omega arith)
        (initial-BudgetInv files limited) in
    (budget_result limited s, rw ended, budget_result-WithinBudget files s inv)
