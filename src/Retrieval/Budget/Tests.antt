-- ===== src/Retrieval/Budget/Tests.antt =====
-- The budget on concrete files.
use shared_dev_context_layer.Base.{
  ℕ, zero, suc, String, ◌≡◌, refl, Bool, true, none, some, List, [], ◌∷◌, map,
}
use mathlib.Core.Option
use shared_dev_context_layer.Base.Int.{pos}
use shared_dev_context_layer.Base.Table.{lookup, insert}
use shared_dev_context_layer.Retrieval.Types.{
  RankedFileCandidate, RetrievedChunk, TruncationReason, max_chunks_per_file,
}
use shared_dev_context_layer.Retrieval.Budget.{
  BudgetedRetrievalResult, apply_retrieval_budget, run_rounds, run_round, visit_file, at_cursor,
  offer, zero_cursors,
}
use shared_dev_context_layer.Retrieval.Budget.Result.{
  WithinBudget, apply_retrieval_budget-WithinBudget,
}

abbrev spaces : ℕ → List ℕ
spaces zero = []
spaces (suc n) = b' ' ∷ spaces n

abbrev chunk : String → ℕ → ℕ → RetrievedChunk
chunk path index size = record {
  file_path = path;
  chunk_index = index;
  content = spaces size;
  content_hash = none;
  coarse_score = pos 1;
  score = pos 1;
  evidence = [];
}

abbrev file : String → List RetrievedChunk → RankedFileCandidate
file path chunks = record {
  file_id = path;
  file_path = path;
  score = pos 1;
  reasons = [];
  chunks = chunks;
}

abbrev sample : List RankedFileCandidate
sample =
    file "a" (chunk "a" 0 10 ∷ chunk "a" 1 10 ∷ chunk "a" 2 10 ∷ chunk "a" 3 10 ∷ [])
    ∷ file "b" (chunk "b" 0 10 ∷ [])
    ∷ []

-- Round robin: a0 b0 a1 a2, then the cap of three per file.
order :
    Option.map
      (λ r. map {B = String × ℕ} (λ c. (c.file_path, c.chunk_index)) r.selected_chunks)
      (apply_retrieval_budget sample)
    ≡ some (("a", 0) ∷ ("b", 0) ∷ ("a", 1) ∷ ("a", 2) ∷ [])
unfolding apply_retrieval_budget run_rounds run_round visit_file at_cursor offer zero_cursors insert
    lookup
order = refl

reasons :
    Option.map {B = Bool × List TruncationReason}
      (λ r. (r.budget_stats.truncated, r.budget_stats.truncation_reasons))
      (apply_retrieval_budget sample)
    ≡ some (true, max_chunks_per_file ∷ [])
unfolding apply_retrieval_budget run_rounds run_round visit_file at_cursor offer zero_cursors insert
    lookup
reasons = refl

apply_retrieval_budget-WithinBudget_example :
    (r : BudgetedRetrievalResult) × (apply_retrieval_budget sample ≡ some r) × WithinBudget sample r
apply_retrieval_budget-WithinBudget_example = apply_retrieval_budget-WithinBudget sample
