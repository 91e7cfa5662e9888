-- ===== src/Retrieval/Budget.antt =====
-- The budget of a retrieval: `applyRetrievalBudget` of
-- vscode-extension/src/local/retrieval/retrievalBudget.ts. The two maps by file id are tables, the
-- set of reasons a list without repetition. A round is one run of the inner `for`, and the outer
-- `while` takes fuel: each round but the last selects a chunk, so one more round than the largest
-- number of chunks is enough (Budget/Rounds).
pub mod Invariant
pub mod Rounds
pub mod Result
mod Tests
use shared_dev_context_layer.Base.{
  ℕ, zero, suc, ◌+◌, String, Bool, true, false, ◌||◌, Option, none, some, List, [], ◌∷◌, ◌++◌, map,
  ltb, leb, if◌then◌else◌, length, get_elem?, take, any, string_Eq,
}
use mathlib.Core.Option
use shared_dev_context_layer.Base.Table.{lookup, insert}
use shared_dev_context_layer.Retrieval.Types.{
  RetrievedChunk, RankedFileCandidate, TruncationReason, max_files, max_chunks_per_file,
  max_total_chars, max_chunks, RetrievalBudgetStats,
}

-- DEFAULT_RETRIEVAL_BUDGET
abbrev pub file_limit : ℕ
file_limit = 5

abbrev pub chunk_limit : ℕ
chunk_limit = 8

abbrev pub chunk_limit_per_file : ℕ
chunk_limit_per_file = 3

abbrev pub char_limit : ℕ
char_limit = 6000

pub record BudgetedRetrievalResult : Type 0 where
  pub candidate_files : List String
  pub selected_chunks : List RetrievedChunk
  pub budget_stats : RetrievalBudgetStats

-- The local variables of the two loops.
pub record BudgetState : Type 0 where
  pub selected_chunks : List RetrievedChunk
  pub selected_by_file : List (String × ℕ)
  pub cursors : List (String × ℕ)
  pub selected_chars : ℕ
  pub truncated : Bool
  pub truncation_reasons : List TruncationReason

abbrev pub same_reason : TruncationReason → TruncationReason → Bool
same_reason max_files max_files = true
same_reason max_chunks_per_file max_chunks_per_file = true
same_reason max_total_chars max_total_chars = true
same_reason max_chunks max_chunks = true
same_reason _ _ = false

-- `truncationReasons.add`
add_reason : TruncationReason → List TruncationReason → List TruncationReason
add_reason r rs = if any (same_reason r) rs then rs else rs ++ r ∷ []

-- `map.get(id) ?? 0`
abbrev count_or_zero : Option ℕ → ℕ
count_or_zero none = 0
count_or_zero (some n) = n

abbrev pub count_of : String → List (String × ℕ) → ℕ
count_of id m = count_or_zero (lookup id m)

-- How the inner loop goes on after a file.
pub data Turn : Type 0 where
  passed : Turn  -- `continue`
  took : Turn  -- a chunk was selected
  filled : Turn  -- a chunk was selected, and `break`

-- The body of the inner loop once the chunk at the cursor is known.
offer : RankedFileCandidate → ℕ → RetrievedChunk → BudgetState → BudgetState × Turn
unfolding add_reason
offer file cursor chunk s =
    let moved = record s { cursors = insert file.file_id (suc cursor) s.cursors } in
    if ltb char_limit (s.selected_chars + length chunk.content)
    then (
      record moved {
        truncated = true;
        truncation_reasons = add_reason max_total_chars s.truncation_reasons;
      },
      passed,
    )
    else (let pushed = record moved {
      selected_chunks = s.selected_chunks ++ chunk ∷ [];
      selected_by_file =
          insert file.file_id (suc (count_of file.file_id s.selected_by_file)) s.selected_by_file;
      selected_chars = s.selected_chars + length chunk.content;
    } in
        if leb chunk_limit (length pushed.selected_chunks)
        then (
          record pushed {
            truncated = s.truncated || ltb (cursor + 1) (length file.chunks);
            truncation_reasons = add_reason max_chunks s.truncation_reasons;
          },
          filled,
        )
        else (pushed, took))

at_cursor : RankedFileCandidate → ℕ → Option RetrievedChunk → BudgetState → BudgetState × Turn
at_cursor file cursor none s = (s, passed)
at_cursor file cursor (some chunk) s = offer file cursor chunk s

pub visit_file : RankedFileCandidate → BudgetState → BudgetState × Turn
unfolding at_cursor add_reason
visit_file file s =
    if leb chunk_limit_per_file (count_of file.file_id s.selected_by_file)
    then (
      record s { truncation_reasons = add_reason max_chunks_per_file s.truncation_reasons },
      passed,
    )
    else (let cursor = count_of file.file_id s.cursors in
        at_cursor file cursor (get_elem? file.chunks cursor) s)

-- The inner loop; the second component is `progressed`.
run_round : List RankedFileCandidate → BudgetState → Bool → BudgetState × Bool
run_round [] s progressed = (s, progressed)
run_round (file ∷ files) s progressed =
    let (s', turn) = visit_file file s in
    elim turn [
      | passed ↦ run_round files s' progressed
      | took ↦ run_round files s' true
      | filled ↦ (s', true)
    ]

-- The outer loop; `none` means that the fuel ran out.
pub run_rounds : ℕ → List RankedFileCandidate → BudgetState → Option BudgetState
run_rounds zero files s = none
run_rounds (suc fuel) files s =
    let (s', progressed) = run_round files s false in
    let rest = run_rounds fuel files s' in
    if ltb (length s.selected_chunks) chunk_limit
    then (if progressed then rest else some s')
    else some s

abbrev pub rounds : ℕ
rounds = 9

-- `new Map(limitedFiles.map((file) => [file.file_id, 0]))`
pub zero_cursors : List RankedFileCandidate → List (String × ℕ) → List (String × ℕ)
zero_cursors [] m = m
zero_cursors (file ∷ files) m = zero_cursors files (insert file.file_id 0 m)

initial_state : List RankedFileCandidate → List RankedFileCandidate → BudgetState
initial_state files limited = record {
  selected_chunks = [];
  selected_by_file = [];
  cursors = zero_cursors limited [];
  selected_chars = 0;
  truncated = ltb (length limited) (length files);
  truncation_reasons = if ltb (length limited) (length files) then max_files ∷ [] else [];
}

short_of : List (String × ℕ) → RankedFileCandidate → Bool
short_of by_file file = ltb (count_of file.file_id by_file) (length file.chunks)

budget_result : List RankedFileCandidate → BudgetState → BudgetedRetrievalResult
unfolding short_of
budget_result limited s =
    let truncated = s.truncated || any (short_of s.selected_by_file) limited in
    record {
      candidate_files = map (λ file. file.file_path) limited;
      selected_chunks = s.selected_chunks;
      budget_stats = record {
        selected_files = length limited;
        selected_chunks = length s.selected_chunks;
        selected_chars = s.selected_chars;
        truncated = truncated;
        truncation_reasons = s.truncation_reasons;
      };
    }

unfoldable pub apply_retrieval_budget : List RankedFileCandidate → Option BudgetedRetrievalResult
unfolding initial_state budget_result
apply_retrieval_budget files =
    let limited = take file_limit files in
    Option.map (budget_result limited) (run_rounds rounds limited (initial_state files limited))
