-- ===== src/Persistence/Idempotency/Finality.antt =====
-- A command is finished once: its record is final, and a claim that was taken over is worthless.
use shared_dev_context_layer.Base.{
  ℕ, ◌+◌, ◌≤◌, String, ◌≡◌, refl, ◌⊎◌, inl, inr, Bool, true, false, Option, none, some, List, [],
  ◌∷◌, arith, if◌then◌else◌, ◌∙◌, Bool-cases,
}
use shared_dev_context_layer.Base.Table.{lookup}
use shared_dev_context_layer.Persistence.Idempotency.{
  CommandKey, command_key_Eq, ClaimRow, ClaimTable, RecordStatus, completed, failed, Statement,
  insert_stmt, reclaim_stmt, renew_stmt, complete_stmt, fail_stmt, save_stmt, at_key, owned,
  completed_row, failed_row, execute, execute_all,
}
use shared_dev_context_layer.Persistence.Idempotency.Record.{
  record_step, AllAt, AllAnswers, execute_all_keep, execute_same, same_key,
}

abbrev pub IsFinal : RecordStatus → Type 0
IsFinal s = (s ≡ completed) ⊎ (s ≡ failed)

-- The statement is not one of `saveIdempotentResult`, which writes without a claim.
abbrev pub ByClaim : Statement → Type 0
ByClaim (save_stmt i) = ⊥
ByClaim _ = Unit

-- The claim id that a statement presents.
abbrev pub claim_of : Statement → Option String
claim_of (insert_stmt i) = some i.claim_id
claim_of (reclaim_stmt i) = some i.claim_id
claim_of (renew_stmt i) = some i.claim_id
claim_of (complete_stmt i) = some i.claim_id
claim_of (fail_stmt i) = some i.claim_id
claim_of (save_stmt i) = none

final_step :
    (row : ClaimRow)
    → IsFinal row.status
    → (now : ℕ) (s : Statement) (o : Option ClaimRow) → o ≡ some row
    → ByClaim s
    → ((record_step now s o).0 ≡ some row) × ((record_step now s o).1 ≡ false)
unfolding record_step
final_step row final now (insert_stmt i) o here by_claim = ground arith
final_step row final now (reclaim_stmt i) o here by_claim = ground arith
final_step row final now (renew_stmt i) o here by_claim = ground arith
final_step row final now (complete_stmt i) o here by_claim = ground arith
final_step row final now (fail_stmt i) o here by_claim = ground arith
final_step row final now (save_stmt i) o here by_claim = absurd by_claim

-- A completed or failed record is final: through any sequence of claims, takeovers, renewals and
-- finishes by anybody it stays as it is, answer included, and each of them at its key is refused.
pub finished-IsFinal :
    (k : CommandKey) (row : ClaimRow) (ss : List (ℕ × Statement)) (t : ClaimTable)
    → lookup k t ≡ some row
    → IsFinal row.status
    → AllAt k (λ now s. ByClaim s) ss
    → (lookup k (execute_all ss t).0 ≡ some row)
      × AllAnswers k (λ s answer. answer ≡ false) ss (execute_all ss t).1
finished-IsFinal k row ss t here final by_claim =
    execute_all_keep k (λ o. o ≡ some row) (λ now s. ByClaim s) (λ s answer. answer ≡ false)
      (final_step row final) ss t here by_claim

-- A granted finish.
abbrev finish : Statement → Bool → ℕ
finish (complete_stmt i) true = 1
finish (fail_stmt i) true = 1
finish _ _ = 0

-- How many of the completions and failures at key `k` were granted.
abbrev pub finishes : CommandKey → List (ℕ × Statement) → List Bool → ℕ
finishes k [] _ = 0
finishes k (_ ∷ _) [] = 0
finishes k ((now, s) ∷ ss) (answer ∷ answers) =
    (if command_key_Eq.equals (at_key s) k then finish s answer else 0) + finishes k ss answers

finish-le-one : (s : Statement) (answer : Bool) → finish s answer ≤ 1
finish-le-one (complete_stmt i) answer = ground arith
finish-le-one (fail_stmt i) answer = ground arith
finish-le-one _ answer = omega arith

finish-false : (s : Statement) → finish s false ≡ 0
finish-false (complete_stmt i) = refl
finish-false _ = refl

finishes_of_refused :
    (k : CommandKey) (ss : List (ℕ × Statement)) (answers : List Bool)
    → AllAnswers k (λ s answer. answer ≡ false) ss answers
    → finishes k ss answers ≡ 0
finishes_of_refused k [] answers h = refl
finishes_of_refused k ((now, s) ∷ ss) [] h = refl
finishes_of_refused k ((now, s) ∷ ss) (true ∷ answers) (no_answer, rest) =
    ground (arith, command_key_Eq.equals_iff (at_key s) k, finishes_of_refused k ss answers rest)
finishes_of_refused k ((now, s) ∷ ss) (false ∷ answers) (no_answer, rest) =
    ground (arith, finish-false s, finishes_of_refused k ss answers rest)

finish_step :
    (now : ℕ) (s : Statement) (o : Option ClaimRow)
    → (finish s (record_step now s o).1 ≡ 0)
      ⊎ ((row : ClaimRow) × ((record_step now s o).0 ≡ some row) × IsFinal row.status)
unfolding record_step
finish_step now (complete_stmt i) none = inl refl
finish_step now (complete_stmt i) (some row) = elim (Bool-cases (owned i.claim_id row)) [
  | inl mine ↦ inr (completed_row now i row, rw mine, inl refl)
  | inr no_claim ↦ inl (rw no_claim)
]
finish_step now (fail_stmt i) none = inl refl
finish_step now (fail_stmt i) (some row) = elim (Bool-cases (owned i.claim_id row)) [
  | inl mine ↦ inr (failed_row now i row, rw mine, inr refl)
  | inr no_claim ↦ inl (rw no_claim)
]
finish_step now _ o = inl refl

-- However claims, takeovers, renewals and finishes of any clients follow each other, at most one
-- completion or failure of a command is ever granted.
pub finishes-le-one :
    (k : CommandKey) (ss : List (ℕ × Statement)) (t : ClaimTable)
    → AllAt k (λ now s. ByClaim s) ss
    → finishes k ss (execute_all ss t).1 ≤ 1
unfolding execute_all
finishes-le-one k [] t by_claim = omega arith
finishes-le-one k ((now, s) ∷ ss) t (here, later) = elim (same_key k s) [
  | inl mine ↦
      let (answer, row) = execute_same k now t s mine in
      elim (finish_step now s (lookup k t)) [
        | inl zero_finish ↦
            rw ((command_key_Eq.equals_iff (at_key s) k).1 mine, answer, zero_finish)
              (omega (arith, finishes-le-one k ss (execute now s t).0 later))
        | inr (final_row, now_final, final) ↦
            let (_, all_refused) =
              finished-IsFinal k final_row ss (execute now s t).0 (row ∙ now_final) final later in
            ground (
              arith,
              finish-le-one s (execute now s t).1,
              finishes_of_refused k ss (execute_all ss (execute now s t).0).1 all_refused,
            )
      ]
  | inr other ↦ ground (
    arith,
    command_key_Eq.equals_iff (at_key s) k,
    finishes-le-one k ss (execute now s t).0 later,
  )
]
