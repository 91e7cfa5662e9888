-- ===== src/Retrieval/Budget/Rounds.antt =====
-- The two loops: every round that goes on selects a chunk, so the fuel suffices and the caps hold.
use shared_dev_context_layer.Base.{
  ℕ, zero, suc, ◌+◌, ◌≤◌, ◌<◌, ◌≡◌, refl, ◌⊎◌, inl, inr, Bool, true, false, some, List, [], ◌∷◌,
  arith, length, Bool-cases, ltb, ltb→lt,
}
use mathlib.Core.List.{Memᴰ}
use shared_dev_context_layer.Retrieval.Types.{RankedFileCandidate}
use shared_dev_context_layer.Retrieval.Budget.{
  BudgetState, Turn, passed, took, filled, chunk_limit, visit_file, run_round, run_rounds,
}
use shared_dev_context_layer.Retrieval.Budget.Invariant.{BudgetInv, Selects, visit_file-BudgetInv}

-- A round, or its rest, leaves the invariant, selects no fewer chunks, and reports progress only if
-- it selected one or there was some before.
abbrev RoundOk : List RankedFileCandidate → Bool → BudgetState → Bool → BudgetState × Bool → Type 0
RoundOk files cut s before (s', progressed) =
    BudgetInv files cut s'
    × (length s.selected_chunks ≤ length s'.selected_chunks)
    × (progressed ≡ true → (before ≡ true) ⊎ (length s.selected_chunks < length s'.selected_chunks))

module _ (files : List RankedFileCandidate) (cut : Bool) where
  after_turn :
      (rest : List RankedFileCandidate) (s s' : BudgetState) (turn : Turn) (before : Bool)
      → ((b : Bool)
          → length s'.selected_chunks < chunk_limit
          → RoundOk files cut s' b (run_round rest s' b))
      → length s.selected_chunks < chunk_limit
      → BudgetInv files cut s'
      → Selects turn (length s.selected_chunks) (length s'.selected_chunks)
      → RoundOk files cut s before (elim turn [
        | passed ↦ run_round rest s' before
        | took ↦ run_round rest s' true
        | filled ↦ (s', true)
      ])
  after_turn rest s s' passed before later room inv selects =
      let (kept, more, progress) = later before (omega arith) in
      (kept, omega arith, λ e. ground (arith, progress e))
  after_turn rest s s' took before later room inv selects =
      let (kept, more, progress) = later true selects.1 in
      (kept, omega arith, λ e. inr (omega arith))
  after_turn rest s s' filled before later room inv selects =
      (inv, omega arith, λ e. inr (omega arith))

  round_ok :
      (rest : List RankedFileCandidate) (s : BudgetState) (before : Bool)
      → ((f : RankedFileCandidate) → Memᴰ f rest → Memᴰ f files)
      → BudgetInv files cut s
      → length s.selected_chunks < chunk_limit
      → RoundOk files cut s before (run_round rest s before)
  unfolding run_round
  round_ok [] s before sub inv room = (inv, omega arith, λ e. inl e)
  round_ok (file ∷ rest) s before sub inv room =
      let (kept, selects) =
        visit_file-BudgetInv files cut file s inv room (sub file (Memᴰ.head refl)) in
      after_turn rest s (visit_file file s).0 (visit_file file s).1 before
        (λ b room'. round_ok rest (visit_file file s).0 b (λ f m. sub f (Memᴰ.tail m)) kept room')
        room kept selects

  -- With more fuel than the chunks that may still be selected the loop ends, in a good state.
  pub run_rounds_total :
      (fuel : ℕ) (s : BudgetState)
      → chunk_limit < fuel + length s.selected_chunks
      → BudgetInv files cut s
      → (s' : BudgetState) × (run_rounds fuel files s ≡ some s') × BudgetInv files cut s'
  unfolding run_rounds
  run_rounds_total zero s enough inv = absurd (omega (arith, inv.chunks_capped))
  run_rounds_total (suc fuel) s enough inv =
      elim (Bool-cases (ltb (length s.selected_chunks) chunk_limit)) [
        | inl room ↦
            let (kept, more, progress) = round_ok files s false (λ f m. m) inv (ltb→lt _ _ room) in
            elim (Bool-cases (run_round files s false).1) [
              | inl went_on ↦
                  rw (room, went_on)
                    (run_rounds_total fuel (run_round files s false).0
                      (ground (arith, progress went_on)) kept)
              | inr stopped ↦ rw (room, stopped) ((run_round files s false).0, refl, kept)
            ]
        | inr full ↦ rw full (s, refl, inv)
      ]
