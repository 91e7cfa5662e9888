-- ===== src/Commands/Errors.antt =====
-- The list of errors in the runtime snapshot stays short.
use shared_dev_context_layer.Base.{
  ℕ, ◌≤◌, ◌-◌, String, Bool, true, false, List, [], ◌∷◌, ◌++◌, length, length-drop, arith,
}
use shared_dev_context_layer.Commands.Types.{ProjectRuntimeSnapshot, LocalCommandResult}
use shared_dev_context_layer.Commands.Session.{Turn, Session}
use shared_dev_context_layer.Commands.Deps.{Deps}
use shared_dev_context_layer.Commands.Reports.{
  pushed, with_environment, with_db_status, slice_last, max_errors,
}
use shared_dev_context_layer.Commands.Run.{local_run_codex}
use shared_dev_context_layer.Commands.Quiet.{IsQuiet}
use shared_dev_context_layer.Commands.Invariant.{IsInvariant}
use shared_dev_context_layer.Commands.Invariant.Writing.{persist_ending-Keeps, any_write-Keeps}
use shared_dev_context_layer.Commands.Invariant.Whole.{local_run_codex-Keeps}

abbrev pub HasFewErrors : ProjectRuntimeSnapshot → Type 0
HasFewErrors runtime = length runtime.errors ≤ max_errors

length-slice_last : (n : ℕ) (list : List String) → length (slice_last n list) ≤ n
unfolding slice_last
length-slice_last n list = omega (arith, length-drop (length list - n) list)

pushed-HasFewErrors :
    (profile : String) (result : LocalCommandResult) (is_error : Bool)
    (runtime : ProjectRuntimeSnapshot)
    → HasFewErrors runtime
    → HasFewErrors (pushed profile result is_error runtime)
unfolding pushed
pushed-HasFewErrors profile result true runtime few =
    length-slice_last max_errors (runtime.errors ++ result.message ∷ [])
pushed-HasFewErrors profile result false runtime few = few

module _ (deps : Deps) (turns : ℕ → Turn) where
  abbrev FewErrors : Session → Type 0
  FewErrors s = HasFewErrors s.runtime

  FewErrors-IsQuiet : IsQuiet deps turns FewErrors
  unfolding with_environment with_db_status
  FewErrors-IsQuiet = record {
    enters = λ s few. few;
    claims = λ s t few. few;
    pushes = λ s result is_error few.
        pushed-HasFewErrors deps.operation_profile result is_error s.runtime few;
    environs = λ s environment action state few. few;
    connects = λ s status problem few. few;
    aborts = λ s b few. few;
    counts = λ s n few. few;
    flags = λ s l _ _ _ _ few. few;
  }

  FewErrors-IsInvariant : (p task : String) → IsInvariant deps turns p task FewErrors
  FewErrors-IsInvariant p task = record {
    locked = record {
      quiet = FewErrors-IsQuiet;
      served = λ s now r _ _ few. few;
      saves = λ input. any_write-Keeps deps turns FewErrors (λ s few. few) (λ s r few. few) _;
    };
    tasks = λ from to s t _ few. few;
    persists = persist_ending-Keeps deps turns FewErrors (λ s few. few) (λ s r few. few);
  }

-- Through any run, whatever fails, the runtime snapshot keeps at most eight errors.
pub local_run_codex-few_errors :
    (deps : Deps) (turns : ℕ → Turn) (s : Session)
    → HasFewErrors s.runtime
    → HasFewErrors (local_run_codex deps turns s).1.runtime
local_run_codex-few_errors deps turns s few =
    local_run_codex-Keeps deps turns (FewErrors deps turns) (FewErrors-IsInvariant deps turns)
      (FewErrors-IsQuiet deps turns) (λ t l h. h) (λ t l h. h) (λ t l h. h) s few
