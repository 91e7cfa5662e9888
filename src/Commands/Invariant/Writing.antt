-- ===== src/Commands/Invariant/Writing.antt =====
-- The closing transaction of `localRunCodex` (vscode-extension/src/local/localCommandService.ts) keeps
-- what the writing of records, and undoing it, keeps.
use shared_dev_context_layer.Base.{ℕ, String, List, [], ◌∷◌}
use shared_dev_context_layer.Base.Text.{Text}
use shared_dev_context_layer.PostRun.Types.{OperatorReviewResult}
use shared_dev_context_layer.PostRun.Accepted.{review_input}
use shared_dev_context_layer.Persistence.Records.{Records}
use shared_dev_context_layer.Commands.Session.{
  Result, value, threw, pure, from_result, Turn, Session, Fault, works, fails, unanswered, enter,
  commit_with, conclude, call, ◌>>◌, write, Write, run_in_transaction, Action,
}
use shared_dev_context_layer.Commands.Deps.{Deps}
use shared_dev_context_layer.Commands.Keeps.{
  Keeps, Enters, bind-Keeps, then-Keeps, call-Keeps, write-Keeps,
}
use shared_dev_context_layer.Commands.Execution.{is_lost}
use shared_dev_context_layer.Commands.Closing.{
  Ending, write_artifact, write_artifacts, write_execution, write_decision, write_event,
  write_review, write_ending, persist_ending, artifacts_of, operator_content,
}

module _ (deps : Deps) (turns : ℕ → Turn) (I : Session → Type 0) (enters : Enters I turns)
    (records : (s : Session) (r : Records) → I s → I (record s { records = r })) where
  pub any_write-Keeps : (op : Write) → Keeps I (write turns op)
  any_write-Keeps op = write-Keeps I turns op enters (λ id s i. records s _ i)

  write_artifacts-Keeps :
      (project execution : String) (artifacts : List (String × Text))
      → Keeps I (write_artifacts deps turns project execution artifacts)
  unfolding write_artifacts write_artifact
  write_artifacts-Keeps project execution [] = λ s i. i
  write_artifacts-Keeps project execution (artifact ∷ artifacts) =
      bind-Keeps I (write_artifact deps turns project execution artifact) _ (any_write-Keeps _)
        (λ id.
          bind-Keeps I (write_artifacts deps turns project execution artifacts)
            (λ ids. pure (id ∷ ids)) (write_artifacts-Keeps project execution artifacts)
            (λ ids s i. i))

  write_review-Keeps :
      (end : Ending) (execution : String) (artifacts : List String) (review : OperatorReviewResult)
      → Keeps I (write_review deps turns end execution artifacts review)
  unfolding write_review write_artifact write_decision write_event
  write_review-Keeps end execution artifacts review =
      bind-Keeps I
        (write_artifact deps turns end.project execution
          ("post_run_operator_decision", operator_content deps review))
        _ (any_write-Keeps _)
        (λ operator.
          bind-Keeps I (write_decision deps turns end execution review) _ (any_write-Keeps _)
            (λ decision.
              bind-Keeps I (write_event deps turns end execution) _ (any_write-Keeps _)
                (λ event s i. i)))

  write_ending-Keeps : (end : Ending) → Keeps I (write_ending deps turns end)
  unfolding write_ending write_execution
  write_ending-Keeps end =
      bind-Keeps I (write_execution deps turns end) _ (any_write-Keeps _) (λ execution.
        bind-Keeps I (write_artifacts deps turns end.project execution (artifacts_of deps end)) _
          (write_artifacts-Keeps end.project execution (artifacts_of deps end))
          (λ artifacts.
            bind-Keeps I
              (from_result (
                deps.review
                  (review_input (is_lost end.heartbeat) execution end.task end.reconciled)))
              (write_review deps turns end execution artifacts) (λ s i. i)
              (write_review-Keeps end execution artifacts)))

  commit_with-Keeps :
      {A : Type 0} (fault : Fault) (saved : Records) (a : A) (s : Session)
      → I s
      → I (commit_with fault saved a s).1
  commit_with-Keeps works saved a s i = i
  commit_with-Keeps (fails e) saved a s i = records s saved i
  commit_with-Keeps (unanswered e) saved a s i = i

  conclude-Keeps :
      {A : Type 0} (saved : Records) (r : Result A × Session) → I r.1 → I (conclude turns saved r).1
  conclude-Keeps saved (value a, s) i =
      commit_with-Keeps (turns s.calls).fault saved a (enter (turns s.calls) s) (enters s i)
  conclude-Keeps saved (threw e, s) i = records s saved i

  pub persist_ending-Keeps : (end : Ending) → Keeps I (persist_ending deps turns end)
  unfolding persist_ending run_in_transaction
  persist_ending-Keeps end s i =
      let begin : Action Unit = call turns (λ turn t. (t, value tt)) in
      conclude-Keeps s.records ((begin >> write_ending deps turns end) s) (
        then-Keeps I begin (write_ending deps turns end)
          (call-Keeps I turns (λ turn t. (t, value tt)) enters (λ turn t j. j))
          (write_ending-Keeps end) s i)
