-- ===== src/Commands/Closed.antt =====
-- What runs leave in the records is whole.
pub mod Whole
pub mod Triples
use Prim.Native.String
use shared_dev_context_layer.Base.{
  ℕ, ◌≡◌, refl, ◌∙◌, sym, subst, ap, String, List, [], ◌∷◌, arith, Option, none, some, Bool, true,
  false, inl, if◌then◌else◌, any, drop, ◌||◌,
}
use shared_dev_context_layer.Base.Text.{Text}
use shared_dev_context_layer.PostRun.Types.{OperatorReviewResult}
use shared_dev_context_layer.PostRun.Accepted.{review_input}
use shared_dev_context_layer.Persistence.Records.{
  Records, ExecutionRow, DecisionRow, SaveEventInput, save_execution, save_execution_artifact,
  save_decision, save_event, save_event_on, with_events, insert_event, existing_event, event_row,
  EventRow, takes_number, takes_key, or_unchanged,
}
use shared_dev_context_layer.Commands.Session.{
  Result, value, threw, Action, ◌>>=◌, ◌>>◌, pure, from_result, Turn, Session, Fault, works, fails,
  unanswered, write, commit_with, conclude, call, enter, run_in_transaction,
}
use shared_dev_context_layer.Commands.Deps.{Deps}
use shared_dev_context_layer.Commands.Keeps.{write-Keeps}
use shared_dev_context_layer.Commands.Run.{local_run_codex}
use shared_dev_context_layer.Commands.Quiet.{IsQuiet}
use shared_dev_context_layer.Commands.Invariant.{IsInvariant}
use shared_dev_context_layer.Commands.Invariant.Whole.{local_run_codex-Keeps}
use shared_dev_context_layer.Commands.Execution.{is_lost}
use shared_dev_context_layer.Commands.Closing.{
  Ending, Persisted, write_artifact, write_artifacts, write_execution, write_decision, write_event,
  write_review, write_ending, persist_ending, artifacts_of, operator_content, message_of,
  decision_name, classification_of,
}
use shared_dev_context_layer.Commands.Closed.Whole.{
  closing_types, Owned, HasFinalEvent, Closings, Closings-event, IsWhole, final_key, run_key_of,
  save_event_on-IsWhole, existing_event-final,
}
use shared_dev_context_layer.Commands.Closed.Triples.{
  OnValue, Triple, OnSome, bind-Triple, from_result-Triple, write-Triple, call-Triple,
}

-- The types of artifacts written one after the other, the newest first.
abbrev types_after : List (String × Text) → List String → List String
types_after [] types = types
types_after ((type, content) ∷ artifacts) types = types_after artifacts (type ∷ types)

module _ (deps : Deps) (turns : ℕ → Turn) (end : Ending) (execution : String) where
  -- The execution has been written, and the artifacts of these types.
  record Begun (types : List String) (r : Records) : Type 0 where
    pub older : Records
    pub whole : IsWhole deps older
    pub row : ExecutionRow
    pub executions : r.executions ≡ row ∷ older.executions
    pub id : row.id ≡ execution
    pub project : row.project_id ≡ end.project
    pub key : row.idempotency_key ≡ some end.run_key
    pub artifacts : Owned end.project execution types r.artifacts older.artifacts
    pub decisions : r.decisions ≡ older.decisions
    pub events : r.events ≡ older.events

  -- And the decision.
  record Decided (r : Records) : Type 0 where
    pub older : Records
    pub whole : IsWhole deps older
    pub row : ExecutionRow
    pub executions : r.executions ≡ row ∷ older.executions
    pub id : row.id ≡ execution
    pub project : row.project_id ≡ end.project
    pub key : row.idempotency_key ≡ some end.run_key
    pub artifacts : Owned end.project execution closing_types r.artifacts older.artifacts
    pub decision : DecisionRow
    pub decisions : r.decisions ≡ decision ∷ older.decisions
    pub decided : decision.project_id ≡ end.project
    pub source : decision.source ≡ String.◌++◌ "execution:" execution
    pub events : r.events ≡ older.events

  write_artifact-Begun :
      (types : List String) (type : String) (content : Text)
      → Triple
          (Begun types)
          (write_artifact deps turns end.project execution (type, content))
          (λ _. Begun (type ∷ types))
  unfolding write_artifact save_execution_artifact
  write_artifact-Begun types type content =
      write-Triple turns (Begun types) (λ _. Begun (type ∷ types)) _
        (λ id r b. record {
          older = b.older;
          whole = b.whole;
          row = b.row;
          executions = b.executions;
          id = b.id;
          project = b.project;
          key = b.key;
          artifacts = (refl, refl, refl, b.artifacts);
          decisions = b.decisions;
          events = b.events;
        })

  write_artifacts-Begun :
      (artifacts : List (String × Text)) (types : List String)
      → Triple
          (Begun types)
          (write_artifacts deps turns end.project execution artifacts)
          (λ _. Begun (types_after artifacts types))
  unfolding write_artifacts
  write_artifacts-Begun [] types = λ s b. b
  write_artifacts-Begun ((type, content) ∷ artifacts) types =
      bind-Triple (Begun types) (λ _. Begun (type ∷ types)) _
        (write_artifact deps turns end.project execution (type, content))
        (λ id.
          write_artifacts deps turns end.project execution artifacts >>= λ ids. pure (id ∷ ids))
        (write_artifact-Begun types type content)
        (λ id.
          bind-Triple (Begun (type ∷ types)) (λ _. Begun (types_after artifacts (type ∷ types))) _
            (write_artifacts deps turns end.project execution artifacts) (λ ids. pure (id ∷ ids))
            (write_artifacts-Begun artifacts (type ∷ types)) (λ ids s b. b))

  abbrev new_decision : OperatorReviewResult → String → DecisionRow
  new_decision review id = record {
    id = id;
    project_id = end.project;
    title = String.◌++◌ "Operator review: " (decision_name review.review_decision);
    source = String.◌++◌ "execution:" execution;
  }

  write_decision-Decided :
      (review : OperatorReviewResult)
      → Triple (Begun closing_types) (write_decision deps turns end execution review) (λ _. Decided)
  unfolding write_decision save_decision
  write_decision-Decided review =
      write-Triple turns (Begun closing_types) (λ _. Decided) _
        (λ id r b. record {
          older = b.older;
          whole = b.whole;
          row = b.row;
          executions = b.executions;
          id = b.id;
          project = b.project;
          key = b.key;
          artifacts = b.artifacts;
          decision = new_decision review id;
          decisions = ap (λ ds. new_decision review id ∷ ds) b.decisions;
          decided = refl;
          source = refl;
          events = b.events;
        })

  Decided-IsWhole :
      (r : Records) (events : List EventRow) (d : Decided r)
      → Closings deps d.older.executions d.older.artifacts d.older.decisions events
      → HasFinalEvent end.project (final_key deps end.project execution end.run_key) events
      → IsWhole deps (record r { events = events })
  Decided-IsWhole r events d closings final = record {
    closings =
        rw (d.executions, d.project, d.id, d.key)
          (
            d.decision,
            d.older.decisions,
            d.older.artifacts,
            d.decisions,
            d.decided,
            d.source,
            subst (λ i. Owned d.row.project_id i closing_types r.artifacts d.older.artifacts)
                (sym d.id)
                (subst (λ p. Owned p execution closing_types r.artifacts d.older.artifacts)
                  (sym d.project) d.artifacts),
            final,
            closings,
          );
  }

  Decided-Closings :
      (r : Records) (d : Decided r)
      → Closings deps d.older.executions d.older.artifacts d.older.decisions r.events
  Decided-Closings r d =
      subst (Closings deps d.older.executions d.older.artifacts d.older.decisions) (sym d.events)
        d.whole.closings

  abbrev final_event : SaveEventInput
  final_event = record {
    project_id = end.project;
    task_id = some end.task;
    execution_id = some execution;
    event_type = "local_run_codex";
    severity = (classification_of end).severity;
    message = message_of end;
    idempotency_key = some (final_key deps end.project execution end.run_key);
  }

  inserted_event-IsWhole :
      (id : String) (new : EventRow) (r : Records) (b : Bool)
      → HasFinalEvent end.project
          (final_key deps end.project execution end.run_key)
          (new ∷ r.events)
      → Decided r
      → OnSome (λ _. IsWhole deps) (with_events id r (if b then none else some (new ∷ r.events)))
  inserted_event-IsWhole id new r true final d = tt
  inserted_event-IsWhole id new r false final d =
      Decided-IsWhole r (new ∷ r.events) d
        (Closings-event deps d.older.executions d.older.artifacts d.older.decisions r.events new
          (Decided-Closings r d))
        final

  final_event-IsWhole :
      (id : String) (r : Records) (o : Option String)
      → existing_event final_event r.events final_event.idempotency_key ≡ o
      → Decided r
      → OnSome (λ _. IsWhole deps) (save_event_on id final_event r.events r o)
  unfolding save_event_on insert_event
  final_event-IsWhole id r none found d =
      let new = event_row id final_event r.events in
      inserted_event-IsWhole id new r
        (any (λ row. takes_number new row || takes_key new row) r.events) (inl (refl, refl, refl)) d
  final_event-IsWhole id r (some existing) found d =
      Decided-IsWhole r r.events d (Decided-Closings r d) (
        existing_event-final final_event (final_key deps end.project execution end.run_key) existing
          r.events refl found)

  write_event-IsWhole : Triple Decided (write_event deps turns end execution) (λ _. IsWhole deps)
  unfolding write_event save_event
  write_event-IsWhole =
      write-Triple turns Decided (λ _. IsWhole deps) _ (λ id r d. final_event-IsWhole id r _ refl d)

  write_review-IsWhole :
      (artifacts : List String) (review : OperatorReviewResult)
      → Triple
          (Begun (types_after (artifacts_of deps end) []))
          (write_review deps turns end execution artifacts review)
          (λ _. IsWhole deps)
  unfolding write_review artifacts_of
  write_review-IsWhole artifacts review =
      bind-Triple _ (λ _. Begun closing_types) _ _ _
        (write_artifact-Begun _ "post_run_operator_decision" (operator_content deps review))
        (λ operator.
          bind-Triple _ (λ _. Decided) _ _ _ (write_decision-Decided review)
            (λ decision.
              bind-Triple _ (λ _. IsWhole deps) _ _ _ write_event-IsWhole (λ event s whole. whole)))

module _ (deps : Deps) (turns : ℕ → Turn) where
  write_execution-Begun :
      (end : Ending)
      → Triple
          (IsWhole deps)
          (write_execution deps turns end)
          (λ execution. Begun deps turns end execution [])
  unfolding write_execution save_execution
  write_execution-Begun end =
      write-Triple turns (IsWhole deps) (λ execution. Begun deps turns end execution []) _
        (λ id r whole. record {
          older = r;
          whole = whole;
          row = _;
          executions = refl;
          id = refl;
          project = refl;
          key = refl;
          artifacts = refl;
          decisions = refl;
          events = refl;
        })

  write_ending-IsWhole :
      (end : Ending) → Triple (IsWhole deps) (write_ending deps turns end) (λ _. IsWhole deps)
  unfolding write_ending
  write_ending-IsWhole end =
      bind-Triple (IsWhole deps) (λ execution. Begun deps turns end execution []) _ _ _
        (write_execution-Begun end)
        (λ execution.
          let written = Begun deps turns end execution (types_after (artifacts_of deps end) []) in
          bind-Triple _ (λ _. written) _ _ _
            (write_artifacts-Begun deps turns end execution (artifacts_of deps end) [])
            (λ artifacts.
              bind-Triple written (λ _. written) _ _ _
                (from_result-Triple written (
                  deps.review
                    (review_input (is_lost end.heartbeat) execution end.task end.reconciled)))
                (write_review-IsWhole deps turns end execution artifacts)))

  commit_with-IsWhole :
      {A : Type 0} (fault : Fault) (saved : Records) (a : A) (s : Session)
      → IsWhole deps saved
      → IsWhole deps s.records
      → IsWhole deps (commit_with fault saved a s).1.records
  commit_with-IsWhole works saved a s before after = after
  commit_with-IsWhole (fails e) saved a s before after = before
  commit_with-IsWhole (unanswered e) saved a s before after = after

  conclude-IsWhole :
      {A : Type 0} (saved : Records) (r : Result A × Session)
      → IsWhole deps saved
      → OnValue (λ _. IsWhole deps) r
      → IsWhole deps (conclude turns saved r).1.records
  conclude-IsWhole saved (threw e, s) before after = before
  conclude-IsWhole saved (value a, s) before after =
      let turn = turns s.calls in commit_with-IsWhole turn.fault saved a (enter turn s) before after

  persist_ending-IsWhole :
      (end : Ending) (s : Session)
      → IsWhole deps s.records
      → IsWhole deps (persist_ending deps turns end s).1.records
  unfolding persist_ending run_in_transaction
  persist_ending-IsWhole end s before =
      let begin : Action Unit = call turns (λ turn t. (t, value tt)) in
      conclude-IsWhole s.records ((begin >> write_ending deps turns end) s) before (
        bind-Triple (IsWhole deps) (λ _. IsWhole deps) (λ _. IsWhole deps) begin
          (λ _. write_ending deps turns end) (call-Triple turns (IsWhole deps))
          (λ _. write_ending-IsWhole end) s before)

  abbrev Whole : Session → Type 0
  Whole s = IsWhole deps s.records

  Whole-IsQuiet : IsQuiet deps turns Whole
  Whole-IsQuiet = record {
    enters = λ s h. h;
    claims = λ s t h. h;
    pushes = λ s result is_error h. h;
    environs = λ s environment action state h. h;
    connects = λ s status problem h. h;
    aborts = λ s b h. h;
    counts = λ s n h. h;
    flags = λ s l _ _ _ _ h. h;
  }

  Whole-IsInvariant : (p task : String) → IsInvariant deps turns p task Whole
  unfolding save_event
  Whole-IsInvariant p task = record {
    locked = record {
      quiet = Whole-IsQuiet;
      served = λ s now r _ _ h. h;
      saves = λ input.
          write-Keeps Whole turns _ (λ s h. h)
            (λ id s h. save_event_on-IsWhole deps id input _ s.records _ h);
    };
    tasks = λ from to s t _ h. h;
    persists = persist_ending-IsWhole;
  }

-- Whichever calls fail, in the transaction or outside, before or after their effect: if each execution
-- in the records has its closing before a run, then also after it, the new one included. A closing
-- is eleven artifacts of that execution, one of each type, a decision that names it, and a final
-- event with its key; no other artifacts and decisions are there. So a run leaves all of its closing
-- or nothing of it.
pub local_run_codex-IsWhole :
    (deps : Deps) (turns : ℕ → Turn) (s : Session)
    → IsWhole deps s.records
    → IsWhole deps (local_run_codex deps turns s).1.records
local_run_codex-IsWhole deps turns s whole =
    local_run_codex-Keeps deps turns (Whole deps turns) (Whole-IsInvariant deps turns)
      (Whole-IsQuiet deps turns) (λ t l h. h) (λ t l h. h) (λ t l h. h) s whole
