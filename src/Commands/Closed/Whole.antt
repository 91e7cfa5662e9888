-- ===== src/Commands/Closed/Whole.antt =====
-- Records in which each execution has its closing, and actions that keep them so.
use Prim.Native.String
use shared_dev_context_layer.Base.{
  ℕ, ◌≡◌, ◌∙◌, ap, String, Bool, true, false, ◌||◌, ◌⊎◌, inl, inr, List, [], ◌∷◌, any, arith,
  Option, none, some, string_Eq, Bool-cases, if◌then◌else◌,
}
use shared_dev_context_layer.Base.Strings.{is_empty, trim_str}
use shared_dev_context_layer.Persistence.Records.{
  Records, ExecutionRow, ArtifactRow, DecisionRow, EventRow, SaveEventInput, find_event,
  existing_event, is_duplicate, has_text, event_row, insert_event, takes_number, takes_key,
  with_events, save_event_on, or_unchanged,
}
use shared_dev_context_layer.Commands.Deps.{Deps}
use shared_dev_context_layer.Commands.Reports.{build_idempotency_key}

-- The artifacts of an execution, the newest first.
abbrev pub closing_types : List String
closing_types =
    "post_run_operator_decision" ∷ "post_run_review_payload" ∷ "post_run_reindex_summary"
    ∷ "execution_outcome_classification" ∷ "changed_files_manifest" ∷ "workspace_change_summary"
    ∷ "workspace_after_snapshot_summary" ∷ "workspace_before_snapshot_summary" ∷ "codex_exec_result"
    ∷ "codex_exec_trace" ∷ "codex_exec_prompt" ∷ []

-- The rows are artifacts of the execution, one of each type in this order, and then the rest.
abbrev pub Owned : String → String → List String → List ArtifactRow → List ArtifactRow → Type 0
Owned project execution [] rows rest = rows ≡ rest
Owned project execution (type ∷ types) [] rest = ◌≡◌ {A = ℕ} 0 1
Owned project execution (type ∷ types) (row ∷ rows) rest =
    (row.project_id ≡ project)
    × (row.execution_id ≡ execution)
    × (row.artifact_type ≡ type)
    × Owned project execution types rows rest

abbrev pub IsFinalEvent : String → String → EventRow → Type 0
IsFinalEvent project key row =
    (row.project_id ≡ project)
    × (row.event_type ≡ "local_run_codex")
    × (row.idempotency_key ≡ some key)

abbrev pub HasFinalEvent : String → String → List EventRow → Type 0
HasFinalEvent project key [] = ◌≡◌ {A = ℕ} 0 1
HasFinalEvent project key (row ∷ rows) =
    IsFinalEvent project key row ⊎ HasFinalEvent project key rows

abbrev pub run_key_of : ExecutionRow → String
run_key_of row = elim row.idempotency_key [ none ↦ "" | some key ↦ key ]

module _ (deps : Deps) where
  abbrev pub final_key : (project execution run_key : String) → String
  final_key project execution run_key =
      build_idempotency_key deps "event.local_run_codex.final" (project ∷ execution ∷ run_key ∷ [])

  -- Each execution has its eleven artifacts, its decision and its final event, which its key names,
  -- and there are no other artifacts and decisions.
  abbrev pub Closings :
      List ExecutionRow → List ArtifactRow → List DecisionRow → List EventRow → Type 0
  Closings [] artifacts decisions events = (artifacts ≡ []) × (decisions ≡ [])
  Closings (row ∷ rows) artifacts decisions events =
      (decision : DecisionRow) × (older : List DecisionRow) × (rest : List ArtifactRow) × (decisions
        ≡ decision ∷ older)
      × (decision.project_id ≡ row.project_id)
      × (decision.source ≡ String.◌++◌ "execution:" row.id)
      × Owned row.project_id row.id closing_types artifacts rest
      × HasFinalEvent row.project_id (final_key row.project_id row.id (run_key_of row)) events
      × Closings rows rest older events

  pub record IsWhole (r : Records) : Type 0 where
    pub closings : Closings r.executions r.artifacts r.decisions r.events

  pub Closings-event :
      (rows : List ExecutionRow) (artifacts : List ArtifactRow) (decisions : List DecisionRow)
      (events : List EventRow) (event : EventRow)
      → Closings rows artifacts decisions events
      → Closings rows artifacts decisions (event ∷ events)
  Closings-event [] artifacts decisions events event h = h
  Closings-event (row ∷ rows) artifacts decisions events event
        (decision, older, rest, now, project, source, owned, final, h) =
      (
        decision,
        older,
        rest,
        now,
        project,
        source,
        owned,
        inr final,
        Closings-event rows rest older events event h,
      )

  with_events-IsWhole :
      (id : String) (new : EventRow) (r : Records) (b : Bool)
      → IsWhole r
      → IsWhole (or_unchanged r (with_events id r (if b then none else some (new ∷ r.events))))
  with_events-IsWhole id new r true h = h
  with_events-IsWhole id new r false h = record {
    closings = Closings-event r.executions r.artifacts r.decisions r.events new h.closings;
  }

  -- Another event takes nothing away.
  pub save_event_on-IsWhole :
      (id : String) (input : SaveEventInput) (seen : List EventRow) (r : Records)
      (o : Option String)
      → IsWhole r
      → IsWhole (or_unchanged r (save_event_on id input seen r o))
  unfolding save_event_on insert_event
  save_event_on-IsWhole id input seen r none h =
      let new = event_row id input seen in
      with_events-IsWhole id new r (any (λ row. takes_number new row || takes_key new row) r.events)
        h
  save_event_on-IsWhole id input seen r (some existing) h = h

has_text-some : (s : String) (o : Option String) → has_text s o ≡ true → o ≡ some s
has_text-some s none h = ground arith
has_text-some s (some t) h = ap (λ u. some u) ((string_Eq.equals_iff t s).0 h)

duplicate-IsFinalEvent :
    (input : SaveEventInput) (key : String) (row : EventRow)
    → input.event_type ≡ "local_run_codex"
    → is_duplicate input key row ≡ true
    → IsFinalEvent input.project_id key row
duplicate-IsFinalEvent input key row final h = (
  (string_Eq.equals_iff row.project_id input.project_id).0 (ground arith),
  (string_Eq.equals_iff row.event_type input.event_type).0 (ground arith) ∙ final,
  has_text-some key row.idempotency_key (ground arith),
)

find_event-final :
    (input : SaveEventInput) (key id : String) (rows : List EventRow)
    → input.event_type ≡ "local_run_codex"
    → find_event input key rows ≡ some id
    → HasFinalEvent input.project_id key rows
unfolding find_event
find_event-final input key id [] final h = ground arith
find_event-final input key id (row ∷ rows) final h =
    elim (Bool-cases (is_duplicate input key row)) [
      | inl e ↦ inl (duplicate-IsFinalEvent input key row final e)
      | inr e ↦ inr (find_event-final input key id rows final (rw (e, find_event) at h))
    ]

-- An event with a key that has been saved before is there.
pub existing_event-final :
    (input : SaveEventInput) (key id : String) (rows : List EventRow)
    → input.event_type ≡ "local_run_codex"
    → existing_event input rows (some key) ≡ some id
    → HasFinalEvent input.project_id key rows
unfolding existing_event
existing_event-final input key id rows final h = elim (Bool-cases (is_empty (trim_str key))) [
  | inl e ↦ ground (arith, h, e)
  | inr e ↦ find_event-final input key id rows final (rw (e, existing_event) at h)
]
