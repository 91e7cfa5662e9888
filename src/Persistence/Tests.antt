-- ===== src/Persistence/Tests.antt =====
-- The persistence theorems at concrete tables and requests, and runs of the operations.
use shared_dev_context_layer.Base.{
  ℕ, ◌≤◌, String, ◌≡◌, refl, sym, ◌≢◌, true, false, Option, none, some, List, [], ◌∷◌, arith, inl,
  if◌then◌else◌, string_Eq,
}
use shared_dev_context_layer.Base.Table.{lookup, insert, insert_absent, update_where}
use shared_dev_context_layer.Persistence.RunLock.{
  LockTable, LockRequest, AcquireInput, acquire, renew, release, fresh_lock, serve, serve_all,
}
use shared_dev_context_layer.Persistence.RunLock.Lease.{lease_step, serve-lease_step}
use shared_dev_context_layer.Persistence.RunLock.Exclusion.{
  OthersBefore, AllRefused, acquire-excludes_others,
}
use shared_dev_context_layer.Persistence.RunLock.Fencing.{
  NotHeldBy, AllRefusedTo, lost_lease_fenced,
}
use shared_dev_context_layer.Persistence.Idempotency.{
  CommandKey, command_key_Eq, command_key_eq, ClaimRow, ClaimTable, ClaimInput, Statement,
  insert_stmt, reclaim_stmt, complete_stmt, claimed_row, completed_row, execute, execute_all,
}
use shared_dev_context_layer.Persistence.Idempotency.Claim.{claim_idempotency}
use shared_dev_context_layer.Persistence.Idempotency.Record.{AllAnswers}
use shared_dev_context_layer.Persistence.Idempotency.Finality.{
  claim_of, finishes, finished-IsFinal, finishes-le-one,
}
use shared_dev_context_layer.Persistence.Idempotency.Fencing.{
  live_claim_exclusive, NotClaimedBy, lost_claim_fenced,
}
use shared_dev_context_layer.PostRun.Types.{Severity}
use shared_dev_context_layer.Persistence.Records.{Records, SaveEventInput, SavedEvent, save_events}
use shared_dev_context_layer.Persistence.Records.Sequence.{Numbered, save_events-Numbered}
use shared_dev_context_layer.Persistence.Idempotency.Ownership.{
  Justified, claim_idempotency-Justified,
}

abbrev first : AcquireInput
first = record { project_id = "p"; owner = "a"; lock_id = "L1"; ttl_seconds = 180 }

abbrev second : AcquireInput
second = record { project_id = "p"; owner = "b"; lock_id = "L2"; ttl_seconds = 180 }

abbrev no_locks : LockTable
no_locks = []

abbrev requests : List (ℕ × LockRequest)
requests =
    (50000, acquire second)
    ∷ (60000, release (record { project_id = "p"; lock_id = "L2" }))
    ∷ (70000, renew (record { project_id = "q"; lock_id = "L1"; ttl_seconds = 1 }))
    ∷ []

first_granted : (serve 0 (acquire first) no_locks).1 ≡ true
unfolding serve lookup insert
first_granted = refl

takeover_after_expiry :
    (serve_all
      ((50000, acquire second) ∷ (180000, acquire second) ∷ [])
      (serve 0 (acquire first) no_locks).0).1
    ≡ false ∷ true ∷ []
unfolding serve_all serve lookup insert
takeover_after_expiry = refl

serve-lease_step_example :
    ((serve 0 (acquire first) no_locks).1 ≡ (lease_step 0 (acquire first) (lookup "p" no_locks)).1)
    × (lookup "p" (serve 0 (acquire first) no_locks).0 ≡ (
        if string_Eq.equals "p" "p"
        then (lease_step 0 (acquire first) (lookup "p" no_locks)).0
        else lookup "p" no_locks))
serve-lease_step_example = serve-lease_step "p" 0 (acquire first) no_locks

l2-ne-l1 : ◌≢◌ {A = String} "L2" "L1"
l2-ne-l1 = ground (arith, string_Eq.equals_iff "L2" "L1")

q-ne-p : ◌≢◌ {A = String} "q" "p"
q-ne-p = ground (arith, string_Eq.equals_iff "q" "p")

requests_before : OthersBefore "p" "L1" 180000 requests
requests_before =
    (λ _. (omega arith, l2-ne-l1), (λ _. (omega arith, l2-ne-l1), (λ e. absurd (q-ne-p e), tt)))

acquire-excludes_others_example :
    let t' = (serve 0 (acquire first) no_locks).0 in
    (lookup "p" (serve_all requests t').0 ≡ some (fresh_lock 0 first))
    × AllRefused "p" requests (serve_all requests t').1
acquire-excludes_others_example =
    acquire-excludes_others 0 first no_locks requests first_granted requests_before

-- The second client has taken the lock over; the first one's requests come too late.
abbrev taken_over : LockTable
taken_over = (("p", fresh_lock 180000 second) ∷ [])

abbrev late : List (ℕ × LockRequest)
late =
    (180001, renew (record { project_id = "p"; lock_id = "L1"; ttl_seconds = 180 }))
    ∷ (180002, release (record { project_id = "p"; lock_id = "L1" }))
    ∷ []

taken_over-NotHeldBy : NotHeldBy "L1" (lookup "p" taken_over)
unfolding lookup
taken_over-NotHeldBy = l2-ne-l1

lost_lease_fenced_example :
    NotHeldBy "L1" (lookup "p" (serve_all late taken_over).0)
    × AllRefusedTo "p" "L1" late (serve_all late taken_over).1
lost_lease_fenced_example =
    lost_lease_fenced "p" "L1" late taken_over taken_over-NotHeldBy (tt, (tt, tt))

abbrev key : CommandKey
key = record { project_id = "p"; command = "local_run_codex"; idempotency_key = "k" }

abbrev claim_by : String → ClaimInput
claim_by c = record { key = key; claim_id = c; owner = "vscode"; ttl_seconds = 180 }

abbrev completion : String → Statement
completion c = complete_stmt (record { key = key; claim_id = c; response_json = "ok" })

abbrev no_claims : ClaimTable
no_claims = []

-- A lease runs out, another client takes the command over and finishes it; the first comes late.
abbrev takeover : List (ℕ × Statement)
takeover =
    (0, insert_stmt (claim_by "C1"))
    ∷ (180000, reclaim_stmt (claim_by "C2"))
    ∷ (180001, completion "C1")
    ∷ (180002, completion "C2")
    ∷ (180003, completion "C2")
    ∷ []

statements : Unit {0}
unfolding execute_all execute insert_absent update_where insert lookup command_key_eq
statements = tt

takeover_answers : (execute_all takeover no_claims).1 ≡ true ∷ true ∷ false ∷ true ∷ false ∷ []
unfolding statements
takeover_answers = refl

finishes-le-one_example : finishes key takeover (execute_all takeover no_claims).1 ≤ 1
finishes-le-one_example =
    finishes-le-one key takeover no_claims
      ((λ _. tt), ((λ _. tt), ((λ _. tt), ((λ _. tt), ((λ _. tt), tt)))))

abbrev done_row : ClaimRow
done_row =
    completed_row 5 (record { key = key; claim_id = "C1"; response_json = "ok" })
      (claimed_row 0 (claim_by "C1"))

abbrev done : ClaimTable
done = (key, done_row) ∷ []

done_here : lookup key done ≡ some done_row
unfolding statements
done_here = refl

abbrev retries : List (ℕ × Statement)
retries =
    (200000, insert_stmt (claim_by "C2"))
    ∷ (200001, reclaim_stmt (claim_by "C2"))
    ∷ (200002, completion "C1")
    ∷ []

finished-IsFinal_example :
    (lookup key (execute_all retries done).0 ≡ some done_row)
    × AllAnswers key (λ s answer. answer ≡ false) retries (execute_all retries done).1
finished-IsFinal_example =
    finished-IsFinal key done_row retries done done_here (inl refl)
      ((λ _. tt), ((λ _. tt), ((λ _. tt), tt)))

abbrev running : ClaimTable
running = (key, claimed_row 0 (claim_by "C1")) ∷ []

running_here : lookup key running ≡ some (claimed_row 0 (claim_by "C1"))
unfolding statements
running_here = refl

c2-ne-c1 : ◌≢◌ {A = Option String} (some "C2") (some "C1")
c2-ne-c1 = ground (arith, string_Eq.equals_iff "C2" "C1")

abbrev intruders : List (ℕ × Statement)
intruders = (5, insert_stmt (claim_by "C2")) ∷ (6, reclaim_stmt (claim_by "C2")) ∷ []

live_claim_exclusive_example :
    (lookup key (execute_all intruders running).0 ≡ some (claimed_row 0 (claim_by "C1")))
    × AllAnswers key (λ s answer. answer ≡ false) intruders (execute_all intruders running).1
live_claim_exclusive_example =
    live_claim_exclusive key "C1" 180000 (claimed_row 0 (claim_by "C1")) intruders running
      running_here (record { running = refl; claim = refl; lease = refl })
      (
        (λ _. record { by_claim = tt; before = omega arith; other = c2-ne-c1 }),
        ((λ _. record { by_claim = tt; before = omega arith; other = c2-ne-c1 }), tt),
      )

abbrev late_claims : List (ℕ × Statement)
late_claims = (7, completion "C2") ∷ []

running-NotClaimedBy : NotClaimedBy "C2" (lookup key running)
unfolding statements
running-NotClaimedBy = λ e. c2-ne-c1 (sym e)

lost_claim_fenced_example :
    NotClaimedBy "C2" (lookup key (execute_all late_claims running).0)
    × AllAnswers key
        (λ s answer. claim_of s ≡ some "C2" → answer ≡ false)
        late_claims
        (execute_all late_claims running).1
lost_claim_fenced_example =
    lost_claim_fenced key "C2" late_claims running running-NotClaimedBy ((λ _. tt), tt)

-- The holder finishes the command between the SELECT and the UPDATE of a late claim.
late_claim_refused :
    (claim_idempotency 180000 (claim_by "C2") [] ((179999, completion "C1") ∷ []) running).0
    ≡ (execute_all ((179999, completion "C1") ∷ []) running).0
unfolding claim_idempotency statements
late_claim_refused = refl

claim_idempotency-Justified_example :
    Justified 180000
      (claim_by "C2")
      []
      []
      running
      (claim_idempotency 180000 (claim_by "C2") [] [] running)
claim_idempotency-Justified_example =
    claim_idempotency-Justified 180000 (claim_by "C2") [] [] running

abbrev event_of : String → SaveEventInput
event_of key = record {
  project_id = "p";
  task_id = none;
  execution_id = some "E";
  event_type = "local_run_codex";
  severity = Severity.info;
  message = "";
  idempotency_key = some key;
}

-- The third has read the greatest number before the second was inserted.
abbrev saved_event : (after : ℕ) → (id key : String) → SavedEvent
saved_event after id key = record {
  after_find = after;
  after_max = after;
  id = id;
  input = event_of key;
}

abbrev four_events : List SavedEvent
four_events =
    saved_event 0 "1" "a"
    ∷ saved_event 0 "2" "b"
    ∷ saved_event 1 "3" "c"
    ∷ saved_event 0 "4" "d"
    ∷ []

abbrev no_records : Records
no_records = record { executions = []; artifacts = []; decisions = []; events = [] }

save_events-Numbered_example : Numbered "E" (save_events four_events no_records).events
save_events-Numbered_example = save_events-Numbered "E" four_events no_records refl tt
