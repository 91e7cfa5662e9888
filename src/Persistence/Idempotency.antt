-- ===== src/Persistence/Idempotency.antt =====
-- Idempotent commands: the table `idempotency_records` and the operations `claimIdempotency`,
-- `renewIdempotencyClaim`, `completeIdempotencyClaim`, `failIdempotencyClaim`,
-- `resolveIdempotentResult`, `saveIdempotentResult` of
-- vscode-extension/src/local/persistence/postgresPersistenceAdapter.ts.
-- A `Statement` is one SQL statement that writes, an atomic step; `claim_idempotency` runs up to
-- three, and the statements of other clients may come between them. Times are milliseconds. A JSON
-- object is its text; the column is written only with objects. The columns `id`, `created_at` are
-- not read by this code and left out.
pub mod Record
pub mod Finality
pub mod Fencing
pub mod Claim
pub mod Ownership
pub mod Replay
use shared_dev_context_layer.Base.{
  ℕ, String, Bool, true, false, ◌&&◌, Option, none, some, List, [], ◌∷◌, leb, ltb, if◌then◌else◌,
  ◌==◌, string_Eq, Eq, ◌≡◌, ◌↔◌, arith,
}
use shared_dev_context_layer.Base.Table.{lookup, insert, update_where, insert_absent}
use shared_dev_context_layer.Persistence.RunLock.{after_seconds}

-- UNIQUE (project_id, command, idempotency_key)
pub record CommandKey : Type 0 where
  pub project_id : String
  pub command : String
  pub idempotency_key : String

unfoldable pub command_key_eq : CommandKey → CommandKey → Bool
command_key_eq a b =
    a.project_id == b.project_id && a.command == b.command && a.idempotency_key == b.idempotency_key

pub command_key_eq_iff : (a b : CommandKey) → (command_key_eq a b ≡ true) ↔ (a ≡ b)
unfolding command_key_eq
command_key_eq_iff a b = ground (
  arith,
  string_Eq.equals_iff a.project_id b.project_id,
  string_Eq.equals_iff a.command b.command,
  string_Eq.equals_iff a.idempotency_key b.idempotency_key,
)

instance abbrev pub command_key_Eq : Eq CommandKey
command_key_Eq = record { equals = command_key_eq; equals_iff = command_key_eq_iff }

-- The status column: what this code writes, and `other` for a text it does not know.
pub data RecordStatus : Type 0 where
  in_progress completed failed ok error blocked : RecordStatus
  other : String → RecordStatus

pub record ClaimRow : Type 0 where
  pub status : RecordStatus
  pub response_json : String
  pub claim_id : Option String
  pub owner : Option String
  pub lease_expires_at : Option ℕ
  pub started_at : Option ℕ
  pub finished_at : Option ℕ
  pub last_error : Option String
  pub updated_at : ℕ

abbrev pub ClaimTable : Type 0
ClaimTable = List (CommandKey × ClaimRow)

pub record ClaimInput : Type 0 where
  pub key : CommandKey
  pub claim_id : String
  pub owner : String
  pub ttl_seconds : ℕ

pub record RenewClaimInput : Type 0 where
  pub key : CommandKey
  pub claim_id : String
  pub ttl_seconds : ℕ

pub record CompleteClaimInput : Type 0 where
  pub key : CommandKey
  pub claim_id : String
  pub response_json : String

pub record FailClaimInput : Type 0 where
  pub key : CommandKey
  pub claim_id : String
  pub error_message : String
  pub response_json : String

pub record SaveResultInput : Type 0 where
  pub key : CommandKey
  pub response_json : String
  pub status : RecordStatus

abbrev pub is_in_progress : RecordStatus → Bool
is_in_progress in_progress = true
is_in_progress _ = false

-- A comparison with NULL is not true.
abbrev pub has_claim_id : String → Option String → Bool
has_claim_id c none = false
has_claim_id c (some d) = d == c

abbrev pub expired_at : ℕ → Option ℕ → Bool
expired_at now none = false
expired_at now (some end) = leb end now

abbrev pub runs_at : ℕ → Option ℕ → Bool
runs_at now none = false
runs_at now (some end) = ltb now end

abbrev pub claimed_row : ℕ → ClaimInput → ClaimRow
claimed_row now input = record {
  status = in_progress;
  response_json = "{}";
  claim_id = some input.claim_id;
  owner = some input.owner;
  lease_expires_at = some (after_seconds now input.ttl_seconds);
  started_at = some now;
  finished_at = none;
  last_error = none;
  updated_at = now;
}

abbrev pub reclaimable : ℕ → ClaimRow → Bool
reclaimable now row = is_in_progress row.status && expired_at now row.lease_expires_at

abbrev pub reclaimed_row : ℕ → ClaimInput → ClaimRow → ClaimRow
reclaimed_row now input row = record row {
  claim_id = some input.claim_id;
  owner = some input.owner;
  lease_expires_at = some (after_seconds now input.ttl_seconds);
  started_at = some now;
  finished_at = none;
  last_error = none;
  updated_at = now;
}

abbrev pub owned : String → ClaimRow → Bool
owned c row = has_claim_id c row.claim_id && is_in_progress row.status

abbrev pub saved_row : ℕ → SaveResultInput → ClaimRow
saved_row now input = record {
  status = input.status;
  response_json = input.response_json;
  claim_id = none;
  owner = none;
  lease_expires_at = none;
  started_at = none;
  finished_at = none;
  last_error = none;
  updated_at = now;
}

abbrev pub renewable : ℕ → String → ClaimRow → Bool
renewable now c row = owned c row && runs_at now row.lease_expires_at

abbrev pub renewed_row : ℕ → RenewClaimInput → ClaimRow → ClaimRow
renewed_row now input row = record row {
  lease_expires_at = some (after_seconds now input.ttl_seconds);
  updated_at = now;
}

abbrev pub completed_row : ℕ → CompleteClaimInput → ClaimRow → ClaimRow
completed_row now input row = record row {
  status = completed;
  response_json = input.response_json;
  lease_expires_at = none;
  finished_at = some now;
  last_error = none;
  updated_at = now;
}

abbrev pub failed_row : ℕ → FailClaimInput → ClaimRow → ClaimRow
failed_row now input row = record row {
  status = failed;
  response_json = input.response_json;
  lease_expires_at = none;
  finished_at = some now;
  last_error = some input.error_message;
  updated_at = now;
}

pub insert_claim : ℕ → ClaimInput → ClaimTable → ClaimTable × Bool
insert_claim now input = insert_absent input.key (claimed_row now input)

pub reclaim : ℕ → ClaimInput → ClaimTable → ClaimTable × Bool
reclaim now input = update_where input.key (reclaimable now) (reclaimed_row now input)

pub renew_idempotency_claim : ℕ → RenewClaimInput → ClaimTable → ClaimTable × Bool
renew_idempotency_claim now input =
    update_where input.key (renewable now input.claim_id) (renewed_row now input)

pub complete_idempotency_claim : ℕ → CompleteClaimInput → ClaimTable → ClaimTable × Bool
complete_idempotency_claim now input =
    update_where input.key (owned input.claim_id) (completed_row now input)

pub fail_idempotency_claim : ℕ → FailClaimInput → ClaimTable → ClaimTable × Bool
fail_idempotency_claim now input =
    update_where input.key (owned input.claim_id) (failed_row now input)

save_on : ℕ → SaveResultInput → Option ClaimRow → ClaimRow
save_on now input none = saved_row now input
save_on now input (some row) = record row {
  status = input.status;
  response_json = input.response_json;
  updated_at = now;
}

unfoldable pub save_idempotent_result : ℕ → SaveResultInput → ClaimTable → ClaimTable
unfolding save_on
save_idempotent_result now input t = insert input.key (save_on now input (lookup input.key t)) t

unfoldable pub resolve_idempotent_result : CommandKey → ClaimTable → Option String
resolve_idempotent_result key t = elim (lookup key t) [
  | none ↦ none
  | some row ↦ some row.response_json
]

pub data Statement : Type 0 where
  insert_stmt reclaim_stmt : ClaimInput → Statement
  renew_stmt : RenewClaimInput → Statement
  complete_stmt : CompleteClaimInput → Statement
  fail_stmt : FailClaimInput → Statement
  save_stmt : SaveResultInput → Statement

abbrev pub at_key : Statement → CommandKey
at_key (insert_stmt i) = i.key
at_key (reclaim_stmt i) = i.key
at_key (renew_stmt i) = i.key
at_key (complete_stmt i) = i.key
at_key (fail_stmt i) = i.key
at_key (save_stmt i) = i.key

-- The table after a statement, and whether a row came back.
unfoldable pub execute : ℕ → Statement → ClaimTable → ClaimTable × Bool
unfolding save_idempotent_result insert_claim reclaim renew_idempotency_claim
    complete_idempotency_claim fail_idempotency_claim
execute now (insert_stmt i) t = insert_claim now i t
execute now (reclaim_stmt i) t = reclaim now i t
execute now (renew_stmt i) t = renew_idempotency_claim now i t
execute now (complete_stmt i) t = complete_idempotency_claim now i t
execute now (fail_stmt i) t = fail_idempotency_claim now i t
execute now (save_stmt i) t = (save_idempotent_result now i t, false)

unfoldable pub execute_all : List (ℕ × Statement) → ClaimTable → ClaimTable × List Bool
execute_all [] t = (t, [])
execute_all ((now, s) ∷ ss) t =
    let (t', answer) = execute now s t in
    let (t'', answers) = execute_all ss t' in (t'', answer ∷ answers)
