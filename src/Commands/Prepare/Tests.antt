-- ===== src/Commands/Prepare/Tests.antt =====
-- Preparations at concrete tables, and the theorems about them there.
use shared_dev_context_layer.Base.{[]}
use shared_dev_context_layer.Persistence.Idempotency.{
  CommandKey, RecordStatus, SaveResultInput, save_idempotent_result,
}
use shared_dev_context_layer.Commands.Session.{value, Session}
use shared_dev_context_layer.Commands.Tests.{deps, draft, runtime, calm, start_in}
use shared_dev_context_layer.Commands.Prepare.{
  RetrievedContext, PrepareDeps, prepare_key, prepare_key_of,
}

abbrev context : RetrievedContext
context = record { selected_chunks = 2; ranking_evidence = 1 }

abbrev prepare : PrepareDeps
prepare = record {
  retrieve = λ i p s. value context;
  build_task = λ i c s. value draft;
  to_lower = λ s. s;
}

abbrev fix_key : CommandKey
fix_key = prepare_key deps calm prepare "P" (prepare_key_of deps calm prepare "fix" "P" runtime)

abbrev fix_saved : SaveResultInput
fix_saved = record { key = fix_key; response_json = "R"; status = RecordStatus.ok }

abbrev fix_recorded : Session
fix_recorded = record (start_in "completed") {
  tables = record (start_in "completed").tables { claims = save_idempotent_result 0 fix_saved [] };
}
