-- ===== src/Commands/Index/Tests.antt =====
-- An index run at concrete tables, one call of which fails, and the theorem about it there.
use shared_dev_context_layer.Base.{ℕ, some, nat_eq, if◌then◌else◌}
use shared_dev_context_layer.Persistence.IndexRuns.{no_counts}
use shared_dev_context_layer.Commands.Session.{value, Fault, works, fails}
use shared_dev_context_layer.Commands.Index.{WorkspaceIndexResult, RunIndex}

abbrev indexed : WorkspaceIndexResult
indexed = record { message = "done"; root_path = some "/w"; metrics = no_counts }

abbrev run_index : RunIndex
run_index project snapshot = value indexed

-- The call that sets the status fails.
abbrev second_fails : ℕ → Fault
second_fails n = if nat_eq n 2 then fails "down" else works
