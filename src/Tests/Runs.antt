-- ===== src/Tests/Runs.antt =====
-- The orchestrator, on the state of Tests.
use mckmt.Base.{◌≡◌, refl, false, some, arith}
use mckmt.Repo.{queued, success, apply}
use mckmt.Repo.Store.{find}
use mckmt.Repo.OperationTable.Rows.{row}
use mckmt.Repo.OperationTable.Lifecycle.{started}
use mckmt.Repo.Interfaces.{table}
use mckmt.Orchestrator.{Context, process_operation}
use mckmt.Orchestrator.Runs.{settled, process-queued}
use mckmt.Orchestrator.Traces.{process_not_queued}
use mckmt.Tests.{env, op, w}

abbrev ctx : Context
ctx = record { before = false; during = false; settling = false }

process-queued_example :
    row 1 (process_operation (table env) ctx (op 1 queued) w)
    ≡ some (settled ctx apply 1004 (started 1001 (op 1 queued)))
unfolding find
process-queued_example =
    process-queued env (λ _. refl) ctx (op 1 queued) (op 1 queued) w refl refl refl

process_not_queued_example :
    (process_operation (table env) ctx (op 3 success) w).operations ≡ w.operations
unfolding find
process_not_queued_example =
    process_not_queued env ctx (op 3 success) w (op 3 success) refl (λ e. ground arith)
