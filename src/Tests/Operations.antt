-- ===== src/Tests/Operations.antt =====
-- The rows, the cache and the service of the operations, on the state of Tests.
use mckmt.Base.{◌≡◌, refl, ◌≢◌, ◌↔◌, ◌⊎◌, false, some, [], ok, arith}
use mckmt.Repo.{Operation, queued, running, success}
use mckmt.Repo.Store.{find}
use mckmt.Repo.OperationTable.{set_started, cancel_operation}
use mckmt.Repo.OperationTable.Rows.{row}
use mckmt.Repo.OperationTable.Lifecycle.{
  started, cancelled_row, set_started_iff, cancel_operation_iff,
}
use mckmt.Repo.CachedOperations
use mckmt.Repo.CachedOperations.Coherence.{IsCoherent, writes-IsCoherent}
use mckmt.Repo.Interfaces.{table, cached}
use mckmt.Orchestrator
use mckmt.OperationService
use mckmt.OperationService.{get_operation}
use mckmt.OperationService.Reads.{IsSound, get_operation-IsSound}
use mckmt.OperationService.Cancel.{
  IsRequest, cancel_operation_requests, cancel_operation_final, cancel_operation_accepted,
}
use mckmt.Tests.{env, op, w}

set_started_iff_example : ((set_started env 1 w).0 ≡ ok tt) ↔ (
    (r : Operation) × (false ≡ false)
    × (row 1 w ≡ some r)
    × (r.status ≡ queued)
    × (row 1 (set_started env 1 w).1 ≡ some (started 1000 r)))
set_started_iff_example = set_started_iff env 1 w

cancel_operation_iff_example : ((cancel_operation env 2 "stop" w).0 ≡ ok tt) ↔ (
    (r : Operation) × (false ≡ false)
    × (row 2 w ≡ some r)
    × ((r.status ≡ queued) ⊎ (r.status ≡ running))
    × (row 2 (cancel_operation env 2 "stop" w).1 ≡ some (cancelled_row "stop" 1000 r)))
cancel_operation_iff_example = cancel_operation_iff env 2 "stop" w

w-IsCoherent : IsCoherent 1 w
unfolding find
w-IsCoherent = (refl, refl, refl, refl, refl, refl, refl, refl)

writes-IsCoherent_example :
    IsCoherent 1 (CachedOperations.update_operation env (op 1 running) w).1
    × IsCoherent 1 (CachedOperations.update_status env 1 running w).1
    × IsCoherent 1 (CachedOperations.update_result env 1 [] w).1
    × IsCoherent 1 (CachedOperations.set_started env 1 w).1
    × IsCoherent 1 (CachedOperations.set_finished env 1 w).1
    × IsCoherent 1 (CachedOperations.cancel_operation env 1 "stop" w).1
writes-IsCoherent_example =
    writes-IsCoherent env 1 1 w running [] "stop" (op 1 running) refl refl w-IsCoherent

get_operation-IsSound_example :
    IsSound 1 w (get_operation env (table env) 1 w)
    × IsSound 1 w (get_operation env (cached env) 1 w)
get_operation-IsSound_example = get_operation-IsSound env 1 w w-IsCoherent

cancel_operation_requests_example :
    let m = OperationService.cancel_operation env (table env) Orchestrator.cancel_operation 1 w in
    (m.1.operations ≡ w.operations) × IsRequest 1 w m
cancel_operation_requests_example = cancel_operation_requests env 1 w

cancel_operation_final_example :
    (OperationService.cancel_operation env (table env) Orchestrator.cancel_operation 3 w).0 ≢ ok tt
unfolding find
cancel_operation_final_example = cancel_operation_final env 3 w (op 3 success) tt refl refl

cancel_operation_accepted_example :
    (OperationService.cancel_operation env (table env) Orchestrator.cancel_operation 1 w).0 ≡ ok tt
unfolding find
cancel_operation_accepted_example =
    cancel_operation_accepted env 1 w (op 1 queued) (λ _. refl) w-IsCoherent refl refl refl
      (ground arith)
