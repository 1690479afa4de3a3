-- ===== src/OperationService/Cancel.antt =====
-- The cancellation of the service and the orchestrator together (OperationService, Orchestrator).
use mckmt.Base.{
  ℕ, ◌+◌, ◌≡◌, ◌<◌, true, false, some, [], ◌∷◌, ◌++◌, Result, ok, err, arith, length, ◌≢◌,
}
use mckmt.Repo.{Operation, is_final}
use mckmt.Repo.Store.{World, Env}
use mckmt.Repo.OperationTable
use mckmt.Repo.OperationTable.{scan}
use mckmt.Repo.OperationTable.Rows.{row}
use mckmt.Repo.CachedOperations.{cache_get, cache_set, cache_delete}
use mckmt.Repo.CachedOperations.Coherence.{IsCoherent}
use mckmt.Repo.Interfaces.{table}
use mckmt.Orchestrator
use mckmt.Orchestrator.{cancel_capacity}
use mckmt.OperationService.{get_operation, cancel_operation}

-- The channel of cancellations after a request, by its result.
abbrev pub IsRequest : ℕ → World → Result (Unit {0}) × World → Type 0
IsRequest i w (ok _, w') = w'.cancel_ch ≡ w.cancel_ch ++ i ∷ []
IsRequest i w (err _, w') = w'.cancel_ch ≡ w.cancel_ch

module _ (env : Env) (i : ℕ) (w : World) where
  abbrev cancel_request : Result (Unit {0}) × World
  cancel_request = cancel_operation env (table env) Orchestrator.cancel_operation i w

  -- CancelOperation of the service changes no row, in any outcome; a request that is accepted has
  -- put this id, and nothing else, behind the others in the channel, and one that is refused has
  -- put nothing there.
  pub cancel_operation_requests :
      (cancel_request.1.operations ≡ w.operations) × IsRequest i w cancel_request
  unfolding cancel_operation get_operation cache_get cache_set cache_delete OperationTable.get_by_id
      Orchestrator.cancel_operation
  cancel_operation_requests = (ground arith, ground arith)

  -- While the cache entry of an operation agrees with its row, CancelOperation of the service
  -- refuses an operation that has ended: the request ends in an error, whichever calls fail.
  pub cancel_operation_final :
      (r : Operation)
      → IsCoherent i w
      → row i w ≡ some r
      → is_final r.status ≡ true
      → (cancel_request).0 ≢ ok tt
  unfolding cancel_operation get_operation cache_get cache_set OperationTable.get_by_id scan
  cancel_operation_final r c h f q = ground arith

  -- While no call fails, the entry agrees with the row, the driver reads a NULL result, and the
  -- channel of the orchestrator has room, CancelOperation of the service accepts a stored operation
  -- that has not ended.
  pub cancel_operation_accepted :
      (r : Operation)
      → ((n : ℕ) → env.fails n ≡ false)
      → IsCoherent i w
      → row i w ≡ some r
      → env.null_as_empty ≡ true
      → is_final r.status ≡ false
      → length w.cancel_ch < cancel_capacity
      → (cancel_request).0 ≡ ok tt
  unfolding cancel_operation get_operation cache_get cache_set cache_delete OperationTable.get_by_id
      scan Orchestrator.cancel_operation
  cancel_operation_accepted r healthy c h d f room = ground (
    arith,
    healthy w.calls,
    healthy (w.calls + 1),
    healthy (w.calls + 1 + 1),
    healthy (w.calls + 1 + 1 + 1),
  )
