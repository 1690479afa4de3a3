-- ===== src/OperationService.antt =====
-- internal/operation/service.go. The cache is the one of the cached repository; the orchestrator
-- is the interface that the service takes.
pub mod Reads
pub mod Cancel
use mckmt.Base.{ℕ, String, Bool, Option, List, Result, ok, err, failed, if◌then◌else◌}
use mckmt.Repo.{Status, is_final, Payload, Operation}
use mckmt.Repo.Store.{World, Env, M}
use mckmt.Repo.Interfaces.{OperationRepository}
use mckmt.Repo.CachedOperations.{cache_get, cache_set, cache_delete}

module _ (env : Env) (repo : OperationRepository) where
  unfoldable pub get_operation : ℕ → M Operation
  get_operation i w =
      let (hit, w₁) = cache_get env i w in
      elim hit [
        | ok op ↦ (ok op, w₁)
        | err _ ↦
            let (r, w₂) = repo.get_by_id i w₁ in
            elim r [ err e ↦ (err e, w₂) | ok op ↦ (ok op, (cache_set env op w₂).1) ]
      ]

  unfoldable pub list_operations_by_cluster : ℕ → ℕ → ℕ → M (List Operation)
  list_operations_by_cluster = repo.list_by_cluster

  unfoldable pub create_operation : Operation → M (Unit {0})
  create_operation op w =
      let (r, w') = repo.create op w in
      elim r [ err e ↦ (err e, w') | ok _ ↦ (ok tt, (cache_set env op w').1) ]

  unfoldable pub update_operation : Operation → M (Unit {0})
  update_operation op w =
      let (r, w') = repo.update_operation op w in
      elim r [ err e ↦ (err e, w') | ok _ ↦ (ok tt, (cache_set env op w').1) ]

  unfoldable pub update_operation_status : ℕ → Status → M (Unit {0})
  update_operation_status i s w =
      let (r, w') = repo.update_status i s w in
      elim r [ err e ↦ (err e, w') | ok _ ↦ (ok tt, (cache_delete env i w').1) ]

  unfoldable pub update_operation_result : ℕ → Payload → M (Unit {0})
  update_operation_result i p w =
      let (r, w') = repo.update_result i p w in
      elim r [ err e ↦ (err e, w') | ok _ ↦ (ok tt, (cache_delete env i w').1) ]

  -- The reason is only logged.
  unfoldable pub cancel_operation : (ℕ → M (Unit {0})) → ℕ → M (Unit {0})
  cancel_operation request i w =
      let (r, w₁) = get_operation i w in
      elim r [
        | err e ↦ (err e, w₁)
        | ok op ↦
            if is_final op.status
            then (err (failed "operation cannot be cancelled"), w₁)
            else (let (q, w₂) = request i w₁ in
                elim q [ err e ↦ (err e, w₂) | ok _ ↦ (ok tt, (cache_delete env i w₂).1) ])
      ]
