-- ===== src/OperationService/Reads.antt =====
-- What the reads of the service return (OperationService).
use mckmt.Base.{
  ℕ, ◌+◌, ◌≡◌, false, Option, none, some, Result, ok, err, arith, ◌<◌, Option-cases, inl, inr,
}
use mckmt.Repo.{Operation}
use mckmt.Repo.Store.{World, Env, tick}
use mckmt.Repo.OperationTable
use mckmt.Repo.OperationTable.{update_row, scan}
use mckmt.Repo.OperationTable.Rows.{row}
use mckmt.Repo.CachedOperations
use mckmt.Repo.CachedOperations.{cache_get, cache_set, cache_delete, ttl}
use mckmt.Repo.CachedOperations.Coherence.{Same, IsCoherent}
use mckmt.Repo.Interfaces.{OperationRepository, table, cached}
use mckmt.OperationService.{get_operation, update_operation}

abbrev pub Shows : Operation → Option Operation → Type 0
Shows op none = ⊥
Shows op (some r) = Same op r

-- A read of an operation that returns nothing but its row.
abbrev pub IsSound : ℕ → World → Result Operation × World → Type 0
IsSound i w (ok op, _) = Shows op (row i w)
IsSound i w (err _, _) = Unit {0}

module _ (env : Env) (i : ℕ) where
  cache_get-IsSound : (w : World) → IsCoherent i w → IsSound i w (cache_get env i w)
  unfolding cache_get
  cache_get-IsSound w c = elim (Option-cases (row i w)) [
    | inl e ↦ ground arith
    | inr (r, e) ↦ ground arith
  ]

  cache_get_keeps : (w : World) → ((cache_get env i w).1 ≡ tick w)
  unfolding cache_get
  cache_get_keeps w = ground arith

  table-IsSound : (w : World) → IsSound i w (OperationTable.get_by_id env i w)
  unfolding OperationTable.get_by_id scan
  table-IsSound w = elim (Option-cases (row i w)) [
    | inl e ↦ ground arith
    | inr (r, e) ↦ ground arith
  ]

  -- A read through the cache is sound if the read behind it is.
  through_cache-IsSound :
      (repo : OperationRepository)
      → ((w : World) → IsCoherent i w → IsSound i w (repo.get_by_id i w))
      → (w : World) → IsCoherent i w
      → IsSound i w (get_operation env repo i w)
  unfolding get_operation
  through_cache-IsSound repo sound w c =
      ground (arith, cache_get-IsSound w c, cache_get_keeps w, sound (tick w) c)

  cached-IsSound : (w : World) → IsCoherent i w → IsSound i w (CachedOperations.get_by_id env i w)
  unfolding CachedOperations.get_by_id
  cached-IsSound w c =
      ground (arith, cache_get-IsSound w c, cache_get_keeps w, table-IsSound (tick w))

-- While the entry of an operation agrees with its row, GetOperation of the service (over either
-- repository) returns nothing but that row, up to the two times that the database sets, whichever
-- calls fail.
pub get_operation-IsSound :
    (env : Env) (i : ℕ) (w : World)
    → IsCoherent i w
    → IsSound i w (get_operation env (table env) i w)
      × IsSound i w (get_operation env (cached env) i w)
get_operation-IsSound env i w c = (
  through_cache-IsSound env i (table env) (λ u _. table-IsSound env i u) w c,
  through_cache-IsSound env i (cached env) (cached-IsSound env i) w c,
)

-- The UPDATE of an id that has no row is no error, and the service then caches the operation that
-- it was given: while no call fails and the entry lives, GetOperation returns an operation that is
-- not in the table.
pub update_operation_phantom :
    (env : Env) (op : Operation) (w : World)
    → ((n : ℕ) → env.fails n ≡ false)
    → row op.id w ≡ none
    → env.now (w.calls + 1 + 1) < env.now (w.calls + 1) + ttl
    → let m = update_operation env (table env) op w in
      (m.0 ≡ ok tt) × ((get_operation env (table env) op.id m.1).0 ≡ ok op) × (row op.id m.1 ≡ none)
unfolding update_operation get_operation cache_get cache_set OperationTable.update_operation
    update_row
update_operation_phantom env op w f h t = (
  ground (arith, f w.calls),
  ground (arith, f w.calls, f (w.calls + 1), f (w.calls + 1 + 1)),
  ground (arith, f w.calls, f (w.calls + 1)),
)
