-- ===== src/Repo/CachedOperations.antt =====
-- internal/repo/postgres/cached_operation_repository.go and the commands of
-- internal/repo/redis/cache_adapter.go that it uses. The JSON of an operation has all its fields,
-- so what is read from the cache is what was put there. Logging is left out.
pub mod Coherence
use mckmt.Base.{ℕ, ◌+◌, String, Option, none, some, List, Result, ok, err}
use mckmt.Repo.{Status, Payload, Operation}
use mckmt.Repo.Store.{Entry, World, Env, M, redis, live, put}
use mckmt.Repo.OperationTable

-- 30*time.Minute
abbrev pub ttl : ℕ
ttl = 1800

module _ (env : Env) where
  -- CacheAdapter.Get, Set and Delete at an operation's key.
  unfoldable pub cache_get : ℕ → M Operation
  cache_get i w = redis env (λ w'. (live (env.now w.calls) (w'.op_cache i), w')) w

  unfoldable pub cache_set : Operation → M (Unit {0})
  cache_set op w =
      let e : Entry Operation = record { value = op; deadline = env.now w.calls + ttl } in
      redis env (λ w'. (ok tt, record w' { op_cache = put op.id (some e) w'.op_cache })) w

  unfoldable pub cache_delete : ℕ → M (Unit {0})
  cache_delete i = redis env λ w. (ok tt, record w { op_cache = put i none w.op_cache })

  -- A failure of the cache is logged, and no more.
  abbrev best_effort : {A : Type 0} → A → Result (Unit {0}) × World → Result A × World
  best_effort a (_, w) = (ok a, w)

  -- The write, and then, if it went through, the invalidation of the entry.
  unfoldable pub invalidating : ℕ → Result (Unit {0}) × World → Result (Unit {0}) × World
  unfolding cache_delete
  invalidating i (err e, w) = (err e, w)
  invalidating i (ok _, w) = best_effort tt (cache_delete i w)

  unfoldable pub create : Operation → M (Unit {0})
  unfolding cache_set
  create op w =
      let (r, w') = OperationTable.create env op w in
      elim r [ err e ↦ (err e, w') | ok _ ↦ best_effort tt (cache_set op w') ]

  unfoldable pub get_by_id : ℕ → M Operation
  unfolding cache_get cache_set
  get_by_id i w =
      let (hit, w₁) = cache_get i w in
      elim hit [
        | ok op ↦ (ok op, w₁)
        | err _ ↦
            let (r, w₂) = OperationTable.get_by_id env i w₁ in
            elim r [ err e ↦ (err e, w₂) | ok op ↦ best_effort op (cache_set op w₂) ]
      ]

  unfoldable pub list_by_cluster : ℕ → ℕ → ℕ → M (List Operation)
  list_by_cluster = OperationTable.list_by_cluster env

  unfoldable pub update_operation : Operation → M (Unit {0})
  unfolding invalidating
  update_operation op w = invalidating op.id (OperationTable.update_operation env op w)

  unfoldable pub update_status : ℕ → Status → M (Unit {0})
  unfolding invalidating
  update_status i s w = invalidating i (OperationTable.update_status env i s w)

  unfoldable pub update_result : ℕ → Payload → M (Unit {0})
  unfolding invalidating
  update_result i p w = invalidating i (OperationTable.update_result env i p w)

  unfoldable pub set_started : ℕ → M (Unit {0})
  unfolding invalidating
  set_started i w = invalidating i (OperationTable.set_started env i w)

  unfoldable pub set_finished : ℕ → M (Unit {0})
  unfolding invalidating
  set_finished i w = invalidating i (OperationTable.set_finished env i w)

  unfoldable pub cancel_operation : ℕ → String → M (Unit {0})
  unfolding invalidating
  cancel_operation i reason w = invalidating i (OperationTable.cancel_operation env i reason w)
