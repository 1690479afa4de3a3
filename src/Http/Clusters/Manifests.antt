-- ===== src/Http/Clusters/Manifests.antt =====
-- ApplyManifests (Http/Clusters) with the operations table and the orchestrator's queue.
use mckmt.Base.{
  ℕ, ◌<◌, ◌≡◌, ◌≢◌, ◌↔◌, String, false, Option, none, some, [], ◌∷◌, ◌++◌, if◌then◌else◌, ltb,
  length, arith, ==_iff,
}
use mckmt.Repo.{Operation, op_id, cluster_id}
use mckmt.Repo.Store.{World, Env, find}
use mckmt.Repo.OperationTable
use mckmt.Repo.Interfaces.{ClusterRepository, table}
use mckmt.Orchestrator.{queue_capacity, queue_operation}
use mckmt.Http.{Reply, replies, status}
use mckmt.Http.Clusters.{file, apply_operation, apply_manifests}

module _ (env : Env) (clusters : ClusterRepository) (parse : String → Option ℕ) (i c : ℕ)
    (key manifests : String) (w : World) where
  abbrev after : Reply Operation × World
  after = apply_manifests env clusters (table env) parse i key (file manifests) w

  abbrev op : Operation
  op = apply_operation env clusters (table env) parse i c manifests

  -- Manifests for a cluster that is there, under a new id, where the database answers: the operation is
  -- stored as queued whether or not the orchestrator takes it; the answer is 202 exactly if the queue
  -- has room, and then the operation is its last element; where the queue is full it stays as it is.
  pub apply_manifests_stores :
      env.fails w.calls ≡ false
      → parse key ≡ some c
      → find cluster_id c w.clusters ≢ none
      → find op_id i w.operations ≡ none
      → (find op_id i after.1.operations
          ≡ some (record op { created_at = env.now w.calls; updated_at = env.now w.calls }))
        × ((status after.0 ≡ 202) ↔ (length w.queue < queue_capacity))
        × (after.1.queue
            ≡ (if ltb (length w.queue) queue_capacity then w.queue ++ op ∷ [] else w.queue))
  unfolding apply_manifests OperationTable.create queue_operation find
  apply_manifests_stores f p has new = (ground (arith, ==_iff i i), ground arith, ground arith)

  -- Only a cluster that is there gets an operation: an answer of 202 means that the path names a
  -- cluster of the table and that the id was new.
  pub apply_manifests-known :
      (o : Operation)
      → after.0 ≡ replies 202 o
      → parse key ≡ some c
      → (o ≡ op)
        × (find cluster_id c w.clusters ≢ none)
        × (find op_id i w.operations ≡ none)
        × (after.1.queue ≡ w.queue ++ o ∷ [])
  unfolding apply_manifests OperationTable.create queue_operation
  apply_manifests-known o h p = (ground arith, ground arith, ground arith, ground arith)
