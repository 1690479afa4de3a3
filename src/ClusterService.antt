-- ===== src/ClusterService.antt =====
-- internal/cluster/service.go.
pub mod Updates
pub mod Resources
use mckmt.Base.{ℕ, String, List, Result, ok, err}
use mckmt.Repo.{Labels, Cluster, Operation}
use mckmt.Repo.Store.{World, Env, M}
use mckmt.Repo.Interfaces.{OperationRepository, ClusterRepository}
use mckmt.Repo.CachedClusters.{cache_get, cache_set, cache_delete}

module _ (env : Env) (repo : ClusterRepository) where
  unfoldable pub get_cluster : ℕ → M Cluster
  get_cluster i w =
      let (hit, w₁) = cache_get env i w in
      elim hit [
        | ok c ↦ (ok c, w₁)
        | err _ ↦
            let (r, w₂) = repo.get_by_id i w₁ in
            elim r [ err e ↦ (err e, w₂) | ok c ↦ (ok c, (cache_set env c w₂).1) ]
      ]

  unfoldable pub list_clusters : ℕ → ℕ → M (List Cluster)
  list_clusters = repo.list

  unfoldable pub register_cluster : Cluster → M (Unit {0})
  register_cluster c w =
      let (r, w') = repo.create c w in
      elim r [ err e ↦ (err e, w') | ok _ ↦ (ok tt, (cache_set env c w').1) ]

  -- The cluster that was read, with the new name, description and labels, is written back.
  unfoldable pub update_cluster : ℕ → String → String → Labels → M (Unit {0})
  update_cluster i name description labels w =
      let (r, w₁) = repo.get_by_id i w in
      elim r [
        | err e ↦ (err e, w₁)
        | ok c ↦
            let c' : Cluster = record c {
              name = name;
              description = description;
              labels = labels;
            } in
            let (q, w₂) = repo.update_cluster c' w₁ in
            elim q [ err e ↦ (err e, w₂) | ok _ ↦ (ok tt, (cache_set env c' w₂).1) ]
      ]

  unfoldable pub delete_cluster : ℕ → M (Unit {0})
  delete_cluster i w =
      let (r, w') = repo.delete i w in
      elim r [ err e ↦ (err e, w') | ok _ ↦ (ok tt, (cache_delete env i w').1) ]

-- CreateOperation and QueueOperation hand the operation on.
abbrev pub create_operation : OperationRepository → Operation → M (Unit {0})
create_operation repo op = repo.create op

abbrev pub queue_operation : (Operation → M (Unit {0})) → Operation → M (Unit {0})
queue_operation orchestrator op = orchestrator op
