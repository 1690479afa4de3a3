-- ===== src/Repo/Interfaces.antt =====
-- The interfaces repo.OperationRepository and repo.ClusterRepository of
-- internal/repo/interfaces.go, each with its two implementations.
use mckmt.Base.{ℕ, String, List}
use mckmt.Repo.{Status, Payload, Operation, ClusterStatus, Cluster}
use mckmt.Repo.Store.{Env, M}
use mckmt.Repo.OperationTable
use mckmt.Repo.CachedOperations
use mckmt.Repo.ClusterTable
use mckmt.Repo.CachedClusters

pub record OperationRepository : Type 0 where
  pub create : Operation → M (Unit {0})
  pub get_by_id : ℕ → M Operation
  pub list_by_cluster : ℕ → ℕ → ℕ → M (List Operation)
  pub update_operation : Operation → M (Unit {0})
  pub update_status : ℕ → Status → M (Unit {0})
  pub update_result : ℕ → Payload → M (Unit {0})
  pub set_started : ℕ → M (Unit {0})
  pub set_finished : ℕ → M (Unit {0})
  pub cancel_operation : ℕ → String → M (Unit {0})

-- NewOperationRepository
abbrev pub table : Env → OperationRepository
table env = record {
  create = OperationTable.create env;
  get_by_id = OperationTable.get_by_id env;
  list_by_cluster = OperationTable.list_by_cluster env;
  update_operation = OperationTable.update_operation env;
  update_status = OperationTable.update_status env;
  update_result = OperationTable.update_result env;
  set_started = OperationTable.set_started env;
  set_finished = OperationTable.set_finished env;
  cancel_operation = OperationTable.cancel_operation env;
}

-- NewCachedOperationRepository
abbrev pub cached : Env → OperationRepository
cached env = record {
  create = CachedOperations.create env;
  get_by_id = CachedOperations.get_by_id env;
  list_by_cluster = CachedOperations.list_by_cluster env;
  update_operation = CachedOperations.update_operation env;
  update_status = CachedOperations.update_status env;
  update_result = CachedOperations.update_result env;
  set_started = CachedOperations.set_started env;
  set_finished = CachedOperations.set_finished env;
  cancel_operation = CachedOperations.cancel_operation env;
}

pub record ClusterRepository : Type 0 where
  pub create : Cluster → M (Unit {0})
  pub get_by_id : ℕ → M Cluster
  pub get_by_name : String → M Cluster
  pub list : ℕ → ℕ → M (List Cluster)
  pub update_cluster : Cluster → M (Unit {0})
  pub delete : ℕ → M (Unit {0})
  pub update_status : ℕ → ClusterStatus → M (Unit {0})
  pub update_last_seen : ℕ → M (Unit {0})

-- NewClusterRepository
abbrev pub cluster_table : Env → ClusterRepository
cluster_table env = record {
  create = ClusterTable.create env;
  get_by_id = ClusterTable.get_by_id env;
  get_by_name = ClusterTable.get_by_name env;
  list = ClusterTable.list env;
  update_cluster = ClusterTable.update_cluster env;
  delete = ClusterTable.delete env;
  update_status = ClusterTable.update_status env;
  update_last_seen = ClusterTable.update_last_seen env;
}

-- NewCachedClusterRepository
abbrev pub cached_clusters : Env → ClusterRepository
cached_clusters env = record {
  create = CachedClusters.create env;
  get_by_id = CachedClusters.get_by_id env;
  get_by_name = CachedClusters.get_by_name env;
  list = CachedClusters.list env;
  update_cluster = CachedClusters.update_cluster env;
  delete = CachedClusters.delete env;
  update_status = CachedClusters.update_status env;
  update_last_seen = CachedClusters.update_last_seen env;
}
