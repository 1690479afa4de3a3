-- ===== src/ClusterService/Updates.antt =====
-- UpdateCluster over the two repositories (ClusterService).
use mckmt.Base.{ℕ, ◌+◌, String, ◌≡◌, ◌<◌, true, false, some, [], ok, arith}
use mckmt.Repo.{Labels, Cluster, cluster_id}
use mckmt.Repo.Store.{Entry, World, Env}
use mckmt.Repo.Store.Laws.{key-find, find-update_self}
use mckmt.Repo.ClusterTable
use mckmt.Repo.ClusterTable.{allowed, name_taken, set_fields, update_row}
use mckmt.Repo.ClusterTable.Laws.{cluster, Keeps-id}
use mckmt.Repo.CachedClusters
use mckmt.Repo.CachedClusters.{cache_get, cache_set, through_json}
use mckmt.Repo.Interfaces.{cluster_table, cached_clusters}
use mckmt.ClusterService.{update_cluster}

module _ (env : Env) (healthy : (n : ℕ) → env.fails n ≡ false) (i : ℕ) (name description : String)
    (labels : Labels) (w : World) (c : Cluster) (stored : cluster i w ≡ some c)
    (valid : allowed c.status ≡ true) (free : name_taken i name w.clusters ≡ false) where
  -- Over the repository of the table, while no call fails, where the cluster is stored with a
  -- status that the schema allows and no other cluster has the new name: UpdateCluster gives the
  -- row the new name, description and labels, and leaves its other columns.
  pub update_cluster_table :
      let m = update_cluster env (cluster_table env) i name description labels w in
      (m.0 ≡ ok tt)
      × (cluster i m.1
          ≡ some (record c { name = name; description = description; labels = labels }))
  unfolding update_cluster ClusterTable.get_by_id ClusterTable.update_cluster update_row cache_set
  update_cluster_table = ground (
    arith,
    healthy w.calls,
    healthy (w.calls + 1),
    key-find cluster_id i w.clusters c stored,
    find-update_self cluster_id c.id (set_fields renamed) w.clusters c renamed
        (Keeps-id renamed c.status 0).0,
  )
    where
      renamed : Cluster
      renamed = record c { name = name; description = description; labels = labels }

  -- Over the cached repository, under the same conditions on the calls, the row and the name, where
  -- the entry of the cluster is alive and tells the same but for the credentials (which no entry
  -- holds): UpdateCluster erases the credentials in the table.
  pub update_cluster_erases_credentials :
      (e : Entry Cluster)
      → w.cluster_cache i ≡ some e
      → e.value ≡ through_json c
      → env.now w.calls < e.deadline
      → let m = update_cluster env (cached_clusters env) i name description labels w in
        (m.0 ≡ ok tt)
        × (cluster i m.1
            ≡ some (record c {
              name = name;
              description = description;
              labels = labels;
              encrypted_credentials = [];
            }))
  unfolding update_cluster CachedClusters.get_by_id CachedClusters.update_cluster
      ClusterTable.update_cluster update_row cache_get cache_set
  update_cluster_erases_credentials e h v t = ground (
    arith,
    healthy w.calls,
    healthy (w.calls + 1),
    key-find cluster_id i w.clusters c stored,
    find-update_self cluster_id c.id (set_fields renamed) w.clusters c renamed
        (Keeps-id renamed c.status 0).0,
  )
    where
      renamed : Cluster
      renamed = record c {
        name = name;
        description = description;
        labels = labels;
        encrypted_credentials = [];
      }
