-- ===== src/Tests/Clusters.antt =====
-- The clusters, on the state of Tests.
use mckmt.Base.{◌≡◌, refl, some, [], ◌∷◌, ok, arith}
use mckmt.Repo.{Labels}
use mckmt.Repo.Store.{find}
use mckmt.Repo.ClusterTable.{name_taken}
use mckmt.Repo.ClusterTable.Laws.{cluster}
use mckmt.Repo.Interfaces.{cached_clusters}
use mckmt.ClusterService.{update_cluster}
use mckmt.ClusterService.Updates.{update_cluster_erases_credentials}
use mckmt.Tests.{env, w, cluster_row, credentials_hidden}

abbrev new_labels : Labels
new_labels = ("env", "live") ∷ []

update_cluster_erases_credentials_example :
    let m = update_cluster env (cached_clusters env) 7 "main" "first" new_labels w in
    (m.0 ≡ ok tt)
    × (cluster 7 m.1
        ≡ some (record (cluster_row 7 "prod") {
          name = "main";
          description = "first";
          labels = new_labels;
          encrypted_credentials = [];
        }))
unfolding find name_taken
update_cluster_erases_credentials_example =
    update_cluster_erases_credentials env (λ _. refl) 7 "main" "first" new_labels w
      (cluster_row 7 "prod") refl refl refl
      (record { value = credentials_hidden (cluster_row 7 "prod"); deadline = 2000 }) refl refl
      (ground arith)
