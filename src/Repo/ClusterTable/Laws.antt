-- ===== src/Repo/ClusterTable/Laws.antt =====
-- The rows of the `clusters` table after a write (Repo/ClusterTable).
use mckmt.Base.{
  ℕ, ◌≡◌, ◌≢◌, true, false, Option, none, some, List, [], ◌∷◌, ◌==◌, arith, All, Bool-cases, inl,
  inr, ok,
}
use mckmt.Repo.{ClusterStatus, Cluster, Operation, cluster_id}
use mckmt.Repo.Store.{World, Env, find}
use mckmt.Repo.Store.Laws.{
  Keeps, find-update_self, find-update_ne, find-remove_self, find-remove_ne,
}
use mckmt.Repo.ClusterTable.{
  allowed, name_taken, set_fields, to_status, seen_at, update_row, delete, remove_operations,
}

abbrev pub cluster : ℕ → World → Option Cluster
cluster i w = find cluster_id i w.clusters

-- None of the statements changes the primary key.
pub Keeps-id :
    (c : Cluster) (s : ClusterStatus) (now : ℕ)
    → Keeps cluster_id (set_fields c)
      × Keeps cluster_id (to_status s now)
      × Keeps cluster_id (seen_at now)
Keeps-id c s now = (λ r r' h. ground arith, λ r r' h. ground arith, λ r r' h. ground arith)

module _ (env : Env) (i : ℕ) (change : Cluster → Option Cluster) (w : World) where
  pub update_row_ne :
      (j : ℕ)
      → Keeps cluster_id change
      → i ≢ j
      → cluster j (update_row env i change w).1 ≡ cluster j w
  unfolding update_row
  update_row_ne j k n = ground (arith, find-update_ne cluster_id i j change w.clusters k n)

  pub update_row_done :
      (r r' : Cluster)
      → Keeps cluster_id change
      → env.fails w.calls ≡ false
      → cluster i w ≡ some r
      → change r ≡ some r'
      → allowed r'.status ≡ true
      → name_taken i r'.name w.clusters ≡ false
      → ((update_row env i change w).0 ≡ ok tt)
        × (cluster i (update_row env i change w).1 ≡ some r')
  unfolding update_row
  update_row_done r r' k f h c a u =
      ground (arith, find-update_self cluster_id i change w.clusters r r' k h c)

module _ (env : Env) (i j : ℕ) (w : World) where
  remove_operations_others :
      (os : List Operation) → All (λ o. o.cluster_id ≢ i) (remove_operations i os)
  unfolding remove_operations
  remove_operations_others [] = tt
  remove_operations_others (o ∷ os) = elim (Bool-cases (o.cluster_id == i)) [
    | inl e ↦ rw e (remove_operations_others os)
    | inr e ↦ rw e (ground arith, remove_operations_others os)
  ]

  -- A Delete that goes through leaves neither the cluster nor an operation of it, and leaves each
  -- other cluster as it was.
  pub delete_cascades :
      env.fails w.calls ≡ false
      → i ≢ j
      → let w' = (delete env i w).1 in
        (cluster i w' ≡ none)
        × All (λ o. o.cluster_id ≢ i) w'.operations
        × (cluster j w' ≡ cluster j w)
  unfolding delete
  delete_cascades f n = rw f (
    find-remove_self cluster_id i w.clusters,
    remove_operations_others w.operations,
    find-remove_ne cluster_id i j w.clusters n,
  )
