-- ===== src/Http/Clusters/Lists.antt =====
-- The query parameters of ListClusters (Http/Clusters).
use mckmt.Base.{
  ℕ, ◌≤◌, ◌<◌, ◌^◌, ◌≡◌, refl, subst, zero, suc, Bool, true, false, List, [], ◌∷◌, ok, take, drop,
  length, Option, String, arith,
}
use mckmt.Repo.{Cluster}
use mckmt.Repo.Store.{World, Env}
use mckmt.Repo.ClusterTable
use mckmt.Repo.Interfaces.{OperationRepository, cluster_table}
use mckmt.ClusterService
use mckmt.Http.{replies}
use mckmt.Http.Numbers.{ℤ, pos, negsuc, atoi, IsInt64, atoi-IsInt64}
use mckmt.Http.Clusters.{
  Page, Parameter, limit_of, offset_of, reads, refused, read_limit, read_offset, list_clusters,
}

abbrev IsLimit : Parameter → Type 0
IsLimit (reads n) = (0 < n) × (n < 2 ^ 63)
IsLimit (refused _) = Unit {0}

abbrev IsOffset : Parameter → Type 0
IsOffset (reads n) = n < 2 ^ 63
IsOffset (refused _) = Unit {0}

limit_of-IsLimit : (q : ℤ × Bool) → IsInt64 q.0 → IsLimit (limit_of q)
limit_of-IsLimit (n, false) h = tt
limit_of-IsLimit (pos zero, true) h = tt
limit_of-IsLimit (pos (suc n), true) h = (omega arith, h)
limit_of-IsLimit (negsuc n, true) h = tt

offset_of-IsOffset : (q : ℤ × Bool) → IsInt64 q.0 → IsOffset (offset_of q)
offset_of-IsOffset (n, false) h = tt
offset_of-IsOffset (pos n, true) h = h
offset_of-IsOffset (negsuc n, true) h = tt

read_limit-IsLimit : (t : List ℕ) → IsLimit (read_limit t)
unfolding read_limit
read_limit-IsLimit [] = (omega arith, omega arith)
read_limit-IsLimit (c ∷ cs) = limit_of-IsLimit (atoi (c ∷ cs)) (atoi-IsInt64 (c ∷ cs))

read_offset-IsOffset : (t : List ℕ) → IsOffset (read_offset t)
unfolding read_offset
read_offset-IsOffset [] = omega arith
read_offset-IsOffset (c ∷ cs) = offset_of-IsOffset (atoi (c ∷ cs)) (atoi-IsInt64 (c ∷ cs))

length-take : {A : Type 0} → (n : ℕ) (xs : List A) → length (take n xs) ≤ n
length-take zero xs = omega arith
length-take (suc n) [] = omega arith
length-take (suc n) (x ∷ xs) = omega (arith, length-take n xs)

module _ (env : Env) (operations : OperationRepository) (parse : String → Option ℕ) where
  table_length :
      (limit offset : ℕ) (w : World) (cs : List Cluster)
      → (ClusterTable.list env limit offset w).0 ≡ ok cs
      → length cs ≤ limit
  unfolding ClusterTable.list
  table_length limit offset w cs h =
      ground (arith, length-take limit (drop offset (ClusterTable.sorted w.clusters)))

  -- Whatever texts the query has: an answer of 200 has a limit of at least 1, a limit and an offset
  -- that are ints of 64 bits, and no more clusters than the limit says; and its total count is the
  -- number of the clusters of this page, and so never more than the limit.
  pub list_clusters-bounds :
      (limit_text offset_text : List ℕ) (w : World) (p : Page)
      → (list_clusters env (cluster_table env) operations parse limit_text offset_text w).0
        ≡ replies 200 p
      → (0 < p.limit)
        × (p.limit < 2 ^ 63)
        × (p.offset < 2 ^ 63)
        × (length p.clusters ≤ p.limit)
        × (p.total_count ≡ length p.clusters)
  unfolding list_clusters ClusterService.list_clusters
  list_clusters-bounds limit_text offset_text w p h =
      read (read_limit limit_text) (read_offset offset_text) refl refl
        (read_limit-IsLimit limit_text) (read_offset-IsOffset offset_text)
    where
      read :
          (a b : Parameter)
          → read_limit limit_text ≡ a
          → read_offset offset_text ≡ b
          → IsLimit (read_limit limit_text)
          → IsOffset (read_offset offset_text)
          → (0 < p.limit)
            × (p.limit < 2 ^ 63)
            × (p.offset < 2 ^ 63)
            × (length p.clusters ≤ p.limit)
            × (p.total_count ≡ length p.clusters)
      read (refused m) b e f u v = ground arith
      read (reads n) (refused m) e f u v = ground arith
      read (reads n) (reads o) e f u v =
          let u' = subst IsLimit e u in
          let v' = subst IsOffset f v in
          let found : (ClusterTable.list env n o w).0 ≡ ok p.clusters = ground arith in
          (
            ground arith,
            ground arith,
            ground arith,
            ground (arith, table_length n o w p.clusters found),
            ground arith,
          )
