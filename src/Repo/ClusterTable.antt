-- ===== src/Repo/ClusterTable.antt =====
-- internal/repo/postgres/cluster_repository.go, over the `clusters` table of the schema. Errors of
-- the driver are passed on unwrapped. The statements never name the column `endpoint`.
pub mod Laws
use mckmt.Base.{
  ℕ, String, Bool, true, false, not, ◌&&◌, ◌||◌, Option, none, some, List, [], ◌∷◌, ok, err,
  no_rows, constraint_violated, ◌==◌, leb, if◌then◌else◌, take, drop, str_eq,
}
use mckmt.Repo.{ClusterStatus, Cluster, Operation, cluster_id}
use mckmt.Repo.Store.{Env, M, db, find, update, remove}

-- CHECK (status IN ('pending', 'connected', 'disconnected', 'error'))
abbrev pub allowed : ClusterStatus → Bool
allowed (ClusterStatus.other _) = false
allowed _ = true

unfoldable pub find_name : String → List Cluster → Option Cluster
find_name n [] = none
find_name n (c ∷ cs) = if str_eq c.name n then some c else find_name n cs

-- UNIQUE (name): some row with another id has this name.
unfoldable pub name_taken : ℕ → String → List Cluster → Bool
name_taken i n [] = false
name_taken i n (c ∷ cs) = str_eq c.name n && not (c.id == i) || name_taken i n cs

-- ON DELETE CASCADE of the foreign key of `operations`.
unfoldable pub remove_operations : ℕ → List Operation → List Operation
remove_operations c [] = []
remove_operations c (o ∷ os) =
    let rest = remove_operations c os in if o.cluster_id == c then rest else o ∷ rest

unfoldable pub newest_first : Cluster → List Cluster → List Cluster
newest_first c [] = c ∷ []
newest_first c (d ∷ ds) =
    if leb d.created_at c.created_at then c ∷ d ∷ ds else d ∷ newest_first c ds

unfoldable pub sorted : List Cluster → List Cluster
unfolding newest_first
sorted [] = []
sorted (c ∷ cs) = newest_first c (sorted cs)

-- The SET of the UPDATE statements.
abbrev pub set_fields : Cluster → Cluster → Option Cluster
set_fields c row = some (record row {
  name = c.name;
  description = c.description;
  labels = c.labels;
  encrypted_credentials = c.encrypted_credentials;
  status = c.status;
  last_seen_at = c.last_seen_at;
  updated_at = c.updated_at;
})

abbrev pub to_status : ClusterStatus → ℕ → Cluster → Option Cluster
to_status s now row = some (record row { status = s; updated_at = now })

abbrev pub seen_at : ℕ → Cluster → Option Cluster
seen_at now row = some (record row { last_seen_at = some now; updated_at = now })

module _ (env : Env) where
  unfoldable pub create : Cluster → M (Unit {0})
  create c = db env λ w. elim (find cluster_id c.id w.clusters) [
    | some _ ↦ (err constraint_violated, w)
    | none ↦
        if name_taken c.id c.name w.clusters || not (allowed c.status)
        then (err constraint_violated, w)
        else (ok tt, record w { clusters = record c { endpoint = "" } ∷ w.clusters })
  ]

  unfoldable pub get_by_id : ℕ → M Cluster
  get_by_id i =
      db env
        λ w. elim (find cluster_id i w.clusters) [ none ↦ (err no_rows, w) | some c ↦ (ok c, w) ]

  unfoldable pub get_by_name : String → M Cluster
  get_by_name n =
      db env λ w. elim (find_name n w.clusters) [ none ↦ (err no_rows, w) | some c ↦ (ok c, w) ]

  unfoldable pub list : ℕ → ℕ → M (List Cluster)
  unfolding sorted
  list limit offset = db env λ w. (ok (take limit (drop offset (sorted w.clusters))), w)

  -- An UPDATE by id; an id without a row is no error. CHECK and UNIQUE are those of the schema.
  unfoldable pub update_row : ℕ → (Cluster → Option Cluster) → M (Unit {0})
  update_row i change = db env λ w. elim (find cluster_id i w.clusters) [
    | none ↦ (ok tt, w)
    | some c ↦ elim (change c) [
      | none ↦ (ok tt, w)
      | some c' ↦
          if allowed c'.status && not (name_taken i c'.name w.clusters)
          then (ok tt, record w { clusters = update cluster_id i change w.clusters })
          else (err constraint_violated, w)
    ]
  ]

  unfoldable pub update_cluster : Cluster → M (Unit {0})
  update_cluster c = update_row c.id (set_fields c)

  unfoldable pub update_status : ℕ → ClusterStatus → M (Unit {0})
  update_status i s w = update_row i (to_status s (env.now w.calls)) w

  unfoldable pub update_last_seen : ℕ → M (Unit {0})
  update_last_seen i w = update_row i (seen_at (env.now w.calls)) w

  unfoldable pub delete : ℕ → M (Unit {0})
  delete i = db env λ w. (
    ok tt,
    record w {
      clusters = remove cluster_id i w.clusters;
      operations = remove_operations i w.operations;
    },
  )
