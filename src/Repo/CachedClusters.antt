-- ===== src/Repo/CachedClusters.antt =====
-- internal/repo/postgres/cached_cluster_repository.go and the commands of
-- internal/repo/redis/cache_adapter.go that it uses. The JSON of a cluster leaves the encrypted
-- credentials out (the tag `json:"-"`). Logging and metrics are left out.
use mckmt.Base.{ℕ, ◌+◌, String, none, some, List, [], Result, ok, err}
use mckmt.Repo.{ClusterStatus, Cluster}
use mckmt.Repo.Store.{Entry, World, Env, M, redis, live, put}
use mckmt.Repo.ClusterTable

-- 1*time.Hour
abbrev pub ttl : ℕ
ttl = 3600

-- What json.Unmarshal makes of the text that json.Marshal wrote.
abbrev pub through_json : Cluster → Cluster
through_json c = record c { encrypted_credentials = [] }

module _ (env : Env) where
  unfoldable pub cache_get : ℕ → M Cluster
  cache_get i w = redis env (λ w'. (live (env.now w.calls) (w'.cluster_cache i), w')) w

  unfoldable pub cache_set : Cluster → M (Unit {0})
  cache_set c w =
      let e : Entry Cluster = record { value = through_json c; deadline = env.now w.calls + ttl } in
      redis env (λ w'. (ok tt, record w' { cluster_cache = put c.id (some e) w'.cluster_cache })) w

  unfoldable pub cache_delete : ℕ → M (Unit {0})
  cache_delete i = redis env λ w. (ok tt, record w { cluster_cache = put i none w.cluster_cache })

  unfoldable pub create : Cluster → M (Unit {0})
  create c w =
      let (r, w') = ClusterTable.create env c w in
      elim r [ err e ↦ (err e, w') | ok _ ↦ (ok tt, (cache_set c w').1) ]

  unfoldable pub get_by_id : ℕ → M Cluster
  get_by_id i w =
      let (hit, w₁) = cache_get i w in
      elim hit [
        | ok c ↦ (ok c, w₁)
        | err _ ↦
            let (r, w₂) = ClusterTable.get_by_id env i w₁ in
            elim r [ err e ↦ (err e, w₂) | ok c ↦ (ok c, (cache_set c w₂).1) ]
      ]

  unfoldable pub get_by_name : String → M Cluster
  get_by_name = ClusterTable.get_by_name env

  unfoldable pub list : ℕ → ℕ → M (List Cluster)
  list = ClusterTable.list env

  unfoldable pub update_cluster : Cluster → M (Unit {0})
  update_cluster c w =
      let (r, w') = ClusterTable.update_cluster env c w in
      elim r [ err e ↦ (err e, w') | ok _ ↦ (ok tt, (cache_set c w').1) ]

  -- Delete, UpdateStatus and UpdateLastSeen: the write, and then, if it went through, the
  -- invalidation of the entry.
  unfoldable pub invalidating : ℕ → Result (Unit {0}) × World → Result (Unit {0}) × World
  invalidating i (err e, w) = (err e, w)
  invalidating i (ok _, w) = (ok tt, (cache_delete i w).1)

  unfoldable pub delete : ℕ → M (Unit {0})
  delete i w = invalidating i (ClusterTable.delete env i w)

  unfoldable pub update_status : ℕ → ClusterStatus → M (Unit {0})
  update_status i s w = invalidating i (ClusterTable.update_status env i s w)

  unfoldable pub update_last_seen : ℕ → M (Unit {0})
  update_last_seen i w = invalidating i (ClusterTable.update_last_seen env i w)
