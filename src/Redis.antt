-- ===== src/Redis.antt =====
-- internal/repo/redis/manager.go. The client of go-redis and the JSON of a value are parameters; a key
-- is the list of its bytes.
pub mod Keys
pub mod Laws
use mckmt.Base.{
  ℕ, String, Bool, true, false, Option, none, some, List, [], ◌∷◌, ◌++◌, Result, ok, err, Error,
  cache_miss, failed, wrapped, if◌then◌else◌, ltb, codes,
}
use mckmt.Auth.Middleware.{Bytes, bytes_eq}

-- The commands of the client, over whatever state Redis keeps. GET of a key that is not there gives
-- `none`, the error redis.Nil.
pub record Client (S : Type 0) : Type 0 where
  pub set : Bytes → Bytes → ℕ → S → Result (Unit {0}) × S
  pub get : Bytes → S → Result (Option Bytes) × S
  pub del : List Bytes → S → Result (Unit {0}) × S
  pub exists : Bytes → S → Result ℕ × S
  pub set_nx : Bytes → Bytes → ℕ → S → Result Bool × S
  pub incr : Bytes → S → Result ℕ × S
  pub incr_by : Bytes → ℕ → S → Result ℕ × S
  pub expire : Bytes → ℕ → S → Result (Unit {0}) × S
  pub ttl : Bytes → S → Result ℕ × S
  pub keys : Bytes → S → Result (List Bytes) × S
  pub flush_db : S → Result (Unit {0}) × S
  pub ping : S → Result (Unit {0}) × S

-- json.Marshal and json.Unmarshal.
pub record Json (A : Type 0) : Type 0 where
  pub marshal : A → Result Bytes
  pub unmarshal : Bytes → Result A

-- The key generators.
abbrev pub cluster_key : Bytes → Bytes
cluster_key i = codes "cluster:" ++ i

abbrev pub operation_key : Bytes → Bytes
operation_key i = codes "operation:" ++ i

abbrev pub user_key : Bytes → Bytes
user_key i = codes "user:" ++ i

abbrev pub session_key : Bytes → Bytes
session_key token = codes "session:" ++ token

unfoldable pub cluster_resources_key : Bytes → Bytes → Bytes → Bytes
cluster_resources_key i kind namespace =
    if bytes_eq namespace []
    then codes "cluster:" ++ (i ++ (codes ":resources:" ++ kind))
    else codes "cluster:" ++ (i ++ (codes ":resources:" ++ (kind ++ (codes ":" ++ namespace))))

unfoldable pub cluster_resource_key : Bytes → Bytes → Bytes → Bytes → Bytes
cluster_resource_key i kind namespace name =
    let named : Bytes =
      kind
      ++ (codes ":"
          ++ (if bytes_eq namespace [] then name else namespace ++ (codes ":" ++ name))) in
    codes "cluster:" ++ (i ++ (codes ":resource:" ++ named))

abbrev pub cluster_status_key : Bytes → Bytes
cluster_status_key i = codes "cluster:" ++ (i ++ codes ":status")

abbrev pub cluster_metrics_key : Bytes → Bytes
cluster_metrics_key i = codes "cluster:" ++ (i ++ codes ":metrics")

-- "cluster:<id>:resources:", and the pattern that ends in a star
abbrev pub resources_prefix : Bytes → Bytes
resources_prefix i = codes "cluster:" ++ (i ++ codes ":resources:")

abbrev pub resources_pattern : Bytes → Bytes
resources_pattern i = resources_prefix i ++ codes "*"

module _ {S : Type 0} (client : Client S) where
  module _ {A : Type 0} (json : Json A) where
    unfoldable pub set : Bytes → A → ℕ → S → Result (Unit {0}) × S
    set key value expiration s = elim (json.marshal value) [
      | err e ↦ (err (wrapped "failed to marshal value" e), s)
      | ok bytes ↦ client.set key bytes expiration s
    ]

    unfoldable pub get : Bytes → S → Result A × S
    get key s =
        let (r, s₁) = client.get key s in
        elim r [
          | err e ↦ (err (wrapped "failed to get value" e), s₁)
          | ok none ↦ (err cache_miss, s₁)
          | ok (some bytes) ↦ elim (json.unmarshal bytes) [
            | err e ↦ (err (wrapped "failed to unmarshal value" e), s₁)
            | ok value ↦ (ok value, s₁)
          ]
        ]

    unfoldable pub set_nx : Bytes → A → ℕ → S → Result Bool × S
    set_nx key value expiration s = elim (json.marshal value) [
      | err e ↦ (err (wrapped "failed to marshal value" e), s)
      | ok bytes ↦ client.set_nx key bytes expiration s
    ]

    -- The six methods on what is cached of a cluster.
    abbrev pub set_cluster_resources : Bytes → Bytes → Bytes → A → ℕ → S → Result (Unit {0}) × S
    set_cluster_resources i kind namespace = set (cluster_resources_key i kind namespace)

    abbrev pub get_cluster_resources : Bytes → Bytes → Bytes → S → Result A × S
    get_cluster_resources i kind namespace = get (cluster_resources_key i kind namespace)

    abbrev pub set_cluster_resource :
        Bytes → Bytes → Bytes → Bytes → A → ℕ → S → Result (Unit {0}) × S
    set_cluster_resource i kind namespace name = set (cluster_resource_key i kind namespace name)

    abbrev pub get_cluster_resource : Bytes → Bytes → Bytes → Bytes → S → Result A × S
    get_cluster_resource i kind namespace name = get (cluster_resource_key i kind namespace name)

    abbrev pub set_cluster_status : Bytes → A → ℕ → S → Result (Unit {0}) × S
    set_cluster_status i = set (cluster_status_key i)

    abbrev pub get_cluster_status : Bytes → S → Result A × S
    get_cluster_status i = get (cluster_status_key i)

    abbrev pub set_cluster_metrics : Bytes → A → ℕ → S → Result (Unit {0}) × S
    set_cluster_metrics i = set (cluster_metrics_key i)

    abbrev pub get_cluster_metrics : Bytes → S → Result A × S
    get_cluster_metrics i = get (cluster_metrics_key i)

  abbrev pub delete : Bytes → S → Result (Unit {0}) × S
  delete key = client.del (key ∷ [])

  unfoldable pub exists : Bytes → S → Result Bool × S
  exists key s =
      let (r, s₁) = client.exists key s in
      elim r [
        | err e ↦ (err (wrapped "failed to check existence" e), s₁)
        | ok n ↦ (ok (ltb 0 n), s₁)
      ]

  abbrev pub increment : Bytes → S → Result ℕ × S
  increment = client.incr

  abbrev pub increment_by : Bytes → ℕ → S → Result ℕ × S
  increment_by = client.incr_by

  abbrev pub expire : Bytes → ℕ → S → Result (Unit {0}) × S
  expire = client.expire

  abbrev pub ttl : Bytes → S → Result ℕ × S
  ttl = client.ttl

  abbrev pub keys : Bytes → S → Result (List Bytes) × S
  keys = client.keys

  abbrev pub flush_db : S → Result (Unit {0}) × S
  flush_db = client.flush_db

  abbrev pub ping : S → Result (Unit {0}) × S
  ping = client.ping

  unfoldable pub health : S → Result (Unit {0}) × S
  health s =
      let (r, s₁) = client.ping s in
      elim r [ err e ↦ (err (wrapped "cache health check failed" e), s₁) | ok _ ↦ (ok tt, s₁) ]

  unfoldable pub invalidate_cluster_resources : Bytes → S → Result (Unit {0}) × S
  invalidate_cluster_resources i s =
      let (r, s₁) = keys (resources_pattern i) s in
      elim r [
        | err e ↦ (err (wrapped "failed to get keys for pattern" e), s₁)
        | ok [] ↦ (ok tt, s₁)
        | ok (k ∷ ks) ↦ client.del (k ∷ ks) s₁
      ]

  unfoldable pub invalidate_cluster_resource :
      Bytes → Bytes → Bytes → Bytes → S → Result (Unit {0}) × S
  invalidate_cluster_resource i kind namespace name =
      client.del (cluster_resource_key i kind namespace name ∷ [])
