-- ===== src/Http/Clusters/Resources.antt =====
-- ListClusterResources of internal/api/http/cluster_handler.go. An id is written out as `to_bytes` says.
use mckmt.Base.{ℕ, String, Option, none, some, List, ok, err, codes, length}
use mckmt.Repo.{Payload}
use mckmt.Auth.Middleware.{Bytes}
use mckmt.Redis.{Client, Json}
use mckmt.ClusterService.Resources.{get_cluster_resources}
use mckmt.Http.{replies, rejects, Handler}

-- The body of the answer.
pub record ResourceList : Type 0 where
  pub cluster_id : ℕ
  pub resources : List Payload
  pub total_count : ℕ
  pub kind : Bytes
  pub namespace : Bytes

module _ {S : Type 0} (client : Client S) (json : Json (List Payload)) (parse : String → Option ℕ)
    (to_bytes : ℕ → Bytes) where
  unfoldable pub list_cluster_resources : ℕ → String → Bytes → Bytes → Handler S ResourceList
  list_cluster_resources now key kind namespace s = elim (parse key) [
    | none ↦ (rejects 400 (codes "Invalid cluster ID"), s)
    | some i ↦
        let (r, s₁) = get_cluster_resources client json now (to_bytes i) kind namespace s in
        elim r [
          | err _ ↦ (rejects 500 (codes "Failed to get cluster resources"), s₁)
          | ok found ↦ (
            replies 200 record {
              cluster_id = i;
              resources = found;
              total_count = length found;
              kind = kind;
              namespace = namespace;
            },
            s₁,
          )
        ]
  ]
