-- ===== src/Agent/Status.antt =====
-- What an agent reads of its cluster: GetClusterInfo and HealthCheck of internal/kube/client.go, and
-- getClusterStatus of internal/agent/agent.go.
use mckmt.Base.{
  ℕ, ◌+◌, ◌^◌, ◌%◌, String, Bool, ◌&&◌, List, [], ◌∷◌, Result, ok, err, Error, wrapped,
  if◌then◌else◌, ltb, any, length, str_eq, str_append,
}
use mckmt.Repo.{Labels}

-- ClusterStatus of the protocol.
pub record ClusterStatus : Type 0 where
  pub status : String
  pub ready_nodes : ℕ
  pub total_nodes : ℕ
  pub last_check : ℕ
  pub issues : List String

-- ClusterInfo of the Kubernetes client, and the types and statuses of a node's conditions.
pub record KubeInfo : Type 0 where
  pub kubernetes_version : String
  pub platform : String
  pub node_count : ℕ
  pub ready_nodes : ℕ
  pub labels : Labels

abbrev pub Conditions : Type 0
Conditions = List (String × String)

abbrev pub is_ready_condition : String × String → Bool
is_ready_condition c = str_eq c.0 "Ready" && str_eq c.1 "True"

-- The loop over the nodes.
unfoldable pub count_ready : List Conditions → ℕ
count_ready [] = 0
count_ready (node ∷ nodes) =
    let rest = count_ready nodes in if any is_ready_condition node then rest + 1 else rest

-- The server's version and platform, and the nodes.
unfoldable pub get_cluster_info :
    Result (String × String) → Result (List Conditions) → Result KubeInfo
unfolding count_ready
get_cluster_info version nodes = elim version [
  | err e ↦ err (wrapped "failed to get server version" e)
  | ok (git_version, platform) ↦ elim nodes [
    | err e ↦ err (wrapped "failed to list nodes" e)
    | ok items ↦ ok (record {
      kubernetes_version = git_version;
      platform = platform;
      node_count = length items;
      ready_nodes = count_ready items;
      labels = [];
    })
  ]
]

unfoldable pub health_check : Result (List Conditions) → Result (Unit {0})
health_check nodes = elim nodes [
  | err e ↦ err (wrapped "cluster health check failed" e)
  | ok _ ↦ ok tt
]

-- int32(n), as the 32 bits that it keeps
abbrev pub int32 : ℕ → ℕ
int32 n = n % 2 ^ 32

unfoldable pub get_cluster_status :
    (Error → String) → Result (Unit {0}) → Result KubeInfo → ℕ → ClusterStatus
get_cluster_status error_text health info now = elim health [
  | err e ↦ record {
    status = "unhealthy";
    ready_nodes = 0;
    total_nodes = 0;
    last_check = now;
    issues = error_text e ∷ [];
  }
  | ok _ ↦ elim info [
    | err e ↦ record {
      status = "degraded";
      ready_nodes = 0;
      total_nodes = 0;
      last_check = now;
      issues = str_append "failed to get cluster info: " (error_text e) ∷ [];
    }
    | ok i ↦ record {
      status = if ltb i.ready_nodes i.node_count then "degraded" else "healthy";
      ready_nodes = int32 i.ready_nodes;
      total_nodes = int32 i.node_count;
      last_check = now;
      issues = [];
    }
  ]
]
