-- ===== src/Tests/Agents.antt =====
-- The streams of the server and the status of an agent, on the state of Tests.
use mckmt.Base.{◌≡◌, ◌↔◌, String, Result, List, [], ◌∷◌, ok, All}
use mckmt.Agent.Status.{Conditions, get_cluster_info, get_cluster_status}
use mckmt.Agent.Health.{IsReadyNode, get_cluster_status_healthy_iff}

-- Two nodes, of which one is not ready.
abbrev nodes : List Conditions
nodes = (("DiskPressure", "False") ∷ ("Ready", "True") ∷ []) ∷ (("Ready", "Unknown") ∷ []) ∷ []

abbrev read_nodes : Result (List Conditions)
read_nodes = ok nodes

abbrev server_version : Result (String × String)
server_version = ok ("v1.30", "linux")

abbrev healthy : Result (Unit {0})
healthy = ok tt

get_cluster_status_healthy_iff_example :
    ((get_cluster_status (λ _. "") healthy (get_cluster_info server_version read_nodes) 990).status
      ≡ "healthy")
    ↔ ((healthy ≡ ok tt)
        × ((v : String × String) × (server_version ≡ ok v))
        × ((items : List Conditions) × (read_nodes ≡ ok items) × All IsReadyNode items))
get_cluster_status_healthy_iff_example =
    get_cluster_status_healthy_iff (λ _. "") healthy server_version read_nodes 990
