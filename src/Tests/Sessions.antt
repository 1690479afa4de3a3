-- ===== src/Tests/Sessions.antt =====
-- The agent and its hub, on the state of Tests.
use mckmt.Base.{
  ℕ, zero, suc, String, ◌≡◌, refl, ap, false, none, some, [], ◌∷◌, All, Result, ok, length, codes,
}
use mckmt.Repo.{Status, running}
use mckmt.Repo.Store.{World, find}
use mckmt.Repo.OperationTable.Rows.{row}
use mckmt.Repo.OperationTable.Lifecycle.{with_status}
use mckmt.Repo.ClusterTable.{find_name, name_taken}
use mckmt.Repo.ClusterTable
use mckmt.Repo.Interfaces.{table, cluster_table}
use mckmt.AgentServer.State.{Uuid, Server}
use mckmt.AgentServer.Results.{with_result, report_payload}
use mckmt.AgentServer.Streams.{Proto}
use mckmt.AgentServer.Handlers
use mckmt.Agent.{Agent, is_running, process_operation, register, heartbeat}
use mckmt.Agent.Status.{KubeInfo, ClusterStatus}
use mckmt.Agent.Reports.{server_hub, report_message, process_operation_fails}
use mckmt.Agent.Sessions.{IsSession, cluster_table-IsKeyed, register-heartbeat}
use mckmt.Tests.{env, op, w, uuid, server}

abbrev agent : Agent
agent = record { cluster_id = "7"; session_token = "session-7"; cancel_ops = [] }

abbrev proto : Proto
proto = record {
  id = "2";
  cluster_id = "7";
  task_type = "apply";
  timeout_seconds = 30;
  created_at = none;
}

process_operation_fails_example :
    let hub = server_hub env uuid (cluster_table env) (table env) 9 in
    let (a', (s', w')) = process_operation hub false (some proto) 990 agent (server, w) in
    (row 2 w'
      ≡ some (
          with_result
            (report_payload false (report_message false proto) 990)
            1002
            (with_status Status.failed 1001 (op 2 running))))
    × (is_running "2" a'.cancel_ops ≡ false)
unfolding find
process_operation_fails_example =
    process_operation_fails env uuid (cluster_table env) 9 false proto 990 2 agent server w
      (op 2 running) (λ _. refl) refl refl refl

-- A library of ids that writes a number as so many strokes.
abbrev strokes : ℕ → String
strokes zero = ""
strokes (suc n) = String.◌∷◌ "i" (strokes n)

abbrev count : String → ℕ
count s = length (codes s)

count-strokes : (n : ℕ) → count (strokes n) ≡ n
count-strokes zero = refl
count-strokes (suc n) = ap suc (count-strokes n)

abbrev tally : Uuid
tally = record { to_string = strokes; parse = λ s. some (count s) }

abbrev kube_info : KubeInfo
kube_info = record {
  kubernetes_version = "v1.30";
  platform = "linux";
  node_count = 3;
  ready_nodes = 3;
  labels = [];
}

abbrev healthy : ClusterStatus
healthy = record {
  status = "healthy";
  ready_nodes = 3;
  total_nodes = 3;
  last_check = 990;
  issues = [];
}

abbrev registered : Result (Unit {0}) × Agent × (Server × World)
registered =
    register (server_hub env tally (cluster_table env) (table env) 9) "prod" (ok kube_info) agent
      (server, w)

register-heartbeat_example :
    let hub = server_hub env tally (cluster_table env) (table env) 9 in
    let (r, a', (s', w')) = registered in
    let (rs, (s₂, w₂)) = heartbeat hub (healthy ∷ healthy ∷ []) a' (s', w') in
    IsSession tally a'.cluster_id s' × All (λ r. r ≡ ok tt) rs × IsSession tally a'.cluster_id s₂
unfolding register Handlers.register Handlers.store_cluster Handlers.connect find find_name
    name_taken ClusterTable.get_by_id ClusterTable.get_by_name ClusterTable.update_cluster
    ClusterTable.update_row
register-heartbeat_example =
    let (r, a', (s', w')) = registered in
    register-heartbeat env tally (cluster_table env) (table env) 9 "prod" (ok kube_info) agent a'
      server s' w w' (healthy ∷ healthy ∷ []) (λ i. ap some (count-strokes i))
      (cluster_table-IsKeyed env) refl
