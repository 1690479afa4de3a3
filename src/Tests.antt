-- ===== src/Tests.antt =====
-- The state on which the theorems are tried (Tests/...).
mod Operations
mod Runs
mod Pools
mod Caches
mod Sessions
mod Policies
mod Access
mod Agents
mod Clusters
mod Setups
mod Accounts
mod Requests
mod Http
use mckmt.Base.{
  ℕ, ◌+◌, String, Bool, false, true, none, some, List, [], ◌∷◌, if◌then◌else◌, ◌==◌, str_eq,
}
use mckmt.Repo.{
  Status, queued, running, success, OperationType, apply, text, Operation, Cluster, connected,
}
use mckmt.Repo.Store.{Entry, World, Env}
use mckmt.AgentServer.State.{Uuid, Task, Connection, Server}

-- No call fails, and the n-th is at 1000 + n.
abbrev pub env : Env
env = record { fails = λ _. false; now = λ n. 1000 + n; null_as_empty = true }

abbrev pub op : ℕ → Status → Operation
op i s = record {
  id = i;
  cluster_id = 7;
  op_type = apply;
  status = s;
  payload = ("manifest", text "pod") ∷ [];
  result = none;
  started_at = none;
  finished_at = none;
  created_at = 900 + i;
  updated_at = 900 + i;
}

abbrev pub cluster_row : ℕ → String → Cluster
cluster_row i name = record {
  id = i;
  name = name;
  description = "";
  endpoint = "";
  labels = ("env", "test") ∷ [];
  encrypted_credentials = 1 ∷ 2 ∷ [];
  status = connected;
  last_seen_at = none;
  created_at = 800;
  updated_at = 800;
}

abbrev pub credentials_hidden : Cluster → Cluster
credentials_hidden c = record c { encrypted_credentials = [] }

-- Three operations of the cluster 7, of which the first is cached, and two clusters, of which the
-- first is.
abbrev pub w : World
w = record {
  operations = op 1 queued ∷ op 2 running ∷ op 3 success ∷ [];
  clusters = cluster_row 7 "prod" ∷ cluster_row 8 "dev" ∷ [];
  op_cache = λ i. if i == 1 then some (record { value = op 1 queued; deadline = 2000 }) else none;
  cluster_cache =
      λ _. some (record { value = credentials_hidden (cluster_row 7 "prod"); deadline = 2000 });
  queue = op 1 queued ∷ [];
  cancel_ch = 2 ∷ [];
  running_ops = [];
  in_progress = 0;
  calls = 0;
}

abbrev pub uuid : Uuid
uuid = record {
  to_string = λ n. if n == 7 then "7" else "9";
  parse = λ s. if str_eq s "3" then some 3 else if str_eq s "2" then some 2 else none;
}

abbrev pub task : String → Task
task i = record {
  id = i;
  cluster_id = "7";
  task_type = "apply";
  payload = [];
  created_at = none;
  timeout = 30;
}

abbrev pub connection : Connection
connection = record {
  cluster_id = "7";
  agent_version = "v1";
  last_heartbeat = 990;
  stream = task "a" ∷ task "b" ∷ [];
  closed = false;
}

abbrev pub server : Server
server = record {
  agents = ("7", 0) ∷ [];
  connections = λ a. if a == 0 then some connection else none;
  fresh = 1;
}
