-- ===== src/Agent.antt =====
-- internal/agent/agent.go: the agent of a cluster. The hub is an interface, for whatever state it
-- keeps; the environment and the clock give the values that they are read for. Logging is left out.
pub mod Status
pub mod Reports
pub mod Sessions
pub mod Health
use mckmt.Base.{
  ℕ, ◌+◌, ◌^◌, ◌%◌, String, Bool, true, false, not, ◌&&◌, Option, none, some, List, [], ◌∷◌, Result,
  ok, err, Error, failed, wrapped, if◌then◌else◌, ltb, ◌==◌, any, length, str_eq, str_append,
}
use mckmt.Repo.{Labels}
use mckmt.AgentServer.State.{ClusterInfo, Reply, decimal}
use mckmt.AgentServer.Handlers.{Registration}
use mckmt.AgentServer.Streams.{Proto}
use mckmt.Agent.Status.{ClusterStatus, KubeInfo, int32}

-- The client of the service; `err` is an error of gRPC.
pub record Hub (H : Type 0) : Type 0 where
  pub register : String → String → String → ClusterInfo → H → Result Registration × H
  pub heartbeat : String → String → ClusterStatus → H → Result Reply × H
  pub report_result : String → String → Bool → String → ℕ → H → Result Reply × H

-- The agent, with the operations that it runs and whether the `cancel` of each was called.
pub record Agent : Type 0 where
  pub cluster_id : String
  pub session_token : String
  pub cancel_ops : List (String × Bool)

-- `name` is the environment's, empty where it has none.
unfoldable pub get_cluster_name : String → Bool → Result String → ℕ → String
get_cluster_name name has_kube_client hostname now =
    if not (str_eq name "")
    then name
    else if has_kube_client
    then str_append "cluster-" (decimal now)
    else elim hostname [
      | ok h ↦ str_append "cluster-" h
      | err _ ↦ str_append "cluster-" (decimal now)
    ]

-- processApplyOperation, processExecOperation, processSyncOperation and the default branch; the
-- result is nil in each.
unfoldable pub perform : String → Bool × String
perform t =
    if str_eq t "apply"
    then (false, "not implemented")
    else if str_eq t "exec"
    then (false, "not implemented")
    else if str_eq t "sync"
    then (false, "not implemented")
    else (false, str_append "unknown operation type: " t)

-- a.cancelOps[id] = cancel, delete(a.cancelOps, id), and the call of a stored `cancel`
unfoldable pub forget : String → List (String × Bool) → List (String × Bool)
forget i [] = []
forget i ((j, c) ∷ ops) = let rest = forget i ops in if str_eq j i then rest else (j, c) ∷ rest

unfoldable pub is_running : String → List (String × Bool) → Bool
is_running i [] = false
is_running i ((j, c) ∷ ops) = if str_eq j i then true else is_running i ops

unfoldable pub call_cancel : String → List (String × Bool) → List (String × Bool)
call_cancel i [] = []
call_cancel i ((j, c) ∷ ops) = if str_eq j i then (j, true) ∷ ops else (j, c) ∷ call_cancel i ops

unfoldable pub cancel_operation : String → Agent → Result (Unit {0}) × Agent
unfolding is_running call_cancel
cancel_operation i a =
    if is_running i a.cancel_ops
    then (ok tt, record a { cancel_ops = call_cancel i a.cancel_ops })
    else (err (failed (str_append "operation not found or not running: " i)), a)

-- processOperation, up to its `select`
unfoldable pub begin_operation : Proto → Agent → Agent
unfolding forget
begin_operation op a = record a { cancel_ops = (op.id, false) ∷ forget op.id a.cancel_ops }

module _ {H : Type 0} (hub : Hub H) where
  unfoldable pub register : String → Result KubeInfo → Agent → H → Result (Unit {0}) × Agent × H
  register cluster_name info a h = elim info [
    | err e ↦ (err (wrapped "failed to get cluster info" e), a, h)
    | ok i ↦
        let sent : ClusterInfo = record {
          kubernetes_version = i.kubernetes_version;
          platform = i.platform;
          node_count = int32 i.node_count;
          region = "unknown";
          labels = i.labels;
        } in
        let (r, h₁) = hub.register cluster_name "1.0.0" "agent-fingerprint" sent h in
        elim r [
          | err e ↦ (err (wrapped "registration failed" e), a, h₁)
          | ok answer ↦
              if not answer.reply.success
              then (err (failed (str_append "registration failed: " answer.reply.message)), a, h₁)
              else (
                ok tt,
                record a { cluster_id = answer.cluster_id; session_token = answer.session_token },
                h₁,
              )
        ]
  ]

  -- getClusterStatus gives no error.
  unfoldable pub send_heartbeat : ClusterStatus → Agent → H → Result (Unit {0}) × H
  send_heartbeat status a h =
      let (r, h₁) = hub.heartbeat a.cluster_id a.session_token status h in
      elim r [
        | err e ↦ (err (wrapped "heartbeat failed" e), h₁)
        | ok reply ↦
            if not reply.success
            then (err (failed (str_append "heartbeat failed: " reply.message)), h₁)
            else (ok tt, h₁)
      ]

  unfoldable pub report_result : String → Bool → String → ℕ → Agent → H → Result (Unit {0}) × H
  report_result i success message now a h =
      let (r, h₁) = hub.report_result i a.cluster_id success message now h in
      elim r [
        | err e ↦ (err (wrapped "failed to report result" e), h₁)
        | ok reply ↦
            if not reply.success
            then (err (failed (str_append "result reporting failed: " reply.message)), h₁)
            else (ok tt, h₁)
      ]

  -- processOperation behind its `select`: `was_cancelled` says which of the two it has chosen. The error
  -- of the report is logged.
  unfoldable pub end_operation : Bool → Proto → ℕ → Agent → H → Agent × H
  unfolding perform report_result forget
  end_operation was_cancelled op now a h =
      let (success, message) =
        if was_cancelled then (false, "Operation was cancelled") else perform op.task_type in
      let (r, h₁) = report_result op.id success message now a h in
      (record a { cancel_ops = forget op.id a.cancel_ops }, h₁)

  unfoldable pub process_operation : Bool → Option Proto → ℕ → Agent → H → Agent × H
  unfolding begin_operation end_operation
  process_operation was_cancelled none now a h = (a, h)
  process_operation was_cancelled (some op) now a h =
      end_operation was_cancelled op now (begin_operation op a) h

  -- The loop of heartbeat, with the status of each tick: what sendHeartbeat returns, which is logged.
  unfoldable pub heartbeat : List ClusterStatus → Agent → H → List (Result (Unit {0})) × H
  unfolding send_heartbeat
  heartbeat [] a h = ([], h)
  heartbeat (status ∷ ticks) a h =
      let (r, h₁) = send_heartbeat status a h in let (rs, h₂) = heartbeat ticks a h₁ in (r ∷ rs, h₂)

-- What Recv gives.
pub data Received : Type 0 where
  closed recv_fails : Received
  message : Option Proto → Received

-- The loop of streamOperations: the operations for which it starts processOperation.
unfoldable pub stream_operations : List Received → List Proto
stream_operations [] = []
stream_operations (closed ∷ rs) = []
stream_operations (recv_fails ∷ rs) = stream_operations rs
stream_operations (message none ∷ rs) = stream_operations rs
stream_operations (message (some op) ∷ rs) = op ∷ stream_operations rs
