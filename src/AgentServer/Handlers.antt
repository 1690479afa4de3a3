-- ===== src/AgentServer/Handlers.antt =====
-- The handlers of internal/api/grpc/server.go.
use mckmt.Base.{
  ℕ, ◌+◌, String, Bool, true, false, Option, none, some, List, [], ◌∷◌, ◌++◌, Result, ok, err,
  failed, if◌then◌else◌, ltb, length, str_eq, str_append,
}
use mckmt.Repo.{Status, success, cancelled, is_final, text, flag, stamp, Labels, Cluster, connected}
use mckmt.Repo.Store.{World, Env}
use mckmt.Repo.Interfaces.{OperationRepository, ClusterRepository}
use mckmt.AgentServer.State.{
  Uuid, Task, Connection, Server, stream_capacity, find_agent, set_agent, delete_agent,
  set_connection, ClusterInfo, invalid_argument, not_found, internal, failed_precondition, Reply,
  refuse, accept, info_labels,
}

-- A handler's reply, and the state that it leaves.
abbrev pub Handled : Type 0 → Type 0
Handled A = A × Server × World

pub record Registration : Type 0 where
  pub reply : Reply
  pub cluster_id : String
  pub session_token : String
  pub heartbeat_interval : ℕ

abbrev pub not_registered : Reply → Registration
not_registered r = record { reply = r; cluster_id = ""; session_token = ""; heartbeat_interval = 0 }

module _ (env : Env) (uuid : Uuid) (clusters : ClusterRepository)
    (operations : OperationRepository) where
  abbrev pub optional_labels : Option ClusterInfo → Labels → Labels
  optional_labels none m = m
  optional_labels (some info) m = info_labels info m

  -- The cluster that a registration stores where none was there.
  abbrev pub new_cluster : ℕ → String → String → Option ClusterInfo → ℕ → Cluster
  new_cluster i name version info now = record {
    id = i;
    name = name;
    description = str_append "Cluster managed by agent " version;
    endpoint = "";
    labels = optional_labels info [];
    encrypted_credentials = [];
    status = connected;
    last_seen_at = none;
    created_at = now;
    updated_at = now;
  }

  -- The cluster that it writes back where one was there.
  abbrev pub reconnected : Option ClusterInfo → ℕ → Cluster → Cluster
  reconnected info now c = record c {
    labels = optional_labels info c.labels;
    status = connected;
    updated_at = now;
  }

  -- The end of Register, for the id that it has settled on and that of the cluster it has read or
  -- made: the connection is stored under the first, where it replaces an earlier one, and the answer
  -- names the second.
  unfoldable pub connect : ℕ → ℕ → String → Server → World → Handled Registration
  connect i cluster version s w =
      let c : Connection = record {
        cluster_id = uuid.to_string i;
        agent_version = version;
        last_heartbeat = env.now w.calls;
        stream = [];
        closed = false;
      } in
      let s₁ = set_connection s.fresh c s in
      (
        record {
          reply = accept "Registration successful";
          cluster_id = uuid.to_string cluster;
          session_token = str_append "session-" (uuid.to_string cluster);
          heartbeat_interval = 30;
        },
        record s₁ { agents = set_agent (uuid.to_string i) s.fresh s.agents; fresh = s.fresh + 1 },
        w,
      )

  -- The middle of Register, for the cluster id that it has settled on.
  unfoldable pub store_cluster :
      ℕ → String → String → Option ClusterInfo → Server → World → Handled Registration
  store_cluster i name version info s w =
      let (r, w₁) = clusters.get_by_id i w in
      elim r [
        | err _ ↦
            let c = new_cluster i name version info (env.now w₁.calls) in
            let (q, w₂) = clusters.create c w₁ in
            elim q [
              | err _ ↦ (not_registered (refuse internal "Failed to create cluster"), s, w₂)
              | ok _ ↦ connect i c.id version s w₂
            ]
        | ok c ↦
            let (q, w₂) = clusters.update_cluster (reconnected info (env.now w₁.calls) c) w₁ in
            elim q [
              | err _ ↦ (not_registered (refuse internal "Failed to update cluster"), s, w₂)
              | ok _ ↦ connect i c.id version s w₂
            ]
      ]

  -- Register; `new_id` is what uuid.New returns.
  unfoldable pub register :
      ℕ → String → String → Option ClusterInfo → Server → World → Handled Registration
  register new_id name version info s w =
      if str_eq name ""
      then (not_registered (refuse invalid_argument "Cluster name is required"), s, w)
      else (let (r, w₁) = clusters.get_by_name name w in
          store_cluster (elim r [ ok c ↦ c.id | err _ ↦ new_id ]) name version info s w₁)

  unfoldable pub heartbeat : String → Server → World → Handled Reply
  heartbeat key s w = elim (find_agent key s.agents) [
    | none ↦ (refuse not_found "Agent not registered", s, w)
    | some a ↦ elim (s.connections a) [
      | none ↦ (refuse not_found "Agent not registered", s, w)
      | some c ↦
          let s₁ = set_connection a (record c { last_heartbeat = env.now w.calls }) s in
          elim (uuid.parse key) [
            | none ↦ (refuse invalid_argument "Invalid cluster ID", s₁, w)
            | some i ↦ (accept "Heartbeat received", s₁, (clusters.update_last_seen i w).1)
          ]
    ]
  ]

  unfoldable pub report_result : String → Bool → String → ℕ → World → Reply × World
  report_result key succeeded message completed w = elim (uuid.parse key) [
    | none ↦ (refuse invalid_argument "Invalid operation ID", w)
    | some i ↦
        let (r, w₁) = operations.get_by_id i w in
        elim r [
          | err _ ↦ (refuse not_found "Operation not found", w₁)
          | ok op ↦
              let s = if succeeded then success else Status.failed in
              let w₂ = (operations.update_status op.id s w₁).1 in
              let result =
                ("success", flag succeeded)
                ∷ ("message", text message)
                ∷ ("completed", stamp completed)
                ∷ [] in
              (accept "Result recorded", (operations.update_result op.id result w₂).1)
        ]
  ]

  unfoldable pub cancel_operation : String → String → World → Reply × World
  cancel_operation key reason w = elim (uuid.parse key) [
    | none ↦ (refuse invalid_argument "Invalid operation ID", w)
    | some i ↦
        let (r, w₁) = operations.get_by_id i w in
        elim r [
          | err _ ↦ (refuse not_found "Operation not found", w₁)
          | ok op ↦
              if is_final op.status
              then (refuse failed_precondition "Operation cannot be cancelled", w₁)
              else (let (q, w₂) = operations.update_status op.id cancelled w₁ in
                  let result =
                    ("status", text "cancelled")
                    ∷ ("message", text "Operation cancelled via gRPC")
                    ∷ ("reason", text reason)
                    ∷ [] in
                  elim q [
                    | err _ ↦ (refuse internal "Failed to cancel operation", w₂)
                    | ok _ ↦ (
                      accept "Operation cancelled successfully",
                      (operations.update_result op.id result w₂).1,
                    )
                  ])
        ]
  ]

-- QueueOperation: a send in a `select` with a default branch.
unfoldable pub queue_operation : String → Task → Server → Result (Unit {0}) × Server
queue_operation key task s = elim (find_agent key s.agents) [
  | none ↦ (err (failed "agent not connected"), s)
  | some a ↦ elim (s.connections a) [
    | none ↦ (err (failed "agent not connected"), s)
    | some c ↦
        if ltb (length c.stream) stream_capacity
        then (ok tt, set_connection a (record c { stream = c.stream ++ task ∷ [] }) s)
        else (err (failed "agent operation queue full"), s)
  ]
]

-- GetConnectedAgents
unfoldable pub get_connected_agents : List (String × ℕ) → List String
get_connected_agents [] = []
get_connected_agents ((k, a) ∷ m) = k ∷ get_connected_agents m

unfoldable pub disconnect_agent : String → Server → Server
disconnect_agent key s = elim (find_agent key s.agents) [
  | none ↦ s
  | some a ↦ elim (s.connections a) [
    | none ↦ s
    | some c ↦
        let s₁ = set_connection a (record c { closed = true }) s in
        record s₁ { agents = delete_agent key s.agents }
  ]
]
