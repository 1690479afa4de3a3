-- ===== src/Agent/Sessions.antt =====
-- An agent that the hub has registered, and its heartbeats (Agent, AgentServer/Handlers).
use mckmt.Base.{
  ℕ, String, ◌≡◌, refl, ap, sym, subst, ◌∙◌, false, Option, some, List, [], ◌∷◌, Result, ok, err,
  str_eq, arith, All, Bool-cases, inl, inr,
}
use mckmt.Repo.{Cluster, cluster_id}
use mckmt.Repo.Store.Laws.{key-find}
use mckmt.Repo.ClusterTable
use mckmt.Repo.Store.{World, Env, tick}
use mckmt.Repo.Interfaces.{OperationRepository, ClusterRepository, cluster_table}
use mckmt.AgentServer.State.{
  Uuid, Server, Connection, ok_code, refuse, internal, ClusterInfo, find_agent, set_connection,
}
use mckmt.AgentServer.Handlers
use mckmt.AgentServer.Handlers.{
  Registration, connect, store_cluster, not_registered, new_cluster, reconnected,
}
use mckmt.AgentServer.Streams.{find-set_agent_self}
use mckmt.Agent.{Hub, Agent, register, send_heartbeat, heartbeat}
use mckmt.Agent.Status.{KubeInfo, ClusterStatus, int32}
use mckmt.Agent.Reports.{server_hub}

-- The hub knows the agent of a cluster, by a connection with an open channel.
abbrev pub IsSession : Uuid → String → Server → Type 0
IsSession uuid key s =
    (i : ℕ) × (a : ℕ) × (c : Connection) × (key ≡ uuid.to_string i)
    × (find_agent key s.agents ≡ some a)
    × (s.connections a ≡ some c)
    × (c.closed ≡ false)

abbrev IsKnown : Uuid → Registration × Server × World → Type 0
IsKnown uuid (r, s', w') = elim r.reply.code [
  | ok_code ↦ IsSession uuid r.cluster_id s'
  | _ ↦ Unit {0}
]

-- A repository whose GetByID gives no cluster of another id.
abbrev pub IsKeyed : ClusterRepository → Type 0
IsKeyed clusters = (i : ℕ) (w : World) (c : Cluster) → (clusters.get_by_id i w).0 ≡ ok c → c.id ≡ i

pub cluster_table-IsKeyed : (env : Env) → IsKeyed (cluster_table env)
unfolding ClusterTable.get_by_id
cluster_table-IsKeyed env i w c h = key-find cluster_id i (tick w).clusters c (ground arith)

module _ (env : Env) (uuid : Uuid) (clusters : ClusterRepository) (operations : OperationRepository)
    (new_id : ℕ) where
  connect_own :
      (i : ℕ) (version : String) (s : Server) (w : World)
      → IsKnown uuid (connect env uuid clusters operations i i version s w)
  unfolding connect
  connect_own i version s w = (
    i,
    s.fresh,
    record {
      cluster_id = uuid.to_string i;
      agent_version = version;
      last_heartbeat = env.now w.calls;
      stream = [];
      closed = false;
    },
    refl,
    find-set_agent_self (uuid.to_string i) s.fresh s.agents,
    ground arith,
    refl,
  )

  connect-IsKnown :
      (i j : ℕ) (version : String) (s : Server) (w : World)
      → j ≡ i
      → IsKnown uuid (connect env uuid clusters operations i j version s w)
  connect-IsKnown i j version s w e =
      subst (λ k. IsKnown uuid (connect env uuid clusters operations i k version s w)) (sym e)
        (connect_own i version s w)

  -- The end of the two branches of Register.
  connected_if :
      {A : Type 0} (i j : ℕ) (version message : String) (s : Server) (m : Result A × World)
      → j ≡ i
      → IsKnown uuid (elim m.0 [
        | err _ ↦ (not_registered (refuse internal message), s, m.1)
        | ok _ ↦ connect env uuid clusters operations i j version s m.1
      ])
  connected_if i j version message s (err e, w) same = tt
  connected_if i j version message s (ok a, w) same = connect-IsKnown i j version s w same

  store_cluster-IsKnown :
      (i : ℕ) (name version : String) (info : Option ClusterInfo) (s : Server) (w : World)
      → IsKeyed clusters
      → IsKnown uuid (store_cluster env uuid clusters operations i name version info s w)
  unfolding store_cluster
  store_cluster-IsKnown i name version info s w keyed =
      let w₁ = (clusters.get_by_id i w).1 in
      let now = env.now w₁.calls in
      let created =
        clusters.create (new_cluster env uuid clusters operations i name version info now) w₁ in
      let written = λ (c : Cluster).
        clusters.update_cluster (reconnected env uuid clusters operations info now c) w₁ in
      elim (clusters.get_by_id i w).0
          as (λ r.
            (clusters.get_by_id i w).0 ≡ r
            → IsKnown uuid (elim r [
              | err _ ↦ elim created.0 [
                | err _ ↦
                    (not_registered (refuse internal "Failed to create cluster"), s, created.1)
                | ok _ ↦ connect env uuid clusters operations i i version s created.1
              ]
              | ok c ↦ elim (written c).0 [
                | err _ ↦
                    (not_registered (refuse internal "Failed to update cluster"), s, (written c).1)
                | ok _ ↦ connect env uuid clusters operations i c.id version s (written c).1
              ]
            ])) [
              | err e ↦ λ h. connected_if i i version "Failed to create cluster" s created refl
              | ok c ↦ λ h.
                  connected_if i c.id version "Failed to update cluster" s (written c)
                    (keyed i w c h)
            ]
        refl

  register-IsKnown :
      (name version : String) (info : Option ClusterInfo) (s : Server) (w : World)
      → IsKeyed clusters
      → IsKnown uuid (Handlers.register env uuid clusters operations new_id name version info s w)
  unfolding Handlers.register
  register-IsKnown name version info s w keyed = elim (Bool-cases (str_eq name "")) [
    | inl e ↦ rw e tt
    | inr e ↦
        let (r, w₁) = clusters.get_by_name name w in
        rw e (
          store_cluster-IsKnown (elim r [ ok c ↦ c.id | err _ ↦ new_id ]) name version info s w₁
            keyed)
  ]

  abbrev hub : Hub (Server × World)
  hub = server_hub env uuid clusters operations new_id

  -- A heartbeat of a known agent is taken, and the agent stays known.
  send_heartbeat-IsSession :
      (status : ClusterStatus) (a : Agent) (s : Server) (w : World)
      → ((i : ℕ) → uuid.parse (uuid.to_string i) ≡ some i)
      → IsSession uuid a.cluster_id s
      → let (r, (s', w')) = send_heartbeat hub status a (s, w) in
        (r ≡ ok tt) × IsSession uuid a.cluster_id s'
  unfolding send_heartbeat Handlers.heartbeat
  send_heartbeat-IsSession status a s w p (i, b, c, k, f, e, o) =
      let parsed : uuid.parse a.cluster_id ≡ some i = ap uuid.parse k ∙ p i in
      let later : Connection = record c { last_heartbeat = env.now w.calls } in
      let after : Server × World = (set_connection b later s, (clusters.update_last_seen i w).1) in
      let done : send_heartbeat hub status a (s, w) ≡ (ok tt, after) = ground arith in
      (
        ap (λ (x : Result (Unit {0}) × (Server × World)). x.0) done,
        subst (λ (x : Result (Unit {0}) × (Server × World)). IsSession uuid a.cluster_id x.1.0)
            (sym done) (i, b, later, k, f, ground arith, o),
      )

  -- The loop of heartbeats.
  heartbeat-taken :
      (ticks : List ClusterStatus) (a : Agent) (s : Server) (w : World)
      → ((i : ℕ) → uuid.parse (uuid.to_string i) ≡ some i)
      → IsSession uuid a.cluster_id s
      → let (rs, (s', w')) = heartbeat hub ticks a (s, w) in
        All (λ r. r ≡ ok tt) rs × IsSession uuid a.cluster_id s'
  unfolding heartbeat
  heartbeat-taken [] a s w p k = (tt, k)
  heartbeat-taken (status ∷ ticks) a s w p k =
      let (r, (s₁, w₁)) = send_heartbeat hub status a (s, w) in
      let (e, k₁) = send_heartbeat-IsSession status a s w p k in
      let (es, k₂) = heartbeat-taken ticks a s₁ w₁ p k₁ in ((e, es), k₂)

  -- What Register of the agent sends for the cluster.
  abbrev sent : KubeInfo → ClusterInfo
  sent i = record {
    kubernetes_version = i.kubernetes_version;
    platform = i.platform;
    node_count = int32 i.node_count;
    region = "unknown";
    labels = i.labels;
  }

  register-IsSession :
      (name : String) (info : Result KubeInfo) (a a' : Agent) (s s' : Server) (w w' : World)
      → IsKeyed clusters
      → register hub name info a (s, w) ≡ (ok tt, a', (s', w'))
      → IsSession uuid a'.cluster_id s'
  unfolding register
  register-IsSession name (err e) a a' s s' w w' keyed h = absurd (ground arith)
  register-IsSession name (ok i) a a' s s' w w' keyed h =
      let m =
        Handlers.register env uuid clusters operations new_id name "1.0.0" (some (sent i)) s w in
      let known = register-IsKnown name "1.0.0" (some (sent i)) s w keyed in
      let taken : m.0.reply.code ≡ ok_code = ground arith in
      let same : m.0.cluster_id ≡ a'.cluster_id = ground arith in
      let server : m.1 ≡ s' = ground arith in
      let session : IsSession uuid m.0.cluster_id m.1 =
        subst (λ c. elim c [ ok_code ↦ IsSession uuid m.0.cluster_id m.1 | _ ↦ Unit {0} ]) taken
          known in
      subst (λ k. IsSession uuid k s') same (subst (IsSession uuid m.0.cluster_id) server session)

  -- The text of an id is read back as the id, and the repository gives no cluster for the id of
  -- another. Where the registration of an agent succeeds at the server, whichever calls to the
  -- database fail: the server has a connection with an open channel
  -- under the id that the agent then has, it takes each of the agent's heartbeats, of whatever status
  -- and also where the cluster's row cannot be written, and it has such a connection after them.
  pub register-heartbeat :
      (name : String) (info : Result KubeInfo) (a a' : Agent) (s s' : Server) (w w' : World)
      (ticks : List ClusterStatus)
      → ((i : ℕ) → uuid.parse (uuid.to_string i) ≡ some i)
      → IsKeyed clusters
      → register hub name info a (s, w) ≡ (ok tt, a', (s', w'))
      → let (rs, (s₂, w₂)) = heartbeat hub ticks a' (s', w') in
        IsSession uuid a'.cluster_id s' × All (λ r. r ≡ ok tt) rs × IsSession uuid a'.cluster_id s₂
  register-heartbeat name info a a' s s' w w' ticks p keyed h =
      let k = register-IsSession name info a a' s s' w w' keyed h in
      let (es, k₂) = heartbeat-taken ticks a' s' w' p k in (k, es, k₂)
