-- ===== src/AgentServer/Registration.antt =====
-- What a registration leaves (AgentServer/Handlers), over the repository of the clusters' table.
use mckmt.Base.{
  ℕ, ◌+◌, String, ◌≡◌, refl, sym, subst, ==_refl, ◌≢◌, true, false, Option, none, some, List, [],
  ◌∷◌, ok, arith, str_eq_iff,
}
use mckmt.Repo.{Cluster, connected}
use mckmt.Repo.Store.{World, Env, tick, find}
use mckmt.Repo.ClusterTable
use mckmt.Repo.ClusterTable.{allowed, find_name, name_taken, update_row, set_fields}
use mckmt.Repo.ClusterTable.Laws.{cluster, Keeps-id, update_row_done}
use mckmt.Repo.Interfaces.{cluster_table, OperationRepository}
use mckmt.AgentServer.State.{Uuid, Server, Connection, accept, ClusterInfo, find_agent}
use mckmt.AgentServer.Handlers.{
  Registration, register, store_cluster, connect, reconnected, new_cluster,
}
use mckmt.AgentServer.Streams.{find-set_agent_self}

name_taken_absent :
    (i : ℕ) (n : String) (cs : List Cluster) → find_name n cs ≡ none → name_taken i n cs ≡ false
unfolding find_name name_taken
name_taken_absent i n [] h = refl
name_taken_absent i n (c ∷ cs) h = ground (arith, name_taken_absent i n cs)

-- The server behind a registration: a refusal leaves it alone.
abbrev pub IsRefusalClean : Server → Registration × Server × World → Type 0
IsRefusalClean s (r, s', w') = elim r.reply.success [ true ↦ Unit {0} | false ↦ s' ≡ s ]

-- The agent of a cluster after a registration: a fresh connection, with an empty and open channel.
abbrev pub IsConnected : Uuid → ℕ → String → Server → Registration × Server × World → Type 0
IsConnected uuid i version s (r, s', w') =
    (r.reply ≡ accept "Registration successful")
    × (r.cluster_id ≡ uuid.to_string i)
    × (find_agent (uuid.to_string i) s'.agents ≡ some s.fresh)
    × ((c : Connection) × (s'.connections s.fresh ≡ some c)
        × (c.stream ≡ [])
        × (c.closed ≡ false)
        × (c.agent_version ≡ version))

module _ (env : Env) (uuid : Uuid) (operations : OperationRepository) (new_id : ℕ)
    (name version : String) (info : Option ClusterInfo) (s : Server) (w : World) where
  abbrev registered : Registration × Server × World
  registered = register env uuid (cluster_table env) operations new_id name version info s w

  pub connect-IsConnected :
      (i : ℕ) (u : World)
      → IsConnected uuid i version s
          (connect env uuid (cluster_table env) operations i i version s u)
  unfolding connect
  connect-IsConnected i u = (
    refl,
    refl,
    find-set_agent_self (uuid.to_string i) s.fresh s.agents,
    (
      record {
        cluster_id = uuid.to_string i;
        agent_version = version;
        last_heartbeat = env.now u.calls;
        stream = [];
        closed = false;
      },
      ground arith,
      refl,
      refl,
      refl,
    ),
  )

  -- A registration over the repository of the table that is refused, for whatever reason, leaves
  -- the agents and their connections as they were.
  pub register_refused : IsRefusalClean s registered
  unfolding register store_cluster connect
  register_refused = ground arith

  -- While no call fails, an agent that gives the name of a stored cluster, where the id of that
  -- cluster leads to its row and no other row has its name, is connected to that cluster, whose row
  -- gets the new labels and the status `connected` and is otherwise as it was but for the time of
  -- the update.
  register_known :
      (c : Cluster)
      → ((n : ℕ) → env.fails n ≡ false)
      → name ≢ ""
      → find_name name w.clusters ≡ some c
      → cluster c.id w ≡ some c
      → name_taken c.id c.name w.clusters ≡ false
      → IsConnected uuid c.id version s registered
        × (cluster c.id registered.2
            ≡ some (
                reconnected env uuid
                  (cluster_table env)
                  operations
                  info
                  (env.now (w.calls + 1 + 1))
                  c))
  unfolding register store_cluster ClusterTable.get_by_name ClusterTable.get_by_id
      ClusterTable.update_cluster
  register_known c healthy n named stored free = (
    subst (IsConnected uuid c.id version s) (sym reaches) (connect-IsConnected c.id w₃),
    subst (λ m. cluster c.id m.2 ≡ some c') (sym reaches) (unfold connect in done.1),
  )
    where
      c' : Cluster
      c' = reconnected env uuid (cluster_table env) operations info (env.now (w.calls + 1 + 1)) c

      done :
          ((update_row env c.id (set_fields c') (tick (tick w))).0 ≡ ok tt)
          × (cluster c.id (update_row env c.id (set_fields c') (tick (tick w))).1 ≡ some c')
      done =
          update_row_done env c.id (set_fields c') (tick (tick w)) c c' (Keeps-id c' connected 0).0
            (healthy _) stored refl refl free

      w₃ : World
      w₃ = (update_row env c.id (set_fields c') (tick (tick w))).1

      reaches : registered ≡ connect env uuid (cluster_table env) operations c.id c.id version s w₃
      reaches = ground (arith, str_eq_iff name "", healthy w.calls, healthy (w.calls + 1), done.0)

  -- While no call fails, an agent that gives a name which is not empty and not stored is connected
  -- to a new cluster, which is stored under the new id, if that is not in use, with the status
  -- `connected`.
  pub register_new :
      ((n : ℕ) → env.fails n ≡ false)
      → name ≢ ""
      → find_name name w.clusters ≡ none
      → cluster new_id w ≡ none
      → IsConnected uuid new_id version s registered
        × (cluster new_id registered.2
            ≡ some (
                new_cluster env uuid
                  (cluster_table env)
                  operations
                  new_id
                  name
                  version
                  info
                  (env.now (w.calls + 1 + 1))))
  unfolding register store_cluster ClusterTable.get_by_name ClusterTable.get_by_id
      ClusterTable.create find
  register_new healthy n named absent = (
    subst (IsConnected uuid new_id version s) (sym reaches) (connect-IsConnected new_id w₃),
    subst (λ m. cluster new_id m.2 ≡ some c) (sym reaches) (unfold connect in rw (==_refl new_id)),
  )
    where
      c : Cluster
      c =
          new_cluster env uuid (cluster_table env) operations new_id name version info
            (env.now (w.calls + 1 + 1))

      w₃ : World
      w₃ = record (tick (tick (tick w))) { clusters = c ∷ w.clusters }

      reaches :
          registered ≡ connect env uuid (cluster_table env) operations new_id new_id version s w₃
      reaches = ground (
        arith,
        str_eq_iff name "",
        healthy w.calls,
        healthy (w.calls + 1),
        healthy (w.calls + 1 + 1),
        name_taken_absent new_id name w.clusters named,
      )
