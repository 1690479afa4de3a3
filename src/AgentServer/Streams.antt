-- ===== src/AgentServer/Streams.antt =====
-- StreamOperations of internal/api/grpc/server.go: the loop of one stream, which keeps the
-- connection that it found when it began.
use mckmt.Base.{
  ℕ, String, ◌≡◌, refl, ◌≢◌, zero, suc, Bool, true, Option, none, some, List, [], ◌∷◌, ◌++◌, map,
  ok, arith, length, if◌then◌else◌, ltb, ltb→lt, ◌⊎◌, length-append, ◌≤◌, ◌<◌, str_eq_iff,
  Bool-cases, inl, inr,
}
use mckmt.Repo.Store.{World, Env}
use mckmt.Repo.Interfaces.{OperationRepository, ClusterRepository}
use mckmt.AgentServer.State.{
  Uuid, Task, Connection, Server, stream_capacity, find_agent, set_agent, set_connection,
}
use mckmt.AgentServer.Handlers.{connect, queue_operation, disconnect_agent}

-- agentv1.Operation, as far as it is filled: the payload is not converted.
pub record Proto : Type 0 where
  pub id : String
  pub cluster_id : String
  pub task_type : String
  pub timeout_seconds : ℕ
  pub created_at : Option ℕ

unfoldable pub to_proto : Task → Proto
to_proto t = record {
  id = t.id;
  cluster_id = t.cluster_id;
  task_type = t.task_type;
  timeout_seconds = t.timeout;
  created_at = t.created_at;
}

-- How a round ends whose `select` does not choose the end of the stream. A closed and empty channel
-- gives a nil operation, whose fields are then read.
pub data Round : Type 0 where
  waits : Round
  sends : Proto → Round
  send_fails : Round
  panics : Round

unfoldable pub stream_round : Bool → ℕ → Server → Round × Server
stream_round sent a s = elim (s.connections a) [
  | none ↦ (waits, s)
  | some c ↦ elim c.stream [
    | [] ↦ if c.closed then (panics, s) else (waits, s)
    | t ∷ rest ↦ (
      if sent then sends (to_proto t) else send_fails,
      set_connection a (record c { stream = rest }) s,
    )
  ]
]

-- A number of rounds whose sends succeed: what was sent, and the state then.
abbrev sent_in : Round → List Proto
sent_in (sends p) = p ∷ []
sent_in _ = []

unfoldable pub deliver : ℕ → ℕ → Server → List Proto × Server
deliver zero a s = ([], s)
deliver (suc n) a s =
    let (r, s₁) = stream_round true a s in let (ps, s₂) = deliver n a s₁ in (sent_in r ++ ps, s₂)

pub deliver_all :
    (a : ℕ) (ts : List Task) (c : Connection) (s : Server)
    → s.connections a ≡ some c
    → c.stream ≡ ts
    → let (ps, s') = deliver (length ts) a s in
      (ps ≡ map to_proto ts) × (s'.connections a ≡ some (record c { stream = [] }))
unfolding deliver stream_round
deliver_all a [] c s h e = (refl, ground arith)
deliver_all a (t ∷ ts) c s h e = ground (
  arith,
  deliver_all a ts (record c { stream = ts }) (set_connection a (record c { stream = ts }) s),
)

closed_round :
    (a : ℕ) (c : Connection) (s : Server)
    → c.closed ≡ true
    → s.connections a ≡ some (record c { stream = [] })
    → (stream_round true a s).0 ≡ panics
unfolding stream_round
closed_round a c s e h = ground arith

-- DisconnectAgent of a connected agent, under a running stream: once the stream has sent what was
-- left in the channel, its next round reads the fields of a nil operation.
disconnect_panics :
    (key : String) (a : ℕ) (c : Connection) (s : Server)
    → find_agent key s.agents ≡ some a
    → s.connections a ≡ some c
    → let s' = disconnect_agent key s in
      (stream_round true a (deliver (length c.stream) a s').1).0 ≡ panics
unfolding disconnect_agent
disconnect_panics key a c s f h =
    let s' = disconnect_agent key s in
    let closed : s'.connections a ≡ some (record c { closed = true }) = ground arith in
    closed_round a (record c { closed = true }) (deliver (length c.stream) a s').1 refl
      (deliver_all a c.stream (record c { closed = true }) s' closed refl).1

pub find-set_agent_self :
    (k : String) (a : ℕ) (m : List (String × ℕ)) → find_agent k (set_agent k a m) ≡ some a
unfolding find_agent set_agent
find-set_agent_self k a [] = ground (arith, str_eq_iff k k)
find-set_agent_self k a ((j, b) ∷ m) =
    ground (arith, str_eq_iff k k, str_eq_iff j k, find-set_agent_self k a m)

-- An agent that registers again gets a new connection: a task that is queued then is accepted, the
-- key of the agent leads to the new connection, and the earlier connection, whose channel a running
-- stream reads, is left as it was, without the task.
pub reconnect_strands_stream :
    (env : Env) (uuid : Uuid) (clusters : ClusterRepository) (operations : OperationRepository)
    (i cluster : ℕ) (version : String) (a : ℕ) (task : Task) (s : Server) (w : World)
    → a < s.fresh
    → let s' = (connect env uuid clusters operations i cluster version s w).1 in
      let (r, s'') = queue_operation (uuid.to_string i) task s' in
      (r ≡ ok tt)
      × (s''.connections a ≡ s.connections a)
      × (find_agent (uuid.to_string i) s''.agents ≡ some s.fresh)
unfolding connect queue_operation
reconnect_strands_stream env uuid clusters operations i cluster version a task s w h =
    let found = find-set_agent_self (uuid.to_string i) s.fresh s.agents in
    (ground arith, ground arith, ground arith)

-- For a connected agent whose channel holds no more than its capacity: a task that QueueOperation
-- accepts stands behind those in the channel, which then holds no more than its capacity either; a
-- task is refused exactly where the channel is full, and then nothing changes.
pub queue_operation_bounded :
    (key : String) (a : ℕ) (task : Task) (c : Connection) (s : Server)
    → find_agent key s.agents ≡ some a
    → s.connections a ≡ some c
    → length c.stream ≤ stream_capacity
    → let (r, s') = queue_operation key task s in
      ((r ≡ ok tt)
        × (length c.stream < stream_capacity)
        × (s'.connections a ≡ some (record c { stream = c.stream ++ task ∷ [] }))
        × (length (c.stream ++ task ∷ []) ≤ stream_capacity))
      ⊎ ((r ≢ ok tt) × (length c.stream ≡ stream_capacity) × (s' ≡ s))
unfolding queue_operation
queue_operation_bounded key a task c s f h b =
    elim (Bool-cases (ltb (length c.stream) stream_capacity)) [
      | inl room ↦ inl (
        ground arith,
        ground arith,
        ground arith,
        omega (arith, length-append c.stream (task ∷ []), ltb→lt _ _ room),
      )
      | inr full ↦ inr (ground arith, ground arith, ground arith)
    ]
