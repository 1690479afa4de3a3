-- ===== src/AgentServer/State.antt =====
-- The state of the server and its messages (internal/api/grpc/server.go).
-- A connection is shared: the map `agents` and each running StreamOperations hold its address.
use mckmt.Base.{
  ℕ, ◌-◌, ◌/◌, ◌%◌, ◌^◌, zero, suc, String, Bool, true, false, Option, none, some, List, [], ◌∷◌,
  if◌then◌else◌, ltb, ◌==◌, str_eq, str_append,
}
use mckmt.Repo.{Payload, Labels}

-- github.com/google/uuid, as far as the server uses it.
pub record Uuid : Type 0 where
  pub to_string : ℕ → String
  pub parse : String → Option ℕ

-- Operation of server.go, a task for an agent.
pub record Task : Type 0 where
  pub id : String
  pub cluster_id : String
  pub task_type : String
  pub payload : Payload
  pub created_at : Option ℕ
  pub timeout : ℕ

-- AgentConnection, with its channel: what it holds, and whether it is closed.
pub record Connection : Type 0 where
  pub cluster_id : String
  pub agent_version : String
  pub last_heartbeat : ℕ
  pub stream : List Task
  pub closed : Bool

pub record Server : Type 0 where
  pub agents : List (String × ℕ)
  pub connections : ℕ → Option Connection
  pub fresh : ℕ

-- make(chan *Operation, 100)
abbrev pub stream_capacity : ℕ
stream_capacity = 100

-- The map s.agents.
unfoldable pub find_agent : String → List (String × ℕ) → Option ℕ
find_agent k [] = none
find_agent k ((j, a) ∷ m) = if str_eq j k then some a else find_agent k m

unfoldable pub set_agent : String → ℕ → List (String × ℕ) → List (String × ℕ)
set_agent k a [] = (k, a) ∷ []
set_agent k a ((j, b) ∷ m) = if str_eq j k then (k, a) ∷ m else (j, b) ∷ set_agent k a m

unfoldable pub delete_agent : String → List (String × ℕ) → List (String × ℕ)
delete_agent k [] = []
delete_agent k ((j, b) ∷ m) =
    let rest = delete_agent k m in if str_eq j k then rest else (j, b) ∷ rest

abbrev pub set_connection : ℕ → Connection → Server → Server
set_connection a c s = record s { connections = λ b. if a == b then some c else s.connections b }

-- The message types of the service.
pub record ClusterInfo : Type 0 where
  pub kubernetes_version : String
  pub platform : String
  -- an int32, by its bits
  pub node_count : ℕ
  pub region : String
  pub labels : Labels

pub data Code : Type 0 where
  ok_code invalid_argument not_found internal failed_precondition : Code

pub record Reply : Type 0 where
  pub code : Code
  pub success : Bool
  pub message : String

abbrev pub refuse : Code → String → Reply
refuse c m = record { code = c; success = false; message = m }

abbrev pub accept : String → Reply
accept m = record { code = ok_code; success = true; message = m }

-- labels[k] = v
unfoldable pub set_label : String → String → Labels → Labels
set_label k v [] = (k, v) ∷ []
set_label k v ((j, u) ∷ m) = if str_eq j k then (k, v) ∷ m else (j, u) ∷ set_label k v m

unfoldable pub add_labels : Labels → Labels → Labels
add_labels [] m = m
add_labels ((k, v) ∷ new) m = add_labels new (set_label k v m)

-- fmt.Sprintf("%d", n)
abbrev digit : ℕ → String
digit n =
    if n == 0
    then "0"
    else if n == 1
    then "1"
    else if n == 2
    then "2"
    else if n == 3
    then "3"
    else if n == 4
    then "4"
    else if n == 5
    then "5"
    else if n == 6
    then "6"
    else if n == 7
    then "7"
    else if n == 8
    then "8"
    else "9"

unfoldable pub decimal_from : ℕ → ℕ → String → String
decimal_from zero n rest = rest
decimal_from (suc fuel) n rest =
    let text = str_append (digit (n % 10)) rest in
    let more = decimal_from fuel (n / 10) text in if ltb n 10 then text else more

-- A number has at most as many digits as its successor counts.
unfoldable pub decimal : ℕ → String
unfolding decimal_from
decimal n = decimal_from (suc n) n ""

-- The same of an int32, which is kept by its 32 bits.
unfoldable pub decimal_int32 : ℕ → String
unfolding decimal
decimal_int32 n =
    let bits = n % 2 ^ 32 in
    if ltb bits (2 ^ 31) then decimal bits else str_append "-" (decimal (2 ^ 32 - bits))

-- The labels that a registration writes over those of the cluster.
unfoldable pub info_labels : ClusterInfo → Labels → Labels
info_labels info m = add_labels info.labels (
    set_label "region" info.region (
      set_label "node_count" (decimal_int32 info.node_count) (
        set_label "platform" info.platform
          (set_label "kubernetes_version" info.kubernetes_version m))))
