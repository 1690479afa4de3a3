-- ===== src/Repo.antt =====
-- The entities of internal/repo/interfaces.go.
-- A uuid.UUID is a number (its 128 bits), a time.Time a number of seconds, a nil pointer `none`.
pub mod Store
pub mod OperationTable
pub mod CachedOperations
pub mod ClusterTable
pub mod CachedClusters
pub mod Interfaces
use mckmt.Base.{ℕ, String, Bool, true, false, Option, List}

-- The strings of the `operationStatus` constants and of the schema's CHECK; any other is `other`.
pub data Status : Type 0 where
  queued running success failed cancelled pending : Status
  other : String → Status

-- The strings of the `OperationType` constants; any other is `other`.
pub data OperationType : Type 0 where
  apply exec sync delete : OperationType
  other : String → OperationType

-- The values that the program puts into a `map[string]interface{}`: texts, booleans, and a time
-- in its JSON form.
pub data Value : Type 0 where
  text : String → Value
  flag : Bool → Value
  stamp : ℕ → Value

abbrev pub Payload : Type 0
Payload = List (String × Value)

abbrev pub Labels : Type 0
Labels = List (String × String)

pub record Operation : Type 0 where
  pub id : ℕ
  pub cluster_id : ℕ
  pub op_type : OperationType
  pub status : Status
  pub payload : Payload
  pub result : Option Payload
  pub started_at : Option ℕ
  pub finished_at : Option ℕ
  pub created_at : ℕ
  pub updated_at : ℕ

-- The strings of the `ClusterStatus` constants and of the schema's CHECK; any other is `other`.
pub data ClusterStatus : Type 0 where
  pending connected disconnected error : ClusterStatus
  other : String → ClusterStatus

pub record Cluster : Type 0 where
  pub id : ℕ
  pub name : String
  pub description : String
  pub endpoint : String
  pub labels : Labels
  pub encrypted_credentials : List ℕ
  pub status : ClusterStatus
  pub last_seen_at : Option ℕ
  pub created_at : ℕ
  pub updated_at : ℕ

-- status == string(repo.OperationStatusCancelled)
abbrev pub is_cancelled : Status → Bool
is_cancelled cancelled = true
is_cancelled _ = false

-- The three tests by which the services refuse to cancel.
abbrev pub is_final : Status → Bool
is_final success = true
is_final failed = true
is_final cancelled = true
is_final _ = false

-- The primary keys of the two tables.
abbrev pub op_id : Operation → ℕ
op_id o = o.id

abbrev pub cluster_id : Cluster → ℕ
cluster_id c = c.id
