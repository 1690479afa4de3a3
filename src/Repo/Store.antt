-- ===== src/Repo/Store.antt =====
-- The state outside the program: the tables of migrations/000001_initial_schema.up.sql, the
-- entries of Redis, and the outcome of each call to either of them; and the state of the
-- orchestrator, which the services share.
pub mod Laws
use mckmt.Base.{
  ℕ, ◌+◌, Bool, Option, none, some, List, [], ◌∷◌, Result, ok, err, db_failed, cache_failed,
  cache_miss, ◌==◌, leb, if◌then◌else◌,
}
use mckmt.Repo.{Operation, Cluster}

-- A cached value, with the time at which Redis drops it.
pub record Entry (A : Type 0) : Type 0 where
  pub value : A
  pub deadline : ℕ

-- The keys "operation:<id>" and "cluster:<id>" name the entries of two maps.
pub record World : Type 0 where
  pub operations : List Operation
  pub clusters : List Cluster
  pub op_cache : ℕ → Option (Entry Operation)
  pub cluster_cache : ℕ → Option (Entry Cluster)
  -- the orchestrator's channels, its map `runningOps` (with whether `cancel` was called), and the
  -- gauge of operations in progress
  pub queue : List Operation
  pub cancel_ch : List ℕ
  pub running_ops : List (ℕ × Bool)
  pub in_progress : ℕ
  -- how many calls the program has made, to the database and to the cache
  pub calls : ℕ

-- What the program does not decide: whether its n-th call fails, the clock at that call, and
-- whether the driver scans a NULL into a Go string as "" (if not, Scan returns an error).
pub record Env : Type 0 where
  pub fails : ℕ → Bool
  pub now : ℕ → ℕ
  pub null_as_empty : Bool

abbrev pub M : Type 0 → Type 0
M A = World → Result A × World

abbrev pub tick : World → World
tick w = record w { calls = w.calls + 1 }

module _ (env : Env) {A : Type 0} where
  -- A call to the database; a failed one leaves the tables as they are.
  abbrev pub db : M A → M A
  db query w = if env.fails w.calls then (err db_failed, tick w) else query (tick w)

  -- A call to Redis.
  abbrev pub redis : M A → M A
  redis command w = if env.fails w.calls then (err cache_failed, tick w) else command (tick w)

-- GET: an entry whose time is over is not there.
abbrev pub live : {A : Type 0} → ℕ → Option (Entry A) → Result A
live now none = err cache_miss
live now (some e) = if leb e.deadline now then err cache_miss else ok e.value

-- The map with one entry replaced.
abbrev pub put : {A : Type 0} → ℕ → Option A → (ℕ → Option A) → ℕ → Option A
put i v m j = if i == j then v else m j

module _ {A : Type 0} (key : A → ℕ) where
  -- `WHERE id = $1`: the id is the primary key.
  unfoldable pub find : ℕ → List A → Option A
  find i [] = none
  find i (r ∷ rs) = if key r == i then some r else find i rs

  -- `UPDATE ... WHERE id = $1 AND ...`: `change` gives the new row, or `none` where the further
  -- conditions do not hold.
  unfoldable pub update : ℕ → (A → Option A) → List A → List A
  update i change [] = []
  update i change (r ∷ rs) =
      if key r == i
      then (elim (change r) [ none ↦ r | some r' ↦ r' ]) ∷ rs
      else r ∷ update i change rs

  -- `DELETE ... WHERE id = $1`
  unfoldable pub remove : ℕ → List A → List A
  remove i [] = []
  remove i (r ∷ rs) = let rest = remove i rs in if key r == i then rest else r ∷ rest
