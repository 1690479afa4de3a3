-- ===== src/Orchestrator/Workers.antt =====
-- The workers of internal/orchestrator/orchestrator.go side by side: processOperation cut into its
-- accesses to the table, to the map `runningOps` and to the context, with the other goroutines free to
-- go on between two of them. The channels and the table are those of the world; its own list of
-- running operations, which is that of one worker, is left alone.
pub mod Schedules
pub mod Rows
pub mod Moves
pub mod Exclusion
pub mod Draining
pub mod Accesses
pub mod Endings
pub mod Alone
pub mod Registered
pub mod Rounds
pub mod Settling
pub mod Counting
pub mod GaugeAccesses
pub mod Gauge
use mckmt.Base.{
  ℕ, ◌+◌, ◌-◌, ◌<◌, ◌≡◌, ◌≢◌, Bool, true, false, Option, none, some, List, [], ◌∷◌, Result, ok, err,
  ◌==◌, if◌then◌else◌,
}
use mckmt.Repo.{Payload, Operation, cancelled, is_cancelled}
use mckmt.Repo.Store.{World, Env}
use mckmt.Repo.Interfaces.{OperationRepository}
use mckmt.Orchestrator.{Context, outcome, final_status}

-- Where a goroutine stands: waiting for an operation; before GetByID; before the entry of the map;
-- before the look at the context; before SetStarted; before the work; before UpdateStatus, UpdateResult
-- and SetFinished; before the deferred delete.
pub data Phase : Type 0 where
  idle : Phase
  taken checked registered opened begun : Operation → Phase
  worked : Operation → Payload → Bool → Phase
  status_set : Operation → Payload → Phase
  result_set leaving : Operation → Phase

-- A goroutine, with whether the context of its run was cancelled.
pub record Worker : Type 0 where
  pub phase : Phase
  pub is_cancelled : Bool

-- The goroutine 0 is processOperations, the others are the workers. The map gives the goroutine whose
-- `cancel` is stored.
pub record Pool : Type 0 where
  pub world : World
  pub workers : ℕ → Worker
  pub running : List (ℕ × ℕ)

-- o.runningOps[id], and delete(o.runningOps, id)
unfoldable pub holder : ℕ → List (ℕ × ℕ) → Option ℕ
holder i [] = none
holder i ((j, k) ∷ ops) = if j == i then some k else holder i ops

unfoldable pub drop_entry : ℕ → List (ℕ × ℕ) → List (ℕ × ℕ)
drop_entry i [] = []
drop_entry i ((j, k) ∷ ops) = let rest = drop_entry i ops in if j == i then rest else (j, k) ∷ rest

abbrev pub place : ℕ → Worker → (ℕ → Worker) → ℕ → Worker
place k v ws j = if k == j then v else ws j

-- A goroutine goes on to a phase, in a new world.
abbrev pub move : ℕ → Phase → World → Pool → Pool
move k to w p = record p {
  world = w;
  workers = place k (record (p.workers k) { phase = to }) p.workers;
}

-- What the two looks at opCtx.Err() of one access say; none is made before the work.
abbrev pub context_of : Worker → Context
context_of v = record {
  before = v.is_cancelled;
  during = v.is_cancelled;
  settling = v.is_cancelled;
}

module _ (repo : OperationRepository) where
  -- The next access of a goroutine that stands in a phase.
  unfoldable pub act : ℕ → Phase → Pool → Pool
  act k idle p = elim p.world.queue [
    | [] ↦ p
    | op ∷ rest ↦ move k (taken op) (record p.world { queue = rest }) p
  ]
  act k (taken op) p =
      let (r, w) = repo.get_by_id op.id p.world in
      elim r [
        | err _ ↦ move k (checked op) w p
        | ok existing ↦
            if is_cancelled existing.status then move k idle w p else move k (checked op) w p
      ]
  act k (checked op) p = record p {
    workers = place k (record { phase = registered op; is_cancelled = false }) p.workers;
    running = (op.id, k) ∷ drop_entry op.id p.running;
  }
  act k (registered op) p =
      if (p.workers k).is_cancelled
      then move k (leaving op) p.world p
      else move k (opened op) p.world p
  act k (opened op) p =
      let (r, w) = repo.set_started op.id p.world in
      elim r [ err _ ↦ move k (leaving op) w p | ok _ ↦ move k (begun op) w p ]
  act k (begun op) p =
      let (result, done) = outcome (context_of (p.workers k)) op.op_type in
      move k (worked op result done) (record p.world { in_progress = p.world.in_progress + 1 }) p
  act k (worked op result done) p =
      let s = final_status (context_of (p.workers k)) done in
      move k (status_set op result) (repo.update_status op.id s p.world).1 p
  act k (status_set op result) p =
      move k (result_set op) (repo.update_result op.id result p.world).1 p
  act k (result_set op) p =
      let w = (repo.set_finished op.id p.world).1 in
      move k (leaving op) (record w { in_progress = w.in_progress - 1 }) p
  act k (leaving op) p = record (move k idle p.world p) { running = drop_entry op.id p.running }

  unfoldable pub advance : ℕ → Pool → Pool
  unfolding act
  advance k p = act k (p.workers k).phase p

  -- handleCancellation
  unfoldable pub cancel_run : ℕ → Pool → Pool
  cancel_run i p = elim (holder i p.running) [
    | some k ↦ record p {
      workers = place k (record (p.workers k) { is_cancelled = true }) p.workers;
    }
    | none ↦ record p { world = (repo.update_status i cancelled p.world).1 }
  ]

  -- processOperations receives a request.
  unfoldable pub receive_request : Pool → Pool
  unfolding cancel_run
  receive_request p = elim p.world.cancel_ch [
    | [] ↦ p
    | i ∷ rest ↦ cancel_run i (record p { world = record p.world { cancel_ch = rest } })
  ]

-- A goroutine that can go on: a receive waits where the channel is empty.
unfoldable pub is_ready : Phase → List Operation → Bool
is_ready idle [] = false
is_ready _ _ = true

unfoldable pub is_idle : Phase → Bool
is_idle idle = true
is_idle _ = false
