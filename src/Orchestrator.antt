-- ===== src/Orchestrator.antt =====
-- internal/orchestrator/orchestrator.go. Logging and the counters of finished operations are left
-- out; the gauge of operations in progress is kept.
pub mod Runs
pub mod Traces
pub mod Workers
use mckmt.Base.{
  ℕ, ◌+◌, ◌-◌, String, Bool, true, false, Option, none, some, List, [], ◌∷◌, ◌++◌, Result, ok, err,
  failed, ◌==◌, ltb, if◌then◌else◌, length,
}
use mckmt.Repo.{
  Status, success, cancelled, is_cancelled, OperationType, apply, exec, sync, delete, text, Payload,
  Operation,
}
use mckmt.Repo.Store.{World, M}
use mckmt.Repo.Interfaces.{OperationRepository}

-- make(chan *repo.Operation, 1000) and make(chan uuid.UUID, 100)
abbrev pub queue_capacity : ℕ
queue_capacity = 1000

abbrev pub cancel_capacity : ℕ
cancel_capacity = 100

-- A send in a `select` with a default branch fails where the buffer is full.
unfoldable pub queue_operation : Operation → M (Unit {0})
queue_operation op w =
    if ltb (length w.queue) queue_capacity
    then (ok tt, record w { queue = w.queue ++ op ∷ [] })
    else (err (failed "operation queue is full"), w)

unfoldable pub cancel_operation : ℕ → M (Unit {0})
cancel_operation i w =
    if ltb (length w.cancel_ch) cancel_capacity
    then (ok tt, record w { cancel_ch = w.cancel_ch ++ i ∷ [] })
    else (err (failed "cancellation queue is full"), w)

-- o.runningOps[id] = cancel, delete(o.runningOps, id), and the call of a stored `cancel`.
abbrev pub RunningOps : Type 0
RunningOps = List (ℕ × Bool)

unfoldable pub forget : ℕ → RunningOps → RunningOps
forget i [] = []
forget i ((j, c) ∷ ops) = let rest = forget i ops in if j == i then rest else (j, c) ∷ rest

unfoldable pub is_running : ℕ → RunningOps → Bool
is_running i [] = false
is_running i ((j, c) ∷ ops) = if j == i then true else is_running i ops

unfoldable pub call_cancel : ℕ → RunningOps → RunningOps
call_cancel i [] = []
call_cancel i ((j, c) ∷ ops) = if j == i then (j, true) ∷ ops else (j, c) ∷ call_cancel i ops

-- What opCtx.Err() says at the three places where processOperation asks: before SetStarted, after
-- the work, and where the status is chosen. A cancelled context stays so.
pub record Context : Type 0 where
  pub before : Bool
  pub during : Bool
  pub settling : Bool

-- processApplyOperation, processExecOperation, processSyncOperation, processDeleteOperation and
-- the default branch; a nil map is an empty one.
unfoldable pub work : OperationType → Payload × Bool
work (OperationType.other _) = ([], false)
work _ = (
  ("status", text "queued") ∷ ("message", text "Operation queued for agent processing") ∷ [],
  true,
)

abbrev pub cancelled_result : Payload
cancelled_result = ("status", text "cancelled") ∷ ("message", text "Operation was cancelled") ∷ []

-- The result and the success flag after the check behind the work.
unfoldable pub outcome : Context → OperationType → Payload × Bool
outcome ctx t = if ctx.during then (cancelled_result, false) else work t

unfoldable pub final_status : Context → Bool → Status
final_status ctx true = success
final_status ctx false = if ctx.settling then cancelled else Status.failed

module _ (repo : OperationRepository) where
  -- The part of processOperation behind a successful SetStarted. The errors are logged.
  unfoldable pub settle : Context → Operation → World → World
  settle ctx op w =
      let w₁ = record w { in_progress = w.in_progress + 1 } in
      let (result, done) = outcome ctx op.op_type in
      let w₂ = (repo.update_status op.id (final_status ctx done) w₁).1 in
      let w₃ = (repo.update_result op.id result w₂).1 in
      let w₄ = (repo.set_finished op.id w₃).1 in record w₄ { in_progress = w₄.in_progress - 1 }

  -- The part behind the first look at the row, with the deferred delete.
  unfoldable pub run_registered : Context → Operation → World → World
  run_registered ctx op w =
      let w₁ = record w { running_ops = (op.id, false) ∷ forget op.id w.running_ops } in
      let w₂ : World =
        if ctx.before
        then w₁
        else (let (r, w') = repo.set_started op.id w₁ in
            elim r [ err _ ↦ w' | ok _ ↦ settle ctx op w' ]) in
      record w₂ { running_ops = forget op.id w₂.running_ops }

  unfoldable pub process_operation : Context → Operation → World → World
  process_operation ctx op w =
      let (r, w₁) = repo.get_by_id op.id w in
      elim r [
        | err _ ↦ run_registered ctx op w₁
        | ok existing ↦ if is_cancelled existing.status then w₁ else run_registered ctx op w₁
      ]

  -- handleCancellation
  unfoldable pub handle_cancellation : ℕ → World → World
  handle_cancellation i w =
      if is_running i w.running_ops
      then record w { running_ops = call_cancel i w.running_ops }
      else (repo.update_status i cancelled w).1

  -- One round of the loop of processOperations or of a worker: what the `select` has chosen. A
  -- receive waits where the channel is empty.
  unfoldable pub receive_cancellation : World → World
  receive_cancellation w = elim w.cancel_ch [
    | [] ↦ w
    | i ∷ rest ↦ handle_cancellation i (record w { cancel_ch = rest })
  ]

  unfoldable pub receive_operation : Context → World → World
  receive_operation ctx w = elim w.queue [
    | [] ↦ w
    | op ∷ rest ↦ process_operation ctx op (record w { queue = rest })
  ]
