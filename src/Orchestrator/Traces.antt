-- ===== src/Orchestrator/Traces.antt =====
-- What processOperation leaves alone (Orchestrator), in every outcome of its calls.
use mckmt.Base.{ℕ, ◌+◌, ◌≡◌, refl, ◌∙◌, ◌≢◌, Bool, false, some, [], ◌∷◌, arith}
use mckmt.Repo.{queued, Operation}
use mckmt.Repo.Store.{World, Env, tick}
use mckmt.Repo.OperationTable
use mckmt.Repo.OperationTable.{update_row}
use mckmt.Repo.OperationTable.Rows.{row, writes-IsOneCall}
use mckmt.Repo.Interfaces.{table}
use mckmt.Orchestrator.{
  Context, RunningOps, forget, is_running, settle, run_registered, process_operation, outcome,
  final_status,
}
use mckmt.Orchestrator.Runs.{process_cases}

-- The part of the state that a run gives back.
abbrev pub GivesBack : World → World → Type 0
GivesBack w w' =
    (w'.in_progress ≡ w.in_progress)
    × (w'.queue ≡ w.queue)
    × (w'.cancel_ch ≡ w.cancel_ch)
    × (w'.clusters ≡ w.clusters)
    × (w'.running_ops ≡ w.running_ops)

forget_absent : (i : ℕ) (ops : RunningOps) → is_running i ops ≡ false → forget i ops ≡ ops
unfolding forget is_running
forget_absent i [] h = refl
forget_absent i ((j, c) ∷ ops) h = ground (arith, forget_absent i ops)

forget_twice :
    (i : ℕ) (c : Bool) (ops : RunningOps) → forget i ((i, c) ∷ forget i ops) ≡ forget i ops
unfolding forget
forget_twice i c [] = ground arith
forget_twice i c ((j, d) ∷ ops) = ground (arith, forget_twice i c ops)

unregistered :
    (i : ℕ) (c : Bool) (ops : RunningOps)
    → is_running i ops ≡ false
    → forget i ((i, c) ∷ forget i ops) ≡ ops
unregistered i c ops h = forget_twice i c ops ∙ forget_absent i ops h

module _ (env : Env) (ctx : Context) (op : Operation) where
  settle-GivesBack : (w : World) → GivesBack w (settle (table env) ctx op w)
  unfolding settle
  settle-GivesBack w =
      let (result, done) = outcome ctx op.op_type in
      let s = final_status ctx done in
      let w₁ : World = record w { in_progress = w.in_progress + 1 } in
      let w₂ = (OperationTable.update_status env op.id s w₁).1 in
      let w₃ = (OperationTable.update_result env op.id result w₂).1 in
      let a = (writes-IsOneCall env op.id s result "" op w₁).2 in
      let b = (writes-IsOneCall env op.id s result "" op w₂).3 in
      let c = (writes-IsOneCall env op.id s result "" op w₃).5 in
      (
        omega (arith, a.7, b.7, c.7),
        c.4 ∙ b.4 ∙ a.4,
        c.5 ∙ b.5 ∙ a.5,
        c.2 ∙ b.2 ∙ a.2,
        c.6 ∙ b.6 ∙ a.6,
      )

  -- Once its run is over, no trace of an operation is left in `runningOps`, the gauge of operations
  -- in progress is where it was, and the channels and the clusters are untouched, also where calls
  -- fail and where the run stops early.
  process-GivesBack :
      (w : World)
      → is_running op.id w.running_ops ≡ false
      → GivesBack w (process_operation (table env) ctx op w)
  unfolding run_registered
  process-GivesBack w h =
      process_cases env ctx op w (GivesBack w)
        (ground (
          arith,
          unregistered op.id false w.running_ops h,
          (writes-IsOneCall env op.id queued [] "" op w₁).4,
          settle-GivesBack (OperationTable.set_started env op.id w₁).1,
        ))
        (λ _. (refl, refl, refl, refl, refl))
    where
      w₁ : World
      w₁ = record (tick w) { running_ops = (op.id, false) ∷ forget op.id w.running_ops }

  -- An operation whose row is not queued is not processed: no row of the table changes, whichever
  -- calls fail.
  pub process_not_queued :
      (w : World) (r : Operation)
      → row op.id w ≡ some r
      → r.status ≢ queued
      → (process_operation (table env) ctx op w).operations ≡ w.operations
  unfolding run_registered OperationTable.set_started update_row
  process_not_queued w r h q =
      process_cases env ctx op w (λ w'. w'.operations ≡ w.operations) (ground arith) (λ _. refl)
