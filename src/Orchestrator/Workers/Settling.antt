-- ===== src/Orchestrator/Workers/Settling.antt =====
-- What a goroutine that goes on alone does to the row of its operation (Orchestrator/Workers).
use mckmt.Base.{
  ℕ, ◌+◌, ◌-◌, ◌≤◌, zero, suc, ◌≡◌, refl, ap, sym, ◌∙◌, false, some, List, [], ◌∷◌, arith,
}
use mckmt.Repo.{Operation, queued}
use mckmt.Repo.Store.{World, Env}
use mckmt.Repo.OperationTable.Rows.{row}
use mckmt.Repo.OperationTable.Lifecycle.{started}
use mckmt.Repo.Interfaces.{table}
use mckmt.Orchestrator.{final_status, process_operation, receive_operation}
use mckmt.Orchestrator.Runs.{settled, process-queued}
use mckmt.Orchestrator.Workers.{
  Phase, idle, taken, checked, registered, opened, begun, worked, status_set, result_set, leaving,
  Pool, move, context_of, act, advance,
}
use mckmt.Orchestrator.Workers.Registered.{
  with_ops, get_by_id-with_ops, set_started-with_ops, update_status-with_ops,
  update_result-with_ops, set_finished-with_ops,
}
use mckmt.Orchestrator.Workers.Alone.{undisturbed, alone, at_phase}
use mckmt.Orchestrator.Workers.Rounds.{EndsIn, alone-receive_operation}

-- The goroutines do not look at the list that the world has for one worker.
abbrev strip : Pool → Pool
strip p = record p { world = with_ops [] p.world }

act-strip :
    (env : Env) (k : ℕ) (phase : Phase) (p : Pool)
    → act (table env) k phase (strip p) ≡ strip (act (table env) k phase p)
unfolding act
act-strip env k idle p = ground arith
act-strip env k (taken op) p = ground (arith, get_by_id-with_ops env op.id [] p.world)
act-strip env k (checked op) p = refl
act-strip env k (registered op) p = ground arith
act-strip env k (opened op) p = ground (arith, set_started-with_ops env op.id [] p.world)
act-strip env k (begun op) p = refl
act-strip env k (worked op result done) p =
    let s = final_status (context_of (p.workers k)) done in
    ap (λ w. move k (status_set op result) w p) (update_status-with_ops env op.id [] p.world s)
act-strip env k (status_set op result) p =
    ap (λ w. move k (result_set op) w p) (update_result-with_ops env op.id [] p.world result)
act-strip env k (result_set op) p =
    ap (λ (w : World). move k (leaving op) (record w { in_progress = w.in_progress - 1 }) p)
      (set_finished-with_ops env op.id [] p.world)
act-strip env k (leaving op) p = refl

alone-strip :
    (env : Env) (k n : ℕ) (p : Pool)
    → alone (table env) n k (strip p) ≡ strip (alone (table env) n k p)
unfolding advance
alone-strip env k zero p = refl
alone-strip env k (suc n) p =
    ap (alone (table env) n k) (act-strip env k (p.workers k).phase p)
    ∙ alone-strip env k n (advance (table env) k p)

-- A goroutine waits while the queue has an operation whose row is queued, no call fails, nobody
-- cancels its context, and it goes on alone. After ten accesses at most it waits again, and the row of
-- the operation has the status and the result that its type leads to, with the times of its start and
-- its end, and is otherwise as it was but for the time of the update.
pub alone-settled :
    (env : Env) (k : ℕ) (p : Pool) (op r : Operation) (rest : List Operation)
    → ((n : ℕ) → env.fails n ≡ false)
    → p.workers k ≡ at_phase idle
    → p.world.queue ≡ op ∷ rest
    → row op.id p.world ≡ some r
    → r.status ≡ queued
    → let c = p.world.calls in
      (n : ℕ) × (n ≤ 10)
      × ((alone (table env) n k p).workers k ≡ at_phase idle)
      × (row op.id (alone (table env) n k p).world
          ≡ some (
              settled undisturbed op.op_type
                (env.now (c + 1 + 1 + 1 + 1))
                (started (env.now (c + 1)) r)))
unfolding receive_operation
alone-settled env k p op r rest healthy h e stored waits =
    let q = strip p in
    let w : World = record q.world { queue = rest } in
    let round : receive_operation (table env) undisturbed q.world
        ≡ process_operation (table env) undisturbed op w =
      ap
        (λ (ops : List Operation). elim ops [
          | [] ↦ q.world
          | x ∷ xs ↦ process_operation (table env) undisturbed x (record q.world { queue = xs })
        ])
        e in
    let (n, l, (back, same)) : EndsIn env 10 k (receive_operation (table env) undisturbed q.world)
        q =
      alone-receive_operation env k q op rest h e refl in
    let run = process-queued env healthy undisturbed op r w stored waits refl in
    let plain = sym (alone-strip env k n p) in
    (
      n,
      l,
      ap (λ (x : Pool). x.workers k) plain ∙ back,
      ap (λ (x : Pool). row op.id x.world) plain ∙ ap (row op.id) (same ∙ round) ∙ run,
    )
