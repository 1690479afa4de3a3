-- ===== src/Tests/Pools.antt =====
-- The goroutines of the orchestrator, on the state of Tests.
use mckmt.Base.{ℕ, ◌+◌, ◌≤◌, ◌≡◌, refl, false, some, [], ◌∷◌, arith}
use mckmt.Repo.{queued, apply}
use mckmt.Repo.Store.{find}
use mckmt.Repo.OperationTable.{get_by_id, scan}
use mckmt.Repo.OperationTable.Rows.{row}
use mckmt.Repo.OperationTable.Lifecycle.{started}
use mckmt.Repo.Interfaces.{table}
use mckmt.Orchestrator.Workers.{idle, Pool, holder, act, advance, is_ready}
use mckmt.Orchestrator.Workers.Schedules.{work, step, here, next, Reach}
use mckmt.Orchestrator.Workers.Moves.{IsExclusive}
use mckmt.Orchestrator.Workers.Exclusion.{Reach-IsExclusive}
use mckmt.Orchestrator.Workers.Draining.{work_left}
use mckmt.Orchestrator.Workers.Endings.{Run, stop, go, IsDrained, Run-ends}
use mckmt.Tests.{env, op, w}
use mckmt.Orchestrator.Runs.{settled}
use mckmt.Orchestrator.Workers.Alone.{undisturbed, alone, at_phase}
use mckmt.Orchestrator.Workers.Settling.{alone-settled}
use mckmt.Orchestrator.Workers.Counting.{IsCounted}
use mckmt.Orchestrator.Workers.Gauge.{Reach-IsCounted}

-- The queue is empty, and nobody runs anything.
abbrev pool : Pool
pool = record {
  world = record w { queue = [] };
  workers = λ _. record { phase = idle; is_cancelled = false };
  running = [];
}

-- Operation 1 is put into the queue twice.
abbrev twice : Pool
twice = record pool { world = record w { queue = op 1 queued ∷ op 1 queued ∷ [] } }

abbrev after : ℕ → Pool → Pool
after k p = advance (table env) k p

-- Two goroutines take it, and the first goes on until it has started it.
abbrev both_taken : Pool
both_taken = after 1 (after 0 twice)

abbrev one_started : Pool
one_started = after 0 (after 0 (after 0 (after 0 both_taken)))

reached : Reach env 2 twice one_started
unfolding advance act is_ready find get_by_id scan
reached =
    next
      (next
        (next
          (next
            (next (next here (step (work twice 0 (omega arith) refl)))
              (step (work (after 0 twice) 1 (omega arith) refl)))
            (step (work both_taken 0 (omega arith) refl)))
          (step (work (after 0 both_taken) 0 (omega arith) refl)))
        (step (work (after 0 (after 0 both_taken)) 0 (omega arith) refl)))
      (step (work (after 0 (after 0 (after 0 both_taken))) 0 (omega arith) refl))

Reach-IsExclusive_example : IsExclusive one_started
Reach-IsExclusive_example = Reach-IsExclusive env 2 twice one_started (λ k. refl) reached

Run-ends_example :
    (2 + work_left 2 both_taken ≤ work_left 2 twice)
    × ((l : ℕ) × (r : Pool) × Run env 2 both_taken l r × IsDrained 2 r)
unfolding is_ready advance
Run-ends_example = Run-ends env 2 2 twice both_taken (omega arith) (
    go (work twice 0 (omega arith) refl)
      (go (work (after 0 twice) 1 (omega arith) refl) (stop both_taken)))

alone-settled_example :
    (n : ℕ) × (n ≤ 10)
    × ((alone (table env) n 1 twice).workers 1 ≡ at_phase idle)
    × (row 1 (alone (table env) n 1 twice).world
        ≡ some (settled undisturbed apply 1004 (started 1001 (op 1 queued))))
unfolding find
alone-settled_example =
    alone-settled env 1 twice (op 1 queued) (op 1 queued) (op 1 queued ∷ []) (λ _. refl) refl refl
      refl refl

twice-IsCounted : IsCounted 2 twice
unfolding holder
twice-IsCounted = record {
  queue_bounded = ground arith;
  cancel_bounded = ground arith;
  gauge = refl;
  entries = λ i k h. ground arith;
}

Reach-IsCounted_example : IsCounted 2 one_started
Reach-IsCounted_example = Reach-IsCounted env 2 twice one_started twice-IsCounted reached
