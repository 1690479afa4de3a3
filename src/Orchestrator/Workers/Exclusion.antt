-- ===== src/Orchestrator/Workers/Exclusion.antt =====
-- Which goroutines run which operations (Orchestrator/Workers).
use mckmt.Base.{
  ℕ, ◌+◌, ◌-◌, ◌≡◌, refl, true, false, none, some, [], ◌∷◌, Result, ok, err, arith, if◌then◌else◌,
}
use mckmt.Repo.{cancelled, is_cancelled}
use mckmt.Repo.Store.{World, Env}
use mckmt.Repo.OperationTable.{update_status, update_result, set_started, set_finished, get_by_id}
use mckmt.Repo.Interfaces.{table}
use mckmt.Orchestrator.{outcome, final_status, queue_operation, cancel_operation}
use mckmt.Orchestrator.Workers.{
  Phase, idle, taken, checked, registered, opened, begun, worked, status_set, result_set, leaving,
  Pool, holder, drop_entry, place, move, context_of, act, advance, cancel_run, receive_request,
}
use mckmt.Orchestrator.Workers.Rows.{
  IsWaiting, update_status-IsWaiting, update_result-IsWaiting, set_started-IsWaiting,
  set_finished-IsWaiting, get_by_id-IsWaiting, set_started-claims,
}
use mckmt.Orchestrator.Workers.Schedules.{
  work, request, Event, step, queue, cancel, Reach, here, next,
}
use mckmt.Orchestrator.Workers.Moves.{
  active, IsExclusive, quiet_move, claim_move, final-forward, same_active, moved, world_move,
}

act-IsExclusive :
    (env : Env) (k : ℕ) (p : Pool) (phase : Phase)
    → (p.workers k).phase ≡ phase
    → IsExclusive p
    → IsExclusive (act (table env) k phase p)
unfolding act
act-IsExclusive env k p idle h e =
    elim p.world.queue
      as (λ ops.
        IsExclusive (elim ops [
          | [] ↦ p
          | op ∷ rest ↦ move k (taken op) (record p.world { queue = rest }) p
        ])) [
          | [] ↦ e
          | op ∷ rest ↦ moved env k p (taken op) (record p.world { queue = rest }) refl (λ i a. a) e
        ]
act-IsExclusive env k p (taken op) h e =
    let w = (get_by_id env op.id p.world).1 in
    let keeps : (i : ℕ) → IsWaiting i w → IsWaiting i p.world =
      λ i. get_by_id-IsWaiting env op.id i p.world in
    let on = moved env k p (checked op) w refl keeps e in
    elim (get_by_id env op.id p.world).0
      as (λ r. IsExclusive (elim r [
        | err _ ↦ move k (checked op) w p
        | ok existing ↦
            if is_cancelled existing.status then move k idle w p else move k (checked op) w p
      ])) [
        | err _ ↦ on
        | ok existing ↦
            elim (is_cancelled existing.status)
              as (λ b. IsExclusive (if b then move k idle w p else move k (checked op) w p)) [
                | true ↦ moved env k p idle w refl keeps e
                | false ↦ on
              ]
      ]
act-IsExclusive env k p (checked op) h e =
    quiet_move k (record { phase = registered op; is_cancelled = false }) p.world p
      ((op.id, k) ∷ drop_entry op.id p.running) (λ i a. ground arith) (λ i a. a) e
act-IsExclusive env k p (registered op) h e =
    elim (p.workers k).is_cancelled
      as (λ b.
        IsExclusive (if b then move k (leaving op) p.world p else move k (opened op) p.world p)) [
          | true ↦ moved env k p (leaving op) p.world refl (λ i a. a) e
          | false ↦ moved env k p (opened op) p.world refl (λ i a. a) e
        ]
act-IsExclusive env k p (opened op) h e = tried (set_started env op.id p.world).0 refl
  where
    w : World
    w = (set_started env op.id p.world).1

    keeps : (i : ℕ) → IsWaiting i w → IsWaiting i p.world
    keeps i = set_started-IsWaiting env op.id i p.world

    tried :
        (r : Result (Unit {0}))
        → (set_started env op.id p.world).0 ≡ r
        → IsExclusive (elim r [ err _ ↦ move k (leaving op) w p | ok _ ↦ move k (begun op) w p ])
    tried (err x) f = moved env k p (leaving op) w refl keeps e
    tried (ok x) f =
        let (waits, gone) = set_started-claims env op.id p.world f in
        claim_move k op.id (record (p.workers k) { phase = begun op }) w p refl waits gone keeps e
act-IsExclusive env k p (begun op) h e =
    let (result, done) = outcome (context_of (p.workers k)) op.op_type in
    same_active env k p (worked op result done)
      (record p.world { in_progress = p.world.in_progress + 1 }) (λ i a. rw h a) (λ i a. a) e
act-IsExclusive env k p (worked op result done) h e =
    let s = final_status (context_of (p.workers k)) done in
    same_active env k p (status_set op result) (update_status env op.id s p.world).1 (λ i a. rw h a)
      (λ i.
        update_status-IsWaiting env op.id i p.world s
          (final-forward (context_of (p.workers k)) done))
      e
act-IsExclusive env k p (status_set op result) h e =
    same_active env k p (result_set op) (update_result env op.id result p.world).1 (λ i a. rw h a)
      (λ i. update_result-IsWaiting env op.id i p.world result) e
act-IsExclusive env k p (result_set op) h e =
    let w = (set_finished env op.id p.world).1 in
    moved env k p (leaving op) (record w { in_progress = w.in_progress - 1 }) refl
      (λ i. set_finished-IsWaiting env op.id i p.world) e
act-IsExclusive env k p (leaving op) h e =
    quiet_move k (record (p.workers k) { phase = idle }) p.world p (drop_entry op.id p.running)
      (λ i a. ground arith) (λ i a. a) e

cancel_run-IsExclusive :
    (env : Env) (i : ℕ) (p : Pool) → IsExclusive p → IsExclusive (cancel_run (table env) i p)
unfolding cancel_run
cancel_run-IsExclusive env i p e =
    elim (holder i p.running)
      as (λ o. IsExclusive (elim o [
        | some k ↦ record p {
          workers = place k (record (p.workers k) { is_cancelled = true }) p.workers;
        }
        | none ↦ record p { world = (update_status env i cancelled p.world).1 }
      ])) [
        | some k ↦
            quiet_move k (record (p.workers k) { is_cancelled = true }) p.world p p.running
              (λ j a. a) (λ j a. a) e
        | none ↦
            world_move (update_status env i cancelled p.world).1 p
              (λ j. update_status-IsWaiting env i j p.world cancelled (λ c. ground arith)) e
      ]

request-IsExclusive :
    (env : Env) (p : Pool) → IsExclusive p → IsExclusive (receive_request (table env) p)
unfolding receive_request
request-IsExclusive env p e =
    elim p.world.cancel_ch
      as (λ ids. IsExclusive (elim ids [
        | [] ↦ p
        | i ∷ rest ↦
            cancel_run (table env) i (record p { world = record p.world { cancel_ch = rest } })
      ])) [
        | [] ↦ e
        | i ∷ rest ↦
            cancel_run-IsExclusive env i (record p { world = record p.world { cancel_ch = rest } })
              (world_move (record p.world { cancel_ch = rest }) p (λ j a. a) e)
      ]

Event-IsExclusive :
    {env : Env} {n : ℕ} {p q : Pool} → Event env n p q → IsExclusive p → IsExclusive q
unfolding advance queue_operation cancel_operation
Event-IsExclusive {env} (step (work p k l r)) e = act-IsExclusive env k p (p.workers k).phase refl e
Event-IsExclusive {env} (step (request p i c)) e = request-IsExclusive env p e
Event-IsExclusive (queue p op) e =
    world_move (queue_operation op p.world).1 p (λ i (r, a, b). (r, ground arith, b)) e
Event-IsExclusive (cancel p i) e =
    world_move (cancel_operation i p.world).1 p (λ j (r, a, b). (r, ground arith, b)) e

-- However the goroutines interleave and whichever calls fail: from a pool in which nothing is being
-- run, a pool is reached in which no operation that is between its SetStarted and its SetFinished is
-- still queued in the table, and in which no two goroutines are there with the same operation, even
-- where it was put into the queue more than once.
pub Reach-IsExclusive :
    (env : Env) (n : ℕ) (p q : Pool)
    → ((k : ℕ) → active (p.workers k).phase ≡ none)
    → Reach env n p q
    → IsExclusive q
Reach-IsExclusive env n p q a here = record {
  started = λ k i h. ground (arith, a k);
  one = λ j k i h. ground (arith, a j);
}
Reach-IsExclusive env n p q a (next r ev) = Event-IsExclusive ev (Reach-IsExclusive env n p _ a r)
