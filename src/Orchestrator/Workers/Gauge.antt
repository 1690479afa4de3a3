-- ===== src/Orchestrator/Workers/Gauge.antt =====
-- The gauge, the map of the running operations and the channels over the schedules
-- (Orchestrator/Workers).
use mckmt.Base.{
  ℕ, ◌<◌, ◌≤◌, ◌≡◌, refl, ap, true, none, some, List, [], ◌∷◌, arith, Bool-cases, Option-cases,
  zero, suc, inl, inr, ◌==◌, ==_iff, length, length-append, ◌∙◌, sym,
}
use mckmt.Repo.{Operation, cancelled}
use mckmt.Repo.Store.{World, Env}
use mckmt.Repo.OperationTable.{update_status}
use mckmt.Repo.OperationTable.Rows.{update_status-IsOneCall}
use mckmt.Repo.Interfaces.{table}
use mckmt.Orchestrator.{queue_capacity, cancel_capacity, queue_operation, cancel_operation}
use mckmt.Orchestrator.Workers.{
  idle, Worker, Pool, holder, place, advance, cancel_run, receive_request,
}
use mckmt.Orchestrator.Workers.Schedules.{
  work, request, Event, step, queue, cancel, Reach, here, next, place_here, place_there,
}
use mckmt.Orchestrator.Workers.Draining.{total, total_ext}
use mckmt.Orchestrator.Workers.Counting.{gauged, entered, IsCounted}
use mckmt.Orchestrator.Workers.GaugeAccesses.{act-IsCounted}

-- A world that differs by what does not count.
world-IsCounted :
    (n : ℕ) (p : Pool) (w : World)
    → length w.queue ≤ queue_capacity
    → length w.cancel_ch ≤ cancel_capacity
    → w.in_progress ≡ p.world.in_progress
    → IsCounted n p
    → IsCounted n (record p { world = w })
world-IsCounted n p w a b g c = record {
  queue_bounded = a;
  cancel_bounded = b;
  gauge = g ∙ c.gauge;
  entries = c.entries;
}

-- A flag changes no phase.
flag_phase :
    (k : ℕ) (ws : ℕ → Worker) (j : ℕ)
    → (place k (record (ws k) { is_cancelled = true }) ws j).phase ≡ (ws j).phase
flag_phase k ws j = elim (Bool-cases (k == j)) [
  | inl c ↦
      ap (λ (x : Worker). x.phase) (place_here k j (record (ws k) { is_cancelled = true }) ws c)
      ∙ ap (λ i. (ws i).phase) ((==_iff k j).0 c)
  | inr c ↦
      ap (λ (x : Worker). x.phase) (place_there k j (record (ws k) { is_cancelled = true }) ws c)
]

cancel_run-IsCounted :
    (env : Env) (n i : ℕ) (p : Pool) → IsCounted n p → IsCounted n (cancel_run (table env) i p)
unfolding cancel_run
cancel_run-IsCounted env n i p c =
    let m = update_status env i cancelled p.world in
    elim (holder i p.running)
      as (λ o. IsCounted n (elim o [
        | some k ↦ record p {
          workers = place k (record (p.workers k) { is_cancelled = true }) p.workers;
        }
        | none ↦ record p { world = m.1 }
      ])) [
        | some k ↦ record {
          queue_bounded = c.queue_bounded;
          cancel_bounded = c.cancel_bounded;
          gauge =
              c.gauge
              ∙ sym (
                  total_ext gauged n
                    (place k (record (p.workers k) { is_cancelled = true }) p.workers) p.workers
                    (λ j. ap gauged (flag_phase k p.workers j)));
          entries = λ i' j h.
              let (below, own) = c.entries i' j h in
              (below, ap entered (flag_phase k p.workers j) ∙ own);
        }
        | none ↦
            let one = update_status-IsOneCall env i cancelled p.world in
            let q = ap (λ (x : List Operation). length x) one.4 in
            let r = ap (λ (x : List ℕ). length x) one.5 in
            world-IsCounted n p m.1 (omega (arith, q, c.queue_bounded))
              (omega (arith, r, c.cancel_bounded)) one.7 c
      ]

request-IsCounted :
    (env : Env) (n : ℕ) (p : Pool) → IsCounted n p → IsCounted n (receive_request (table env) p)
unfolding receive_request
request-IsCounted env n p c =
    elim p.world.cancel_ch
        as (λ ids.
          p.world.cancel_ch ≡ ids
          → IsCounted n (elim ids [
            | [] ↦ p
            | i ∷ rest ↦
                cancel_run (table env) i (record p { world = record p.world { cancel_ch = rest } })
          ])) [
            | [] ↦ λ e. c
            | i ∷ rest ↦ λ e.
                let f = ap (λ (x : List ℕ). length x) e in
                cancel_run-IsCounted env n i
                  (record p { world = record p.world { cancel_ch = rest } })
                  (world-IsCounted n p (record p.world { cancel_ch = rest }) c.queue_bounded
                    (omega (arith, f, c.cancel_bounded)) refl c)
          ]
      refl

Event-IsCounted : {env : Env} {n : ℕ} {p q : Pool} → Event env n p q → IsCounted n p → IsCounted n q
unfolding advance queue_operation cancel_operation
Event-IsCounted {env} {n} (step (work p k l r)) c =
    act-IsCounted env n k p l (p.workers k).phase refl c
Event-IsCounted {env} {n} (step (request p i e)) c = request-IsCounted env n p c
Event-IsCounted {env} {n} (queue p op) c =
    world-IsCounted n p (queue_operation op p.world).1
      (ground (arith, c.queue_bounded, length-append p.world.queue (op ∷ [])))
      (ground (arith, c.cancel_bounded)) (ground arith) c
Event-IsCounted {env} {n} (cancel p i) c =
    world-IsCounted n p (cancel_operation i p.world).1 (ground (arith, c.queue_bounded))
      (ground (arith, c.cancel_bounded, length-append p.world.cancel_ch (i ∷ []))) (ground arith) c

-- From a pool in which both channels keep their capacity, the gauge counts the goroutines between its
-- Inc and its Dec, and each entry of the map is that of a goroutine which has registered the operation
-- and not yet deleted it: every pool that is reached is such a pool, however the `n` goroutines
-- interleave, whichever calls fail, and whatever is queued and cancelled meanwhile.
pub Reach-IsCounted :
    (env : Env) (n : ℕ) (p q : Pool) → IsCounted n p → Reach env n p q → IsCounted n q
Reach-IsCounted env n p q c here = c
Reach-IsCounted env n p q c (next r ev) = Event-IsCounted ev (Reach-IsCounted env n p _ c r)

-- Once every goroutine waits again, the gauge is 0 and the map holds no operation.
Reach-rest :
    (env : Env) (n : ℕ) (p q : Pool)
    → IsCounted n p
    → Reach env n p q
    → ((k : ℕ) → k < n → (q.workers k).phase ≡ idle)
    → (q.world.in_progress ≡ 0) × ((i : ℕ) → holder i q.running ≡ none)
Reach-rest env n p q c r rest =
    let d = Reach-IsCounted env n p q c r in
    (
      d.gauge ∙ none_gauged n q.workers rest,
      λ i. elim (Option-cases (holder i q.running)) [
        | inl e ↦ e
        | inr (k, e) ↦
            let (below, own) = d.entries i k e in absurd (ground (arith, own, rest k below))
      ],
    )
  where
    none_gauged :
        (m : ℕ) (ws : ℕ → Worker) → ((k : ℕ) → k < m → (ws k).phase ≡ idle) → total gauged m ws ≡ 0
    none_gauged zero ws h = refl
    none_gauged (suc m) ws h =
        omega
          (arith, none_gauged m ws (λ k l. h k (omega (arith, l))), ap gauged (h m (omega arith)))
