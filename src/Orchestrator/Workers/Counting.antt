-- ===== src/Orchestrator/Workers/Counting.antt =====
-- What the gauge, the map of the running operations and the channels hold while the goroutines
-- interleave (Orchestrator/Workers).
use mckmt.Base.{
  ℕ, ◌+◌, ◌<◌, ◌≤◌, ◌≡◌, subst, sym, ap, ◌∙◌, false, Option, none, some, List, [], ◌∷◌, arith,
  Bool-cases, inl, inr, ◌==◌, ==_iff, length,
}
use mckmt.Repo.{Operation}
use mckmt.Repo.Store.{World}
use mckmt.Orchestrator.{queue_capacity, cancel_capacity}
use mckmt.Orchestrator.Workers.{
  Phase, idle, checked, registered, opened, begun, worked, status_set, result_set, leaving, Worker,
  Pool, holder, drop_entry, place, move,
}
use mckmt.Orchestrator.Workers.Schedules.{place_here, place_there}
use mckmt.Orchestrator.Workers.Draining.{total, total-place}

-- What a goroutine adds to the gauge: it stands between the Inc and the deferred Dec.
abbrev pub gauged : Phase → ℕ
gauged (worked _ _ _) = 1
gauged (status_set _ _) = 1
gauged (result_set _) = 1
gauged _ = 0

-- The operation that a goroutine has registered and not yet deleted.
abbrev pub entered : Phase → Option ℕ
entered (registered op) = some op.id
entered (opened op) = some op.id
entered (begun op) = some op.id
entered (worked op _ _) = some op.id
entered (status_set op _) = some op.id
entered (result_set op) = some op.id
entered (leaving op) = some op.id
entered _ = none

-- Both channels keep their capacity, the gauge counts the goroutines that stand between its Inc and its
-- Dec, and each entry of the map is that of a goroutine that has registered the operation.
pub record IsCounted (n : ℕ) (p : Pool) : Type 0 where
  pub queue_bounded : length p.world.queue ≤ queue_capacity
  pub cancel_bounded : length p.world.cancel_ch ≤ cancel_capacity
  pub gauge : p.world.in_progress ≡ total gauged n p.workers
  pub entries :
      (i k : ℕ) → holder i p.running ≡ some k → (k < n) × (entered (p.workers k).phase ≡ some i)

-- A world with the same or fewer entries in the channels.
abbrev IsWithin : World → World → Type 0
IsWithin w u = (length u.queue ≤ length w.queue) × (length u.cancel_ch ≤ length w.cancel_ch)

module _ (n k : ℕ) (p : Pool) (below : k < n) where
  -- The access of a goroutine that keeps what it has registered.
  step-IsCounted :
      (v : Worker) (w : World)
      → IsWithin p.world w
      → w.in_progress + gauged (p.workers k).phase ≡ p.world.in_progress + gauged v.phase
      → ((i : ℕ) → entered (p.workers k).phase ≡ some i → entered v.phase ≡ some i)
      → IsCounted n p
      → IsCounted n (record p { world = w; workers = place k v p.workers })
  step-IsCounted v w (a, b) g keeps c = record {
    queue_bounded = omega (arith, c.queue_bounded, a);
    cancel_bounded = omega (arith, c.cancel_bounded, b);
    gauge = omega (arith, c.gauge, g, total-place gauged n k v p.workers below);
    entries = kept;
  }
    where
      kept :
          (i j : ℕ)
          → holder i p.running ≡ some j
          → (j < n) × (entered (place k v p.workers j).phase ≡ some i)
      kept i j h = (
        (c.entries i j h).0,
        elim (Bool-cases (k == j)) [
          | inl e ↦
              let own =
                subst (λ x. entered (p.workers x).phase ≡ some i) (sym ((==_iff k j).0 e))
                  (c.entries i j h).1 in
              subst (λ x. entered x.phase ≡ some i) (sym (place_here k j v p.workers e))
                (keeps i own)
          | inr e ↦
              subst (λ x. entered x.phase ≡ some i) (sym (place_there k j v p.workers e))
                (c.entries i j h).1
        ],
      )

  -- The same of a move to a phase.
  pub move-IsCounted :
      (to : Phase) (w : World)
      → IsWithin p.world w
      → w.in_progress + gauged (p.workers k).phase ≡ p.world.in_progress + gauged to
      → ((i : ℕ) → entered (p.workers k).phase ≡ some i → entered to ≡ some i)
      → IsCounted n p
      → IsCounted n (move k to w p)
  move-IsCounted to = step-IsCounted (record (p.workers k) { phase = to })

holder_drop :
    (i j k : ℕ) (ops : List (ℕ × ℕ))
    → holder j (drop_entry i ops) ≡ some k
    → (holder j ops ≡ some k) × ((i == j) ≡ false)
unfolding holder drop_entry
holder_drop i j k [] h = ground arith
holder_drop i j k ((a, b) ∷ ops) h = ground (arith, holder_drop i j k ops)

-- The accesses that change the map: the registration of an operation and the deferred delete.
module _ (n k : ℕ) (p : Pool) (below : k < n) (op : Operation) where
  pub register-IsCounted :
      (p.workers k).phase ≡ checked op
      → IsCounted n p
      → IsCounted n (record p {
        workers = place k (record { phase = registered op; is_cancelled = false }) p.workers;
        running = (op.id, k) ∷ drop_entry op.id p.running;
      })
  unfolding holder
  register-IsCounted h c = record {
    queue_bounded = c.queue_bounded;
    cancel_bounded = c.cancel_bounded;
    gauge = omega (arith, c.gauge, ap gauged h, total-place gauged n k v p.workers below);
    entries = kept;
  }
    where
      v : Worker
      v = record { phase = registered op; is_cancelled = false }

      unchanged :
          (i j : ℕ)
          → holder i p.running ≡ some j
          → (j < n) × (entered (place k v p.workers j).phase ≡ some i)
      unchanged i j r = (
        (c.entries i j r).0,
        elim (Bool-cases (k == j)) [
          | inl e ↦ absurd (ground (arith, (c.entries i j r).1, h, (==_iff k j).0 e))
          | inr e ↦
              subst (λ x. entered x.phase ≡ some i) (sym (place_there k j v p.workers e))
                (c.entries i j r).1
        ],
      )

      kept :
          (i j : ℕ)
          → holder i ((op.id, k) ∷ drop_entry op.id p.running) ≡ some j
          → (j < n) × (entered (place k v p.workers j).phase ≡ some i)
      kept i j r = elim (Bool-cases (op.id == i)) [
        | inl e ↦
            let same : k ≡ j = ground arith in
            (
              ground arith,
              ap (λ (x : Worker). entered x.phase) (place_here k j v p.workers (ground arith))
                  ∙ ap some ((==_iff op.id i).0 e),
            )
        | inr e ↦ unchanged i j (holder_drop op.id i j p.running (ground arith)).0
      ]

  pub leave-IsCounted :
      (p.workers k).phase ≡ leaving op
      → IsCounted n p
      → IsCounted n (record (move k idle p.world p) { running = drop_entry op.id p.running })
  leave-IsCounted h c = record {
    queue_bounded = c.queue_bounded;
    cancel_bounded = c.cancel_bounded;
    gauge = omega (arith, c.gauge, ap gauged h, total-place gauged n k v p.workers below);
    entries = kept;
  }
    where
      v : Worker
      v = record (p.workers k) { phase = idle }

      kept :
          (i j : ℕ)
          → holder i (drop_entry op.id p.running) ≡ some j
          → (j < n) × (entered (place k v p.workers j).phase ≡ some i)
      kept i j r =
          let (q, other) = holder_drop op.id i j p.running r in
          (
            (c.entries i j q).0,
            elim (Bool-cases (k == j)) [
              | inl e ↦
                  let own =
                    subst (λ x. entered (p.workers x).phase ≡ some i) (sym ((==_iff k j).0 e))
                      (c.entries i j q).1 in
                  let named : op.id ≡ i = ground (arith, h) in
                  absurd (ground (arith, (==_iff op.id i).1 named))
              | inr e ↦
                  subst (λ x. entered x.phase ≡ some i) (sym (place_there k j v p.workers e))
                    (c.entries i j q).1
            ],
          )
