-- ===== src/Orchestrator/Workers/Draining.antt =====
-- How much the goroutines have before them (Orchestrator/Workers).
use mckmt.Base.{
  ℕ, ◌+◌, ◌*◌, ◌<◌, ◌≤◌, zero, suc, ◌≡◌, refl, ap, false, List, arith, Bool-cases, inl, inr, ◌==◌,
  ==_iff, length,
}
use mckmt.Repo.{Operation}
use mckmt.Repo.Store.{World}
use mckmt.Orchestrator.Workers.{
  Phase, idle, taken, checked, registered, opened, begun, worked, status_set, result_set, leaving,
  Worker, Pool, place, move,
}
use mckmt.Orchestrator.Workers.Schedules.{place_here, place_there}

-- How many accesses a goroutine has before it at most.
abbrev pub remaining : Phase → ℕ
remaining idle = 0
remaining (taken _) = 9
remaining (checked _) = 8
remaining (registered _) = 7
remaining (opened _) = 6
remaining (begun _) = 5
remaining (worked _ _ _) = 4
remaining (status_set _ _) = 3
remaining (result_set _) = 2
remaining (leaving _) = 1

-- The weights of the phases of `n` goroutines.
abbrev pub total : (Phase → ℕ) → ℕ → (ℕ → Worker) → ℕ
total weight zero ws = 0
total weight (suc n) ws = total weight n ws + weight (ws n).phase

-- The accesses and receives that `n` goroutines have before them.
abbrev pub work_left : ℕ → Pool → ℕ
work_left n p = length p.world.queue * 10 + length p.world.cancel_ch + total remaining n p.workers

module _ (weight : Phase → ℕ) where
  pub total_ext :
      (n : ℕ) (vs ws : ℕ → Worker)
      → ((j : ℕ) → weight (vs j).phase ≡ weight (ws j).phase)
      → total weight n vs ≡ total weight n ws
  total_ext zero vs ws h = refl
  total_ext (suc n) vs ws h = omega (arith, total_ext n vs ws h, h n)

  total-place_ne :
      (n k : ℕ) (v : Worker) (ws : ℕ → Worker)
      → n ≤ k
      → total weight n (place k v ws) ≡ total weight n ws
  total-place_ne zero k v ws h = refl
  total-place_ne (suc n) k v ws h =
      let c : (k == n) ≡ false = ground arith in
      let e = ap (λ (x : Worker). weight x.phase) (place_there k n v ws c) in
      omega (arith, total-place_ne n k v ws (omega (arith, h)), e)

  pub total-place :
      (n k : ℕ) (v : Worker) (ws : ℕ → Worker)
      → k < n
      → total weight n (place k v ws) + weight (ws k).phase ≡ total weight n ws + weight v.phase
  total-place zero k v ws h = absurd (omega (arith, h))
  total-place (suc n) k v ws h = elim (Bool-cases (k == n)) [
    | inl c ↦
        let e = ap (λ (x : Worker). weight x.phase) (place_here k n v ws c) in
        let f = ap (λ j. weight (ws j).phase) ((==_iff k n).0 c) in
        omega (arith, total-place_ne n k v ws (ground arith), e, f)
    | inr c ↦
        let e = ap (λ (x : Worker). weight x.phase) (place_there k n v ws c) in
        omega (arith, total-place n k v ws (ground arith), e)
  ]

-- A move to a phase with less before it, in a world with the same channels.
module _ (n k : ℕ) (p : Pool) (below : k < n) where
  pub place-work_left :
      (v : Worker) (w : World) (running : List (ℕ × ℕ))
      → w.queue ≡ p.world.queue
      → w.cancel_ch ≡ p.world.cancel_ch
      → remaining v.phase < remaining (p.workers k).phase
      → work_left n (record { world = w; workers = place k v p.workers; running = running })
        < work_left n p
  place-work_left v w running q c h =
      let e = ap (λ (x : List Operation). length x) q in
      let f = ap (λ (x : List ℕ). length x) c in
      omega (arith, e, f, h, total-place remaining n k v p.workers below)

  pub move-work_left :
      (to : Phase) (w : World)
      → w.queue ≡ p.world.queue
      → w.cancel_ch ≡ p.world.cancel_ch
      → remaining to < remaining (p.workers k).phase
      → work_left n (move k to w p) < work_left n p
  move-work_left to w = place-work_left (record (p.workers k) { phase = to }) w p.running
