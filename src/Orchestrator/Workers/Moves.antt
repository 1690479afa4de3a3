-- ===== src/Orchestrator/Workers/Moves.antt =====
-- Moves of one goroutine, and which operations are being run (Orchestrator/Workers).
use mckmt.Base.{
  ℕ, ◌≡◌, subst, sym, ◌∙◌, ◌≢◌, Bool, true, false, Option, none, some, List, arith, Bool-cases, inl,
  inr, ◌⊎◌, ◌==◌, ==_iff,
}
use mckmt.Repo.{queued}
use mckmt.Repo.Store.{World, Env}
use mckmt.Orchestrator.{Context, final_status}
use mckmt.Orchestrator.Workers.{
  Phase, begun, worked, status_set, result_set, Worker, Pool, place, move,
}
use mckmt.Orchestrator.Workers.Rows.{IsWaiting}
use mckmt.Orchestrator.Workers.Schedules.{place_here, place_there}

-- The operation that a goroutine has started and not finished.
abbrev pub active : Phase → Option ℕ
active (begun op) = some op.id
active (worked op _ _) = some op.id
active (status_set op _) = some op.id
active (result_set op) = some op.id
active _ = none

-- An operation that is being run does not wait, and is run by one goroutine.
pub record IsExclusive (p : Pool) : Type 0 where
  pub started : (k i : ℕ) → active (p.workers k).phase ≡ some i → IsWaiting i p.world → ⊥
  pub one :
      (j k i : ℕ)
      → active (p.workers j).phase ≡ some i
      → active (p.workers k).phase ≡ some i
      → j ≡ k

-- A goroutine that moves to a phase with no other operation, while no row starts to wait.
pub quiet_move :
    (k : ℕ) (v : Worker) (w : World) (p : Pool) (running : List (ℕ × ℕ))
    → ((i : ℕ) → active v.phase ≡ some i → active (p.workers k).phase ≡ some i)
    → ((i : ℕ) → IsWaiting i w → IsWaiting i p.world)
    → IsExclusive p
    → IsExclusive (record { world = w; workers = place k v p.workers; running = running })
quiet_move k v w p running same keeps e = record { started = begun_rows; one = single }
  where
    before :
        (j i : ℕ)
        → active (place k v p.workers j).phase ≡ some i
        → active (p.workers j).phase ≡ some i
    before j i h = elim (Bool-cases (k == j)) [
      | inl c ↦
          let now = subst (λ x. active x.phase ≡ some i) (place_here k j v p.workers c) h in
          subst (λ x. active (p.workers x).phase ≡ some i) ((==_iff k j).0 c) (same i now)
      | inr c ↦ subst (λ x. active x.phase ≡ some i) (place_there k j v p.workers c) h
    ]

    begun_rows : (j i : ℕ) → active (place k v p.workers j).phase ≡ some i → IsWaiting i w → ⊥
    begun_rows j i h x = e.started j i (before j i h) (keeps i x)

    single :
        (j l i : ℕ)
        → active (place k v p.workers j).phase ≡ some i
        → active (place k v p.workers l).phase ≡ some i
        → j ≡ l
    single j l i a b = e.one j l i (before j i a) (before l i b)

-- A goroutine whose SetStarted succeeded.
pub claim_move :
    (k i : ℕ) (v : Worker) (w : World) (p : Pool)
    → active v.phase ≡ some i
    → IsWaiting i p.world
    → (IsWaiting i w → ⊥)
    → ((j : ℕ) → IsWaiting j w → IsWaiting j p.world)
    → IsExclusive p
    → IsExclusive (record p { world = w; workers = place k v p.workers })
claim_move k i v w p a waits gone keeps e = record { started = begun_rows; one = single }
  where
    -- Who runs this operation is this goroutine.
    self : (j : ℕ) → active (place k v p.workers j).phase ≡ some i → k ≡ j
    self j h = elim (Bool-cases (k == j)) [
      | inl c ↦ (==_iff k j).0 c
      | inr c ↦ absurd (
          e.started j i (subst (λ x. active x.phase ≡ some i) (place_there k j v p.workers c) h)
            waits)
    ]

    which :
        (j m : ℕ)
        → active (place k v p.workers j).phase ≡ some m
        → (i ≡ m) ⊎ (active (p.workers j).phase ≡ some m)
    which j m h = elim (Bool-cases (k == j)) [
      | inl c ↦
          let now = subst (λ x. active x.phase ≡ some m) (place_here k j v p.workers c) h in
          inl (ground arith)
      | inr c ↦ inr (subst (λ x. active x.phase ≡ some m) (place_there k j v p.workers c) h)
    ]

    begun_rows : (j m : ℕ) → active (place k v p.workers j).phase ≡ some m → IsWaiting m w → ⊥
    begun_rows j m h x = elim (which j m h) [
      | inl c ↦ gone (subst (λ y. IsWaiting y w) (sym c) x)
      | inr c ↦ e.started j m c (keeps m x)
    ]

    single :
        (j l m : ℕ)
        → active (place k v p.workers j).phase ≡ some m
        → active (place k v p.workers l).phase ≡ some m
        → j ≡ l
    single j l m b c = elim (which j m b) [
      | inl f ↦
          let b' = subst (λ y. active (place k v p.workers j).phase ≡ some y) (sym f) b in
          let c' = subst (λ y. active (place k v p.workers l).phase ≡ some y) (sym f) c in
          sym (self j b') ∙ self l c'
      | inr f ↦ elim (which l m c) [
        | inl g ↦
            let b' = subst (λ y. active (place k v p.workers j).phase ≡ some y) (sym g) b in
            let c' = subst (λ y. active (place k v p.workers l).phase ≡ some y) (sym g) c in
            sym (self j b') ∙ self l c'
        | inr g ↦ e.one j l m f g
      ]
    ]

pub final-forward : (ctx : Context) (done : Bool) → final_status ctx done ≢ queued
unfolding final_status
final-forward ctx true h = ground arith
final-forward ctx false h = ground arith

module _ (env : Env) (k : ℕ) (p : Pool) (phase : Phase) (w : World) where
  pub same_active :
      ((i : ℕ) → active phase ≡ some i → active (p.workers k).phase ≡ some i)
      → ((i : ℕ) → IsWaiting i w → IsWaiting i p.world)
      → IsExclusive p
      → IsExclusive (move k phase w p)
  same_active = quiet_move k (record (p.workers k) { phase = phase }) w p p.running

  -- A goroutine that moves to a phase in which it runs nothing.
  pub moved :
      active phase ≡ none
      → ((i : ℕ) → IsWaiting i w → IsWaiting i p.world)
      → IsExclusive p
      → IsExclusive (move k phase w p)
  moved h = same_active (λ i a. ground arith)

pub world_move :
    (w : World) (p : Pool)
    → ((i : ℕ) → IsWaiting i w → IsWaiting i p.world)
    → IsExclusive p
    → IsExclusive (record p { world = w })
world_move w p keeps e = record { started = λ k i a x. e.started k i a (keeps i x); one = e.one }
