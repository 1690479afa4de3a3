-- ===== src/Orchestrator/Workers/Endings.antt =====
-- How long the schedules of the goroutines are (Orchestrator/Workers).
use mckmt.Base.{
  ℕ, ◌+◌, ◌<◌, ◌≤◌, zero, suc, ◌≡◌, refl, subst, sym, ap, ◌∙◌, true, false, none, some, List, [],
  ◌∷◌, arith, Bool-cases, inl, inr, ◌⊎◌, ◌==◌, ==_iff, length,
}
use mckmt.Repo.{cancelled, Operation}
use mckmt.Repo.Store.{Env}
use mckmt.Repo.OperationTable.{update_status}
use mckmt.Repo.Interfaces.{table}
use mckmt.Orchestrator.Workers.{
  Phase, idle, taken, checked, registered, opened, begun, worked, status_set, result_set, leaving,
  Worker, Pool, holder, place, advance, cancel_run, receive_request, is_ready, is_idle,
}
use mckmt.Orchestrator.Workers.Schedules.{Step, work, request, place_here, place_there}
use mckmt.Orchestrator.Workers.Draining.{remaining, work_left, total_ext}
use mckmt.Orchestrator.Workers.Accesses.{act-work_left, statements-KeepsChannels}

flag-remaining :
    (k : ℕ) (ws : ℕ → Worker) (j : ℕ)
    → remaining (place k (record (ws k) { is_cancelled = true }) ws j).phase
      ≡ remaining (ws j).phase
flag-remaining k ws j = elim (Bool-cases (k == j)) [
  | inl c ↦
      ap (λ (x : Worker). remaining x.phase)
        (place_here k j (record (ws k) { is_cancelled = true }) ws c)
      ∙ ap (λ i. remaining (ws i).phase) ((==_iff k j).0 c)
  | inr c ↦
      ap (λ (x : Worker). remaining x.phase)
        (place_there k j (record (ws k) { is_cancelled = true }) ws c)
]

cancel_run-work_left :
    (env : Env) (n i : ℕ) (p : Pool) → work_left n (cancel_run (table env) i p) ≡ work_left n p
unfolding cancel_run
cancel_run-work_left env n i p =
    elim (holder i p.running)
      as (λ o.
        work_left n (elim o [
          | some k ↦ record p {
            workers = place k (record (p.workers k) { is_cancelled = true }) p.workers;
          }
          | none ↦ record p { world = (update_status env i cancelled p.world).1 }
        ])
        ≡ work_left n p) [
          | some k ↦
              let e =
                total_ext remaining n
                  (place k (record (p.workers k) { is_cancelled = true }) p.workers) p.workers
                  (flag-remaining k p.workers) in
              omega (arith, e)
          | none ↦
              let (q, c) = (statements-KeepsChannels env i cancelled [] p.world).1 in
              let f = ap (λ (x : List Operation). length x) q in
              let g = ap (λ (x : List ℕ). length x) c in omega (arith, f, g)
        ]

Step-work_left : {env : Env} {n : ℕ} {p q : Pool} → Step env n p q → work_left n q < work_left n p
unfolding advance receive_request
Step-work_left {env} {n} (work p k l r) = act-work_left env n k p l (p.workers k).phase refl r
Step-work_left {env} {n} (request p h c) =
    elim p.world.cancel_ch
        as (λ ids.
          p.world.cancel_ch ≡ ids
          → work_left n (elim ids [
            | [] ↦ p
            | i ∷ rest ↦
                cancel_run (table env) i (record p { world = record p.world { cancel_ch = rest } })
          ])
            < work_left n p) [
              | [] ↦ λ e. absurd (c e)
              | i ∷ rest ↦ λ e.
                  let f = ap (λ (x : List ℕ). length x) e in
                  let g =
                    cancel_run-work_left env n i
                      (record p { world = record p.world { cancel_ch = rest } }) in
                  omega (arith, f, g)
            ]
      refl

-- A schedule of `m` steps.
pub data Run (env : Env) (n : ℕ) : Pool → ℕ → Pool → Type 0 where
  stop : (p : Pool) → Run env n p 0 p
  go : {p q r : Pool} {m : ℕ} → Step env n p q → Run env n q m r → Run env n p (suc m) r

-- Both channels are empty, and every goroutine waits.
abbrev pub IsDrained : ℕ → Pool → Type 0
IsDrained n p =
    (p.world.queue ≡ [])
    × (p.world.cancel_ch ≡ [])
    × ((k : ℕ) → k < n → is_idle (p.workers k).phase ≡ true)

Run-work_left :
    {env : Env} {n : ℕ} {p q : Pool} {m : ℕ} → Run env n p m q → m + work_left n q ≤ work_left n p
Run-work_left (stop p) = omega arith
Run-work_left (go s r) = omega (arith, Step-work_left s, Run-work_left r)

all_idle :
    (n : ℕ) (ws : ℕ → Worker)
    → ((k : ℕ) → k < n → is_idle (ws k).phase ≡ true)
      ⊎ ((k : ℕ) × (k < n) × (is_idle (ws k).phase ≡ false))
all_idle zero ws = inl (λ k h. absurd (omega (arith, h)))
all_idle (suc n) ws = elim (all_idle n ws) [
  | inr (k, h, b) ↦ inr (k, omega (arith, h), b)
  | inl f ↦ elim (Bool-cases (is_idle (ws n).phase)) [
    | inr b ↦ inr (n, omega arith, b)
    | inl b ↦ inl (λ k h. elim (Bool-cases (k == n)) [
      | inl c ↦ subst (λ i. is_idle (ws i).phase ≡ true) (sym ((==_iff k n).0 c)) b
      | inr c ↦ f k (ground arith)
    ])
  ]
]

queue_or : {A : Type 0} (xs : List A) → (xs ≡ []) ⊎ ((x : A) × (rest : List A) × (xs ≡ x ∷ rest))
queue_or [] = inl refl
queue_or (x ∷ rest) = inr (x, rest, refl)

is_ready_queued :
    (phase : Phase) (op : Operation) (ops : List Operation) → is_ready phase (op ∷ ops) ≡ true
unfolding is_ready
is_ready_queued idle o ops = refl
is_ready_queued (taken op) o ops = refl
is_ready_queued (checked op) o ops = refl
is_ready_queued (registered op) o ops = refl
is_ready_queued (opened op) o ops = refl
is_ready_queued (begun op) o ops = refl
is_ready_queued (worked op r d) o ops = refl
is_ready_queued (status_set op r) o ops = refl
is_ready_queued (result_set op) o ops = refl
is_ready_queued (leaving op) o ops = refl

is_ready_busy :
    (phase : Phase) (ops : List Operation) → is_idle phase ≡ false → is_ready phase ops ≡ true
unfolding is_ready is_idle
is_ready_busy idle ops h = absurd (ground arith)
is_ready_busy (taken op) ops h = refl
is_ready_busy (checked op) ops h = refl
is_ready_busy (registered op) ops h = refl
is_ready_busy (opened op) ops h = refl
is_ready_busy (begun op) ops h = refl
is_ready_busy (worked op r d) ops h = refl
is_ready_busy (status_set op r) ops h = refl
is_ready_busy (result_set op) ops h = refl
is_ready_busy (leaving op) ops h = refl

progress : (env : Env) (n : ℕ) (p : Pool) → 0 < n → IsDrained n p ⊎ ((q : Pool) × Step env n p q)
progress env n p l = elim (all_idle n p.workers) [
  | inr (k, h, b) ↦
      inr (advance (table env) k p, work p k h (is_ready_busy (p.workers k).phase p.world.queue b))
  | inl f ↦ elim (queue_or p.world.queue) [
    | inr (op, rest, e) ↦
        inr
          (advance (table env) 0 p, work p 0 l (rw e (is_ready_queued (p.workers 0).phase op rest)))
    | inl e ↦ elim (queue_or p.world.cancel_ch) [
      | inl c ↦ inl (e, c, f)
      | inr (i, rest, c) ↦
          inr (receive_request (table env) p, request p (f 0 l) (λ d. ground arith))
    ]
  ]
]

drain :
    (env : Env) (n b : ℕ) (q : Pool)
    → 0 < n
    → work_left n q ≤ b
    → (l : ℕ) × (r : Pool) × Run env n q l r × IsDrained n r
drain env n zero q h e = elim (progress env n q h) [
  | inl d ↦ (0, q, stop q, d)
  | inr (r, s) ↦ absurd (omega (arith, Step-work_left s, e))
]
drain env n (suc b) q h e = elim (progress env n q h) [
  | inl d ↦ (0, q, stop q, d)
  | inr (r, s) ↦
      let (l, z, run, d) = drain env n b r h (omega (arith, Step-work_left s, e)) in
      (suc l, z, go s run, d)
]

-- There is at least one goroutine. A schedule of accesses and receives, with nothing put into a channel
-- meanwhile, is no longer than what the goroutines, the queue and the requests count at its start; and
-- from wherever it stands it can be brought, in finitely many steps, to where both channels are empty
-- and every goroutine waits. So no schedule goes on for ever, and none is stuck before that.
pub Run-ends :
    (env : Env) (n m : ℕ) (p q : Pool)
    → 0 < n
    → Run env n p m q
    → (m + work_left n q ≤ work_left n p) × ((l : ℕ) × (r : Pool) × Run env n q l r × IsDrained n r)
Run-ends env n m p q h run = (Run-work_left run, drain env n (work_left n q) q h (omega arith))
