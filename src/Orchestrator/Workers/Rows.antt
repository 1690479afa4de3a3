-- ===== src/Orchestrator/Workers/Rows.antt =====
-- Which rows wait for a worker after a statement on the operations (Repo/OperationTable).
use mckmt.Base.{
  ℕ, ◌≡◌, subst, ◌≢◌, ◌⊎◌, inl, inr, Option, some, List, [], ◌∷◌, ok, arith, Bool-cases,
  Option-cases, ◌==◌,
}
use mckmt.Repo.{Status, queued, Payload, Operation, op_id}
use mckmt.Repo.Store.{World, Env, find, update}
use mckmt.Repo.Store.Laws.{Keeps}
use mckmt.Repo.OperationTable.{
  update_row, update_status, update_result, set_started, set_finished, to_started, to_status,
  to_result, to_finished, get_by_id,
}
use mckmt.Repo.OperationTable.Rows.{row, get_by_id_reads}
use mckmt.Repo.OperationTable.Lifecycle.{set_started_iff}

-- The row of an operation is there, and queued.
abbrev pub IsWaiting : ℕ → World → Type 0
IsWaiting i w = (r : Operation) × (row i w ≡ some r) × (r.status ≡ queued)

-- No change makes a row queued that was not.
abbrev IsForward : (Operation → Option Operation) → Type 0
IsForward change = (r r' : Operation) → change r ≡ some r' → r'.status ≡ queued → r.status ≡ queued

find_changed :
    (i j : ℕ) (change : Operation → Option Operation) (rs : List Operation) (r' : Operation)
    → Keeps op_id change
    → find op_id j (update op_id i change rs) ≡ some r'
    → (find op_id j rs ≡ some r')
      ⊎ ((r : Operation) × (find op_id j rs ≡ some r) × (change r ≡ some r'))
unfolding find update
find_changed i j change [] r' k h = ground arith
find_changed i j change (x ∷ rs) r' k h = elim (Option-cases (change x)) [
  | inl e ↦ ground (arith, find_changed i j change rs r' k)
  | inr (x', e) ↦ elim (Bool-cases (x.id == j)) [
    | inl f ↦ elim (Bool-cases (x.id == i)) [
      | inl g ↦ inr (x, ground arith, ground (arith, k x x' e))
      | inr g ↦ inl (ground arith)
    ]
    | inr f ↦ ground (arith, find_changed i j change rs r' k, k x x' e)
  ]
]

module _ (env : Env) (i j : ℕ) (w : World) where
  update_row_rows :
      (change : Operation → Option Operation)
      → ((update_row env i change w).1.operations ≡ w.operations)
        ⊎ ((update_row env i change w).1.operations ≡ update op_id i change w.operations)
  unfolding update_row
  update_row_rows change = ground arith

  update_row-IsWaiting :
      (change : Operation → Option Operation)
      → Keeps op_id change
      → IsForward change
      → IsWaiting j (update_row env i change w).1
      → IsWaiting j w
  update_row-IsWaiting change k f (r', h, q) = elim (update_row_rows change) [
    | inl e ↦ (r', rw (← e) h, q)
    | inr e ↦
        let h' : find op_id j (update op_id i change w.operations) ≡ some r' = rw (← e) h in
        elim (find_changed i j change w.operations r' k h') [
          | inl a ↦ (r', a, q)
          | inr (r, a, b) ↦ (r, a, f r r' b q)
        ]
  ]

  -- The same of a statement that looks at the count.
  statement-IsWaiting :
      (change : Operation → Option Operation) (u : World)
      → Keeps op_id change
      → IsForward change
      → u ≡ (update_row env i change w).1
      → IsWaiting j u
      → IsWaiting j w
  statement-IsWaiting change u k f e v = update_row-IsWaiting change k f (subst (IsWaiting j) e v)

  pub update_status-IsWaiting :
      (s : Status) → s ≢ queued → IsWaiting j (update_status env i s w).1 → IsWaiting j w
  unfolding update_status
  update_status-IsWaiting s n =
      statement-IsWaiting (to_status s (env.now w.calls)) (update_status env i s w).1
        (λ r r' e. ground arith) (λ r r' e q. absurd (n (ground arith))) (ground arith)

  pub update_result-IsWaiting :
      (p : Payload) → IsWaiting j (update_result env i p w).1 → IsWaiting j w
  unfolding update_result
  update_result-IsWaiting p =
      statement-IsWaiting (to_result p (env.now w.calls)) (update_result env i p w).1
        (λ r r' e. ground arith) (λ r r' e q. ground arith) (ground arith)

  pub set_finished-IsWaiting : IsWaiting j (set_finished env i w).1 → IsWaiting j w
  unfolding set_finished
  set_finished-IsWaiting =
      statement-IsWaiting (to_finished (env.now w.calls)) (set_finished env i w).1
        (λ r r' e. ground arith) (λ r r' e q. ground arith) (ground arith)

  pub set_started-IsWaiting : IsWaiting j (set_started env i w).1 → IsWaiting j w
  unfolding set_started
  set_started-IsWaiting =
      statement-IsWaiting (to_started (env.now w.calls)) (set_started env i w).1
        (λ r r' e. ground arith) (λ r r' e q. ground arith) (ground arith)

  pub get_by_id-IsWaiting : IsWaiting j (get_by_id env i w).1 → IsWaiting j w
  get_by_id-IsWaiting v = let (r, h, q) = v in (r, ground (arith, (get_by_id_reads env i w).0), q)

-- A SetStarted that succeeds found the row waiting, and it waits no more.
pub set_started-claims :
    (env : Env) (i : ℕ) (w : World)
    → (set_started env i w).0 ≡ ok tt
    → IsWaiting i w × (IsWaiting i (set_started env i w).1 → ⊥)
set_started-claims env i w h =
    let (r, f, e, q, e') = (set_started_iff env i w).0 h in ((r, e, q), λ (r', a, b). ground arith)
