-- ===== src/Repo/OperationTable/Lifecycle.antt =====
-- The guards of the status updates (Repo/OperationTable).
use mathlib.Core.Option
use mckmt.Base.{
  ℕ, String, ◌≡◌, sym, ◌∙◌, ◌≢◌, ◌⊎◌, inl, inr, true, false, some, Result, ok, err, [], ◌↔◌, arith,
  Option-cases,
}
use mckmt.Repo.{Status, queued, running, cancelled, is_final, Payload, Operation, op_id}
use mckmt.Repo.Store.{World, Env, tick}
use mckmt.Repo.Store.Laws.{Keeps, find-update_self}
use mckmt.Repo.OperationTable.{
  allowed, update_row, create, update_operation, update_status, update_result, set_started,
  set_finished, cancel_operation, set_fields, to_status, to_result, to_started, to_finished,
  to_cancelled, merge, cancel_note,
}
use mckmt.Repo.OperationTable.Rows.{row, update_row_ne}

-- None of the statements changes the primary key.
pub Keeps-id :
    (op : Operation) (s : Status) (p : Payload) (reason : String) (now : ℕ)
    → Keeps op_id (set_fields op now)
      × Keeps op_id (to_status s now)
      × Keeps op_id (to_result p now)
      × Keeps op_id (to_started now)
      × Keeps op_id (to_finished now)
      × Keeps op_id (to_cancelled reason now)
Keeps-id op s p reason now = (
  λ r r' h. ground arith,
  λ r r' h. ground arith,
  λ r r' h. ground arith,
  λ r r' h. ground arith,
  λ r r' h. ground arith,
  λ r r' h. ground arith,
)

module _ (env : Env) (i j : ℕ) (w : World) where
  -- Each UPDATE by id leaves every other row as it was, whatever happens to the call.
  pub writes_keep_other_rows :
      i ≢ j
      → (s : Status) (p : Payload) (reason : String) (op : Operation) → op.id ≡ i
      → (row j (update_status env i s w).1 ≡ row j w)
        × (row j (update_result env i p w).1 ≡ row j w)
        × (row j (set_started env i w).1 ≡ row j w)
        × (row j (set_finished env i w).1 ≡ row j w)
        × (row j (cancel_operation env i reason w).1 ≡ row j w)
        × (row j (update_operation env op w).1 ≡ row j w)
  unfolding update_status update_result set_started set_finished cancel_operation update_operation
  writes_keep_other_rows n s p reason op e =
      let k = Keeps-id op s p reason (env.now w.calls) in
      (
        ground (arith, update_row_ne env i (to_status s (env.now w.calls)) w j k.1 n),
        ground (arith, update_row_ne env i (to_result p (env.now w.calls)) w j k.2 n),
        ground (arith, update_row_ne env i (to_started (env.now w.calls)) w j k.3 n),
        ground (arith, update_row_ne env i (to_finished (env.now w.calls)) w j k.4 n),
        ground (arith, update_row_ne env i (to_cancelled reason (env.now w.calls)) w j k.5 n),
        ground (
          arith,
          update_row_ne env op.id (set_fields op (env.now w.calls)) w j k.0 (λ h. n (sym e ∙ h)),
        ),
      )

abbrev pub with_status : Status → ℕ → Operation → Operation
with_status s now r = record r { status = s; updated_at = now }

abbrev pub started : ℕ → Operation → Operation
started now r = record r { status = running; started_at = some now; updated_at = now }

-- An operation starts exactly from `queued`: SetStarted succeeds if and only if the call goes
-- through and the row is there with that status; the row is then running, with the time of the
-- call, and is otherwise as it was.
pub set_started_iff :
    (env : Env) (i : ℕ) (w : World)
    → ((set_started env i w).0 ≡ ok tt) ↔ (
        (r : Operation) × (env.fails w.calls ≡ false)
        × (row i w ≡ some r)
        × (r.status ≡ queued)
        × (row i (set_started env i w).1 ≡ some (started (env.now w.calls) r)))
unfolding set_started update_row
set_started_iff env i w = (
  λ h. elim (Option-cases (row i w)) [
    | inl e ↦ absurd (ground arith)
    | inr (r, e) ↦ (
      r,
      ground arith,
      e,
      ground arith,
      ground (
        arith,
        find-update_self op_id i (to_started (env.now w.calls)) w.operations r
            (started (env.now w.calls) r) (Keeps-id r queued [] "" (env.now w.calls)).3 e,
      ),
    )
  ],
  λ (r, f, e, q, _). ground arith,
)

abbrev pub cancelled_row : String → ℕ → Operation → Operation
cancelled_row reason now r = record r {
  status = cancelled;
  result = some (merge r.result (cancel_note reason now));
  updated_at = now;
}

-- CancelOperation of the repository succeeds if and only if the call goes through and the row is
-- queued or running; the row is then cancelled, with the reason merged over its earlier result and the
-- time of the call, and is otherwise as it was.
pub cancel_operation_iff :
    (env : Env) (i : ℕ) (reason : String) (w : World)
    → ((cancel_operation env i reason w).0 ≡ ok tt) ↔ (
        (r : Operation) × (env.fails w.calls ≡ false)
        × (row i w ≡ some r)
        × ((r.status ≡ queued) ⊎ (r.status ≡ running))
        × (row i (cancel_operation env i reason w).1
            ≡ some (cancelled_row reason (env.now w.calls) r)))
unfolding cancel_operation update_row
cancel_operation_iff env i reason w = (
  λ h. elim (Option-cases (row i w)) [
    | inl e ↦ absurd (ground arith)
    | inr (r, e) ↦ (
      r,
      ground arith,
      e,
      ground arith,
      ground (
        arith,
        find-update_self op_id i (to_cancelled reason (env.now w.calls)) w.operations r
            (cancelled_row reason (env.now w.calls) r)
            (Keeps-id r queued [] reason (env.now w.calls)).5 e,
      ),
    )
  ],
  λ (r, f, e, q, _). ground arith,
)

-- What a failed statement has done to the world: it was a call, and no more.
abbrev pub IsHarmless : World → Result (Unit {0}) × World → Type 0
IsHarmless w (err _, w') = w' ≡ tick w
IsHarmless w (ok _, w') = Unit {0}

module _ (env : Env) (i : ℕ) (w : World) where
  -- A statement that writes and reports an error has changed nothing: not one row, nor a cache
  -- entry; it has only made one call.
  pub errors_change_nothing :
      (s : Status) (p : Payload) (reason : String) (op : Operation)
      → IsHarmless w (create env op w)
        × IsHarmless w (update_operation env op w)
        × IsHarmless w (update_status env i s w)
        × IsHarmless w (update_result env i p w)
        × IsHarmless w (set_started env i w)
        × IsHarmless w (set_finished env i w)
        × IsHarmless w (cancel_operation env i reason w)
  unfolding create update_operation update_status update_result set_started set_finished
      cancel_operation update_row
  errors_change_nothing s p reason op = (
    ground arith,
    ground arith,
    ground arith,
    ground arith,
    ground arith,
    ground arith,
    ground arith,
  )

  -- A row with a final status is neither started nor cancelled: both statements report an error
  -- and change no row.
  pub final_rows_stay :
      (r : Operation) (reason : String)
      → row i w ≡ some r
      → is_final r.status ≡ true
      → ((set_started env i w).1 ≡ tick w)
        × ((set_started env i w).0 ≢ ok tt)
        × ((cancel_operation env i reason w).1 ≡ tick w)
        × ((cancel_operation env i reason w).0 ≢ ok tt)
  unfolding set_started cancel_operation update_row
  final_rows_stay r reason h f = (ground arith, ground arith, ground arith, ground arith)

  -- UpdateStatus has no such guard: wherever the call goes through and the schema knows the new
  -- status, the row gets it, a final status being overwritten like any other; and for an id without
  -- a row it reports success.
  pub update_status_unguarded :
      (s : Status)
      → env.fails w.calls ≡ false
      → allowed s ≡ true
      → ((update_status env i s w).0 ≡ ok tt)
        × (row i (update_status env i s w).1
            ≡ Option.map (with_status s (env.now w.calls)) (row i w))
  unfolding update_status update_row
  update_status_unguarded s f a = elim (Option-cases (row i w)) [
    | inl e ↦ (ground arith, ground arith)
    | inr (r, e) ↦ (
      ground arith,
      ground (
        arith,
        find-update_self op_id i (to_status s (env.now w.calls)) w.operations r
            (with_status s (env.now w.calls) r) (Keeps-id r s [] "" (env.now w.calls)).1 e,
      ),
    )
  ]
