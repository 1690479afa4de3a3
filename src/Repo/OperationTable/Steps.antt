-- ===== src/Repo/OperationTable/Steps.antt =====
-- The rows after a write that goes through (Repo/OperationTable), for the proofs about its callers.
use mckmt.Base.{ℕ, ◌≡◌, true, false, some, ok, [], arith}
use mckmt.Repo.{Status, queued, is_final, Payload, Operation}
use mckmt.Repo.Store.{World, Env}
use mckmt.Repo.OperationTable.{
  allowed, update_status, update_result, set_started, set_finished, to_status, to_result,
  to_started, to_finished,
}
use mckmt.Repo.OperationTable.Rows.{row, update_row_done}
use mckmt.Repo.OperationTable.Lifecycle.{Keeps-id, started, with_status}

module _ (env : Env) (i : ℕ) (w : World) (r : Operation) where
  pub set_started_done :
      env.fails w.calls ≡ false
      → row i w ≡ some r
      → r.status ≡ queued
      → ((set_started env i w).0 ≡ ok tt)
        × (row i (set_started env i w).1 ≡ some (started (env.now w.calls) r))
  unfolding set_started
  set_started_done f h q =
      let now = env.now w.calls in
      ground (
        arith,
        update_row_done env i (to_started now) w r (started now r) (Keeps-id r queued [] "" now).3 f
            h,
      )

  pub update_status_done :
      (s : Status)
      → env.fails w.calls ≡ false
      → row i w ≡ some r
      → allowed s ≡ true
      → row i (update_status env i s w).1 ≡ some (with_status s (env.now w.calls) r)
  unfolding update_status
  update_status_done s f h a =
      let now = env.now w.calls in
      ground (
        arith,
        update_row_done env i (to_status s now) w r (with_status s now r) (Keeps-id r s [] "" now).1
            f h,
      )

  pub update_result_done :
      (p : Payload)
      → env.fails w.calls ≡ false
      → row i w ≡ some r
      → allowed r.status ≡ true
      → row i (update_result env i p w).1
        ≡ some (record r { result = some p; updated_at = env.now w.calls })
  unfolding update_result
  update_result_done p f h a =
      let now = env.now w.calls in
      ground (
        arith,
        update_row_done env i (to_result p now) w r (record r { result = some p; updated_at = now })
            (Keeps-id r queued p "" now).2 f h,
      )

  pub set_finished_done :
      env.fails w.calls ≡ false
      → row i w ≡ some r
      → is_final r.status ≡ true
      → row i (set_finished env i w).1
        ≡ some (record r { finished_at = some (env.now w.calls); updated_at = env.now w.calls })
  unfolding set_finished
  set_finished_done f h a =
      let now = env.now w.calls in
      ground (
        arith,
        update_row_done env i (to_finished now) w r
            (record r { finished_at = some now; updated_at = now }) (Keeps-id r queued [] "" now).4
            f h,
      )
