-- ===== src/Repo/OperationTable/Rows.antt =====
-- What one UPDATE statement does to the rows (Repo/OperationTable).
use mckmt.Base.{
  ℕ, ◌+◌, String, ◌≡◌, ◌≢◌, true, false, Option, none, some, Result, ok, err, Error, arith,
}
use mckmt.Repo.{Status, Payload, Operation, op_id}
use mckmt.Repo.Store.{World, Env, tick, find}
use mckmt.Repo.Store.Laws.{Keeps, find-update_self, find-update_ne}
use mckmt.Repo.OperationTable.{
  allowed, update_row, create, update_operation, update_status, update_result, set_started,
  set_finished, cancel_operation, get_by_id, scan,
}

abbrev pub row : ℕ → World → Option Operation
row i w = find op_id i w.operations

module _ (env : Env) (i : ℕ) (change : Operation → Option Operation) (w : World) where
  pub update_row_error :
      (e : Error) → (update_row env i change w).0 ≡ err e → (update_row env i change w).1 ≡ tick w
  unfolding update_row
  update_row_error e h = ground arith

  pub update_row_clusters :
      let w' = (update_row env i change w).1 in
      (w'.clusters ≡ w.clusters) × (w'.op_cache ≡ w.op_cache) × (w'.cluster_cache ≡ w.cluster_cache)
  unfolding update_row
  update_row_clusters = ground arith

  pub update_row_ne :
      (j : ℕ) → Keeps op_id change → i ≢ j → row j (update_row env i change w).1 ≡ row j w
  unfolding update_row
  update_row_ne j k n = ground (arith, find-update_ne op_id i j change w.operations k n)

  pub update_row_absent :
      env.fails w.calls ≡ false → row i w ≡ none → update_row env i change w ≡ (ok 0, tick w)
  unfolding update_row
  update_row_absent f h = ground arith

  pub update_row_refused :
      (r : Operation)
      → env.fails w.calls ≡ false
      → row i w ≡ some r
      → change r ≡ none
      → update_row env i change w ≡ (ok 0, tick w)
  unfolding update_row
  update_row_refused r f h c = ground arith

  pub update_row_done :
      (r r' : Operation)
      → Keeps op_id change
      → env.fails w.calls ≡ false
      → row i w ≡ some r
      → change r ≡ some r'
      → allowed r'.status ≡ true
      → ((update_row env i change w).0 ≡ ok 1) × (row i (update_row env i change w).1 ≡ some r')
  unfolding update_row
  update_row_done r r' k f h c a =
      ground (arith, find-update_self op_id i change w.operations r r' k h c)

-- A statement is one call, and touches neither cache nor the other table.
abbrev pub IsOneCall : {A : Type 0} → World → Result A × World → Type 0
IsOneCall w m =
    (m.1.calls ≡ w.calls + 1)
    × (m.1.op_cache ≡ w.op_cache)
    × (m.1.clusters ≡ w.clusters)
    × (m.1.cluster_cache ≡ w.cluster_cache)
    × (m.1.queue ≡ w.queue)
    × (m.1.cancel_ch ≡ w.cancel_ch)
    × (m.1.running_ops ≡ w.running_ops)
    × (m.1.in_progress ≡ w.in_progress)

pub writes-IsOneCall :
    (env : Env) (i : ℕ) (s : Status) (p : Payload) (reason : String) (op : Operation) (w : World)
    → IsOneCall w (create env op w)
      × IsOneCall w (update_operation env op w)
      × IsOneCall w (update_status env i s w)
      × IsOneCall w (update_result env i p w)
      × IsOneCall w (set_started env i w)
      × IsOneCall w (set_finished env i w)
      × IsOneCall w (cancel_operation env i reason w)
unfolding create update_operation update_status update_result set_started set_finished
    cancel_operation update_row
writes-IsOneCall env i s p reason op w = (
  ground arith,
  ground arith,
  ground arith,
  ground arith,
  ground arith,
  ground arith,
  ground arith,
)

-- A read is one call, and a row that it returns is the one in the table.
pub get_by_id_reads :
    (env : Env) (i : ℕ) (w : World)
    → ((get_by_id env i w).1 ≡ tick w)
      × ((op : Operation) → (get_by_id env i w).0 ≡ ok op → row i w ≡ some op)
unfolding get_by_id scan
get_by_id_reads env i w = (ground arith, λ op h. ground arith)

pub update_status-IsOneCall :
    (env : Env) (i : ℕ) (s : Status) (w : World) → IsOneCall w (update_status env i s w)
unfolding update_status update_row
update_status-IsOneCall env i s w = ground arith

-- A read that goes through.
pub get_by_id_found :
    (env : Env) (i : ℕ) (w : World) (r : Operation)
    → env.fails w.calls ≡ false
    → env.null_as_empty ≡ true
    → row i w ≡ some r
    → get_by_id env i w ≡ (ok r, tick w)
unfolding get_by_id scan
get_by_id_found env i w r f d h = ground arith
