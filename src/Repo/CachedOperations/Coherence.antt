-- ===== src/Repo/CachedOperations/Coherence.antt =====
-- When the cached operations agree with the rows (Repo/CachedOperations).
use mckmt.Base.{
  ℕ, ◌+◌, String, ◌≡◌, ◌≢◌, false, Option, none, some, Result, ok, err, arith, ◌==◌, Option-cases,
  Bool-cases, inl, inr,
}
use mckmt.Repo.{Status, Payload, Operation, op_id}
use mckmt.Repo.Store.{Entry, World, Env}
use mckmt.Repo.Store.Laws.{key-find}
use mckmt.Repo.OperationTable
use mckmt.Repo.OperationTable.{update_row, scan}
use mckmt.Repo.OperationTable.Rows.{row, IsOneCall, writes-IsOneCall}
use mckmt.Repo.OperationTable.Lifecycle.{writes_keep_other_rows, IsHarmless, errors_change_nothing}
use mckmt.Repo.CachedOperations.{
  invalidating, get_by_id, update_operation, update_status, update_result, set_started,
  set_finished, cancel_operation,
}

-- The cached value has every column of the row but the two times that the database sets.
abbrev pub Same : Operation → Operation → Type 0
Same v r =
    (v.id ≡ r.id)
    × (v.cluster_id ≡ r.cluster_id)
    × (v.op_type ≡ r.op_type)
    × (v.status ≡ r.status)
    × (v.payload ≡ r.payload)
    × (v.result ≡ r.result)
    × (v.started_at ≡ r.started_at)
    × (v.finished_at ≡ r.finished_at)

abbrev pub Covers : Option (Entry Operation) → Option Operation → Type 0
Covers none r = Unit {0}
Covers (some e) none = ⊥
Covers (some e) (some r) = Same e.value r

abbrev pub IsCoherent : ℕ → World → Type 0
IsCoherent i w = Covers (w.op_cache i) (row i w)

module _ (env : Env) (i j : ℕ) where
  invalidating-IsCoherent :
      (m : Result (Unit {0}) × World) (w : World)
      → m.1.op_cache ≡ w.op_cache
      → (i ≢ j → row j m.1 ≡ row j w)
      → IsHarmless w m
      → env.fails m.1.calls ≡ false
      → IsCoherent j w
      → IsCoherent j (invalidating env i m).1
  unfolding invalidating
  invalidating-IsCoherent (err e, w') w c n u f h = rw u h
  invalidating-IsCoherent (ok t, w') w c n u f h = elim (Bool-cases (i == j)) [
    | inl e ↦ ground arith
    | inr e ↦ rw (f, e) (rw (c, n (ground arith)) h)
  ]

module _ (env : Env) (i j : ℕ) (w : World) where
  write-IsCoherent :
      (m : Result (Unit {0}) × World)
      → IsOneCall w m
      → (i ≢ j → row j m.1 ≡ row j w)
      → IsHarmless w m
      → env.fails (w.calls + 1) ≡ false
      → IsCoherent j w
      → IsCoherent j (invalidating env i m).1
  write-IsCoherent m c n u f h = invalidating-IsCoherent env i j m w c.1 n u (rw (c.0) f) h

  -- Each write keeps the cache in agreement with the rows, whatever the database answers, as long
  -- as the invalidation that follows it (the second call) does not fail.
  pub writes-IsCoherent :
      (s : Status) (p : Payload) (reason : String) (op : Operation)
      → op.id ≡ i
      → env.fails (w.calls + 1) ≡ false
      → IsCoherent j w
      → IsCoherent j (update_operation env op w).1
        × IsCoherent j (update_status env i s w).1
        × IsCoherent j (update_result env i p w).1
        × IsCoherent j (set_started env i w).1
        × IsCoherent j (set_finished env i w).1
        × IsCoherent j (cancel_operation env i reason w).1
  unfolding update_operation update_status update_result set_started set_finished cancel_operation
  writes-IsCoherent s p reason op e f h =
      let c = writes-IsOneCall env i s p reason op w in
      let n = λ (d : i ≢ j). writes_keep_other_rows env i j w d s p reason op e in
      let u = errors_change_nothing env i w s p reason op in
      (
        simp e (
            write-IsCoherent (OperationTable.update_operation env op w) c.1 (λ d. (n d).5) u.1 f h),
        write-IsCoherent (OperationTable.update_status env i s w) c.2 (λ d. (n d).0) u.2 f h,
        write-IsCoherent (OperationTable.update_result env i p w) c.3 (λ d. (n d).1) u.3 f h,
        write-IsCoherent (OperationTable.set_started env i w) c.4 (λ d. (n d).2) u.4 f h,
        write-IsCoherent (OperationTable.set_finished env i w) c.5 (λ d. (n d).3) u.5 f h,
        write-IsCoherent (OperationTable.cancel_operation env i reason w) c.6 (λ d. (n d).4) u.6 f
            h,
      )

  -- A read through the cache keeps the cache in agreement with the rows, in every outcome, failures
  -- of the cache and of the database included.
  pub get_by_id-IsCoherent : IsCoherent j w → IsCoherent j (get_by_id env i w).1
  unfolding get_by_id OperationTable.get_by_id scan
  get_by_id-IsCoherent h = elim (Option-cases (row i w)) [
    | inl e ↦ ground arith
    | inr (r, e) ↦ ground (arith, key-find op_id i w.operations r e)
  ]
