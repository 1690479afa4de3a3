-- ===== src/Repo/OperationTable.antt =====
-- internal/repo/postgres/operation_repository.go, over the `operations` table of the schema.
-- The payloads of this program always marshal to JSON and back; the failing branches of
-- json.Marshal and json.Unmarshal are left out.
pub mod Rows
pub mod Lifecycle
pub mod Steps
use mckmt.Base.{
  ℕ, String, Bool, true, false, not, ◌||◌, Option, none, some, List, [], ◌∷◌, ◌++◌, Result, ok, err,
  no_rows, constraint_violated, scan_failed, failed, wrapped, ◌==◌, leb, if◌then◌else◌, take, drop,
}
use mckmt.Repo.{
  Status, queued, running, cancelled, text, flag, stamp, Payload, Operation, op_id, cluster_id,
}
use mckmt.Repo.Store.{World, Env, M, db, find, update}

-- CHECK (status IN ('queued', 'running', 'success', 'failed', 'cancelled'))
abbrev pub allowed : Status → Bool
allowed Status.pending = false
allowed (Status.other _) = false
allowed _ = true

abbrev is_some : {A : Type 0} → Option A → Bool
is_some none = false
is_some (some _) = true

-- COALESCE(result, '{}') || $2: the keys of the right object win.
unfoldable pub merge : Option Payload → Payload → Payload
merge none new = new
merge (some old) new = new ++ old

-- The SET and the further WHERE conditions of the UPDATE statements; `now` is the time of the call.
-- In Update the cluster and the type of the row stay.
abbrev pub set_fields : Operation → ℕ → Operation → Option Operation
set_fields op now row = some (record row {
  status = op.status;
  payload = op.payload;
  result = op.result;
  started_at = op.started_at;
  finished_at = op.finished_at;
  updated_at = now;
})

abbrev pub to_status : Status → ℕ → Operation → Option Operation
to_status s now row = some (record row { status = s; updated_at = now })

abbrev pub to_result : Payload → ℕ → Operation → Option Operation
to_result result now row = some (record row { result = some result; updated_at = now })

abbrev is_queued : Status → Bool
is_queued queued = true
is_queued _ = false

abbrev pub to_started : ℕ → Operation → Option Operation
to_started now row =
    if is_queued row.status
    then some (record row { status = running; started_at = some now; updated_at = now })
    else none

abbrev is_finishable : Status → Bool
is_finishable queued = false
is_finishable Status.pending = false
is_finishable (Status.other _) = false
is_finishable _ = true

abbrev pub to_finished : ℕ → Operation → Option Operation
to_finished now row =
    if is_finishable row.status
    then some (record row { finished_at = some now; updated_at = now })
    else none

abbrev is_cancellable : Status → Bool
is_cancellable queued = true
is_cancellable running = true
is_cancellable _ = false

abbrev pub cancel_note : String → ℕ → Payload
cancel_note reason now =
    ("cancelled", flag true) ∷ ("reason", text reason) ∷ ("cancelled_at", stamp now) ∷ []

abbrev pub to_cancelled : String → ℕ → Operation → Option Operation
to_cancelled reason now row =
    if is_cancellable row.status
    then some (record row {
      status = cancelled;
      result = some (merge row.result (cancel_note reason now));
      updated_at = now;
    })
    else none

-- The rows of a cluster, the latest first.
newest_first : Operation → List Operation → List Operation
newest_first op [] = op ∷ []
newest_first op (o ∷ os) =
    if leb o.created_at op.created_at then op ∷ o ∷ os else o ∷ newest_first op os

of_cluster : ℕ → List Operation → List Operation
unfolding newest_first
of_cluster c [] = []
of_cluster c (o ∷ os) =
    let rest = of_cluster c os in if o.cluster_id == c then newest_first o rest else rest

-- What the callers of Exec make of its result: with no look at RowsAffected, and with one.
abbrev pub ignore_count : String → Result ℕ × World → Result (Unit {0}) × World
ignore_count what (ok n, w) = (ok tt, w)
ignore_count what (err e, w) = (err (wrapped what e), w)

abbrev pub need_row : String → String → Result ℕ × World → Result (Unit {0}) × World
need_row what absent (ok n, w) = (if n == 0 then err (failed absent) else ok tt, w)
need_row what absent (err e, w) = (err (wrapped what e), w)

module _ (env : Env) where
  -- An UPDATE of the row with this id; it returns RowsAffected. The CHECK is that of the schema.
  unfoldable pub update_row : ℕ → (Operation → Option Operation) → M ℕ
  update_row i change = db env λ w. elim (find op_id i w.operations) [
    | none ↦ (ok 0, w)
    | some r ↦ elim (change r) [
      | none ↦ (ok 0, w)
      | some r' ↦
          if allowed r'.status
          then (ok 1, record w { operations = update op_id i change w.operations })
          else (err constraint_violated, w)
    ]
  ]

  -- The id is the primary key, and the cluster a foreign key. Columns that the INSERT does not name
  -- get NULL.
  unfoldable pub create : Operation → M (Unit {0})
  create op w =
      let now = env.now w.calls in
      let row : Operation = record op {
        result = none;
        started_at = none;
        finished_at = none;
        created_at = now;
        updated_at = now;
      } in
      db env
        (λ w'.
          if is_some (find op_id op.id w'.operations)
            || not (is_some (find cluster_id op.cluster_id w'.clusters))
            || not (allowed op.status)
          then (err (wrapped "failed to create operation" constraint_violated), w')
          else (ok tt, record w' { operations = row ∷ w'.operations }))
        w

  -- The Scan of one row: a NULL result is read into a Go string.
  unfoldable pub scan : Operation → Result Operation
  scan row = elim row.result [
    | some _ ↦ ok row
    | none ↦ if env.null_as_empty then ok row else err scan_failed
  ]

  unfoldable pub get_by_id : ℕ → M Operation
  unfolding scan
  get_by_id i = db env λ w. elim (find op_id i w.operations) [
    | none ↦ (err (wrapped "failed to get operation" no_rows), w)
    | some row ↦ elim (scan row) [
      | ok op ↦ (ok op, w)
      | err e ↦ (err (wrapped "failed to get operation" e), w)
    ]
  ]

  scan_all : List Operation → Result (List Operation)
  unfolding scan
  scan_all [] = ok []
  scan_all (row ∷ rows) =
      let rest = scan_all rows in
      elim (scan row) [
        | err e ↦ err (wrapped "failed to scan operation" e)
        | ok op ↦ elim rest [ err e ↦ err e | ok ops ↦ ok (op ∷ ops) ]
      ]

  unfoldable pub list_by_cluster : ℕ → ℕ → ℕ → M (List Operation)
  unfolding of_cluster scan_all
  list_by_cluster c limit offset =
      db env λ w. (scan_all (take limit (drop offset (of_cluster c w.operations))), w)

  unfoldable pub update_operation : Operation → M (Unit {0})
  update_operation op w =
      ignore_count "failed to update operation"
        (update_row op.id (set_fields op (env.now w.calls)) w)

  unfoldable pub update_status : ℕ → Status → M (Unit {0})
  update_status i s w =
      ignore_count "failed to update operation status"
        (update_row i (to_status s (env.now w.calls)) w)

  unfoldable pub update_result : ℕ → Payload → M (Unit {0})
  update_result i result w =
      ignore_count "failed to update operation result"
        (update_row i (to_result result (env.now w.calls)) w)

  unfoldable pub set_started : ℕ → M (Unit {0})
  set_started i w =
      need_row "failed to set operation as started" "operation not found or not in queued status"
        (update_row i (to_started (env.now w.calls)) w)

  unfoldable pub set_finished : ℕ → M (Unit {0})
  set_finished i w =
      need_row "failed to set operation as finished"
        "operation not found or not in a finishable status"
        (update_row i (to_finished (env.now w.calls)) w)

  unfoldable pub cancel_operation : ℕ → String → M (Unit {0})
  cancel_operation i reason w =
      need_row "failed to cancel operation" "operation not found or cannot be cancelled"
        (update_row i (to_cancelled reason (env.now w.calls)) w)
