-- ===== src/AgentServer/Results.antt =====
-- What the agents' reports and cancellations do to the operations (AgentServer/Handlers), over the
-- repository of the table.
use mckmt.Base.{
  ℕ, ◌+◌, String, ◌≡◌, refl, ap, ◌∙◌, Bool, true, false, some, [], ◌∷◌, arith, if◌then◌else◌,
}
use mckmt.Repo.{Status, success, cancelled, is_final, Payload, Operation, op_id, text, flag, stamp}
use mckmt.Repo.Store.{World, Env, tick}
use mckmt.Repo.Store.Laws.{key-find}
use mckmt.Repo.OperationTable
use mckmt.Repo.OperationTable.{allowed, scan}
use mckmt.Repo.OperationTable.Rows.{row, update_status-IsOneCall, get_by_id_found}
use mckmt.Repo.OperationTable.Lifecycle.{with_status, update_status_unguarded}
use mckmt.Repo.OperationTable.Steps.{update_status_done, update_result_done}
use mckmt.Repo.Interfaces.{table, ClusterRepository}
use mckmt.AgentServer.State.{Uuid, accept, refuse, failed_precondition}
use mckmt.AgentServer.Handlers.{report_result, cancel_operation}

abbrev pub with_result : Payload → ℕ → Operation → Operation
with_result p now r = record r { result = some p; updated_at = now }

abbrev pub reported : Bool → Status
reported b = if b then success else Status.failed

abbrev pub report_payload : Bool → String → ℕ → Payload
report_payload succeeded message completed =
    ("success", flag succeeded) ∷ ("message", text message) ∷ ("completed", stamp completed) ∷ []

abbrev pub cancel_payload : String → Payload
cancel_payload reason =
    ("status", text "cancelled")
    ∷ ("message", text "Operation cancelled via gRPC")
    ∷ ("reason", text reason)
    ∷ []

module _ (env : Env) (uuid : Uuid) (clusters : ClusterRepository)
    (healthy : (n : ℕ) → env.fails n ≡ false) (readable : env.null_as_empty ≡ true) (key : String)
    (i : ℕ) (w : World) (r : Operation) (parsed : uuid.parse key ≡ some i)
    (stored : row i w ≡ some r) where
  -- The two writes of both handlers, behind the read.
  written :
      (s : Status) (p : Payload)
      → allowed s ≡ true
      → row i
          (OperationTable.update_result env i p (OperationTable.update_status env i s (tick w)).1).1
        ≡ some (with_result p (env.now (w.calls + 1 + 1)) (with_status s (env.now (w.calls + 1)) r))
  written s p known =
      let w₂ = (OperationTable.update_status env i s (tick w)).1 in
      let r₂ = with_status s (env.now (w.calls + 1)) r in
      let h₂ : row i w₂ ≡ some r₂ =
        update_status_done env i (tick w) r s (healthy _) stored known in
      let h₃ = update_result_done env i w₂ r₂ p (healthy _) h₂ known in
      let cost : w₂.calls ≡ w.calls + 1 + 1 = (update_status-IsOneCall env i s (tick w)).0 in
      h₃ ∙ ap (λ n. some (with_result p (env.now n) r₂)) cost

  -- While no call fails and the driver reads a NULL result, a report for a stored operation is
  -- recorded whatever the status of its row is: the row gets the reported status and a result with
  -- the report, also if it had ended or been cancelled.
  pub report_result_overwrites :
      (succeeded : Bool) (message : String) (completed : ℕ)
      → let m = report_result env uuid clusters (table env) key succeeded message completed w in
        (m.0 ≡ accept "Result recorded")
        × (row i m.1
            ≡ some (
                with_result
                  (report_payload succeeded message completed)
                  (env.now (w.calls + 1 + 1))
                  (with_status (reported succeeded) (env.now (w.calls + 1)) r)))
  unfolding report_result
  report_result_overwrites succeeded message completed =
      let known : allowed (reported succeeded) ≡ true = ground arith in
      ground (
        arith,
        get_by_id_found env i w r (healthy _) readable stored,
        key-find op_id i w.operations r stored,
        written (reported succeeded) (report_payload succeeded message completed) known,
      )

  -- While no call fails and the driver reads a NULL result, CancelOperation of the agent server
  -- refuses a stored operation that has ended, and nothing changes.
  cancel_operation_refused :
      (reason : String)
      → is_final r.status ≡ true
      → cancel_operation env uuid clusters (table env) key reason w
        ≡ (refuse failed_precondition "Operation cannot be cancelled", tick w)
  unfolding cancel_operation
  cancel_operation_refused reason f =
      ground (arith, get_by_id_found env i w r (healthy _) readable stored)

  -- While no call fails and the driver reads a NULL result, CancelOperation of the agent server
  -- gives a stored operation that has not ended the status `cancelled` and a result with the
  -- reason.
  pub cancel_operation_done :
      (reason : String)
      → is_final r.status ≡ false
      → let m = cancel_operation env uuid clusters (table env) key reason w in
        (m.0 ≡ accept "Operation cancelled successfully")
        × (row i m.1
            ≡ some (
                with_result
                  (cancel_payload reason)
                  (env.now (w.calls + 1 + 1))
                  (with_status cancelled (env.now (w.calls + 1)) r)))
  unfolding cancel_operation
  cancel_operation_done reason f = ground (
    arith,
    get_by_id_found env i w r (healthy _) readable stored,
    key-find op_id i w.operations r stored,
    (update_status_unguarded env i (tick w) cancelled (healthy _) refl).0,
    written cancelled (cancel_payload reason) refl,
  )
