-- ===== src/Agent/Reports.antt =====
-- What an agent's work on an operation does to its row at the hub (Agent, AgentServer/Handlers).
use mckmt.Base.{
  ℕ, ◌+◌, String, ◌≡◌, refl, ap, ◌∙◌, Bool, true, false, some, List, [], ◌∷◌, Result, ok, err,
  failed, if◌then◌else◌, arith,
}
use mckmt.Repo.{Status, Operation}
use mckmt.Repo.Store.{World, Env}
use mckmt.Repo.OperationTable.Rows.{row}
use mckmt.Repo.OperationTable.Lifecycle.{with_status}
use mckmt.Repo.Interfaces.{table, OperationRepository, ClusterRepository}
use mckmt.AgentServer.State.{Uuid, Server, ok_code, Reply}
use mckmt.AgentServer.Handlers
use mckmt.AgentServer.Streams.{Proto}
use mckmt.AgentServer.Results.{with_result, report_payload, report_result_overwrites}
use mckmt.Agent.{
  Hub, Agent, perform, forget, is_running, begin_operation, end_operation, process_operation,
  report_result,
}

-- The client of gRPC sees a handler's error in place of its answer.
abbrev answer : {A : Type 0} → Reply → A → Result A
answer reply a = elim reply.code [ ok_code ↦ ok a | _ ↦ err (failed reply.message) ]

-- The server as the agent's hub, over a connection that works; `new_id` is what uuid.New returns.
abbrev pub server_hub :
    Env → Uuid → ClusterRepository → OperationRepository → ℕ → Hub (Server × World)
server_hub env uuid clusters operations new_id = record {
  register = λ name version fingerprint info (s, w).
      let (r, s₁, w₁) =
        Handlers.register env uuid clusters operations new_id name version (some info) s w in
      (answer r.reply r, (s₁, w₁));
  heartbeat = λ key token status (s, w).
      let (r, s₁, w₁) = Handlers.heartbeat env uuid clusters operations key s w in
      (answer r r, (s₁, w₁));
  report_result = λ i key success message completed (s, w).
      let (r, w₁) =
        Handlers.report_result env uuid clusters operations i success message completed w in
      (answer r r, (s, w₁));
}

-- The message of the report.
abbrev pub report_message : Bool → Proto → String
report_message was_cancelled op =
    if was_cancelled then "Operation was cancelled" else (perform op.task_type).1

is_running-forget : (i : String) (ops : List (String × Bool)) → is_running i (forget i ops) ≡ false
unfolding is_running forget
is_running-forget i [] = refl
is_running-forget i ((j, c) ∷ ops) = ground (arith, is_running-forget i ops)

perform_fails : (t : String) → (perform t).0 ≡ false
unfolding perform
perform_fails t = ground arith

module _ (env : Env) (uuid : Uuid) (clusters : ClusterRepository) (operations : OperationRepository)
    (new_id : ℕ) where
  abbrev hub : Hub (Server × World)
  hub = server_hub env uuid clusters operations new_id

  -- The hub's state behind a report, whether or not it is taken.
  report_result-hub :
      (i : String) (success : Bool) (message : String) (now : ℕ) (a : Agent) (s : Server)
      (w : World)
      → (report_result hub i success message now a (s, w)).1
        ≡ (s, (Handlers.report_result env uuid clusters operations i success message now w).1)
  unfolding report_result
  report_result-hub i success message now a s w = ground arith

  process_operation-hub :
      (was_cancelled : Bool) (op : Proto) (now : ℕ) (a : Agent) (s : Server) (w : World)
      → (process_operation hub was_cancelled (some op) now a (s, w)).1 ≡ (
        s,
        (Handlers.report_result env uuid clusters operations op.id false
            (report_message was_cancelled op)
            now
            w).1,
      )
  unfolding process_operation begin_operation end_operation
  process_operation-hub true op now a s w =
      report_result-hub op.id false "Operation was cancelled" now (begin_operation op a) s w
  process_operation-hub false op now a s w =
      report_result-hub op.id (perform op.task_type).0 (perform op.task_type).1 now
        (begin_operation op a) s w
      ∙ ap
          (λ b. (
            s,
            (Handlers.report_result env uuid clusters operations op.id b (perform op.task_type).1
                now w).1,
          ))
          (perform_fails op.task_type)

  process_operation-forgets :
      (was_cancelled : Bool) (op : Proto) (now : ℕ) (a : Agent) (s : Server) (w : World)
      → is_running op.id (process_operation hub was_cancelled (some op) now a (s, w)).0.cancel_ops
        ≡ false
  unfolding process_operation begin_operation end_operation
  process_operation-forgets true op now a s w =
      is_running-forget op.id ((op.id, false) ∷ forget op.id a.cancel_ops)
  process_operation-forgets false op now a s w =
      is_running-forget op.id ((op.id, false) ∷ forget op.id a.cancel_ops)

-- No call fails, the driver reads a NULL result, and the id of the operation leads to a row of the
-- table. Whatever the type of the operation and the status of its row are, and whether it is cancelled
-- or comes to its end: when the agent has processed it, the row has the status `failed` and a result
-- that says so with the agent's message, and the agent does not count the operation as running.
pub process_operation_fails :
    (env : Env) (uuid : Uuid) (clusters : ClusterRepository) (new_id : ℕ) (was_cancelled : Bool)
    (op : Proto) (now i : ℕ) (a : Agent) (s : Server) (w : World) (r : Operation)
    → ((n : ℕ) → env.fails n ≡ false)
    → env.null_as_empty ≡ true
    → uuid.parse op.id ≡ some i
    → row i w ≡ some r
    → let hub = server_hub env uuid clusters (table env) new_id in
      let (a', (s', w')) = process_operation hub was_cancelled (some op) now a (s, w) in
      (row i w'
        ≡ some (
            with_result
              (report_payload false (report_message was_cancelled op) now)
              (env.now (w.calls + 1 + 1))
              (with_status Status.failed (env.now (w.calls + 1)) r)))
      × (is_running op.id a'.cancel_ops ≡ false)
process_operation_fails env uuid clusters new_id was_cancelled op now i a s w r f d p h =
    let message = report_message was_cancelled op in
    let left =
      process_operation-hub env uuid clusters (table env) new_id was_cancelled op now a s w in
    let wrote =
      (report_result_overwrites env uuid clusters f d op.id i w r p h false message now).1 in
    (
      ap (λ (x : Server × World). row i x.1) left ∙ wrote,
      process_operation-forgets env uuid clusters (table env) new_id was_cancelled op now a s w,
    )
