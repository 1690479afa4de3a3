-- ===== src/Orchestrator/Runs.antt =====
-- What processOperation leaves in the table (Orchestrator), over the repository of the table.
use mckmt.Base.{
  ℕ, ◌+◌, ◌≡◌, refl, ap, ◌∙◌, true, false, some, [], ◌∷◌, Result, ok, err, arith, if◌then◌else◌,
  Bool-cases, inl, inr,
}
use mckmt.Repo.{Status, queued, is_final, is_cancelled, OperationType, Operation}
use mckmt.Repo.Store.{World, Env, tick}
use mckmt.Repo.OperationTable
use mckmt.Repo.OperationTable.{allowed, scan}
use mckmt.Repo.OperationTable.Rows.{row, writes-IsOneCall, get_by_id_reads}
use mckmt.Repo.OperationTable.Lifecycle.{started, with_status}
use mckmt.Repo.OperationTable.Steps.{
  set_started_done, update_status_done, update_result_done, set_finished_done,
}
use mckmt.Repo.Interfaces.{table}
use mckmt.Orchestrator.{
  Context, outcome, final_status, settle, run_registered, process_operation, forget,
}

-- The status that processOperation chooses for an operation of this type.
abbrev pub chosen : Context → OperationType → Status
chosen ctx t = final_status ctx (outcome ctx t).1

chosen-final : (ctx : Context) (t : OperationType) → is_final (chosen ctx t) ≡ true
unfolding outcome final_status
chosen-final ctx t = ground arith

chosen-allowed : (ctx : Context) (t : OperationType) → allowed (chosen ctx t) ≡ true
unfolding outcome final_status
chosen-allowed ctx t = ground arith

-- The row that a finished run leaves, with the time of its last statement.
abbrev pub settled : Context → OperationType → ℕ → Operation → Operation
settled ctx t now r = record r {
  status = chosen ctx t;
  result = some (outcome ctx t).0;
  finished_at = some now;
  updated_at = now;
}

module _ (env : Env) (healthy : (n : ℕ) → env.fails n ≡ false) (ctx : Context)
    (op r : Operation) where
  row-settle :
      (w : World)
      → row op.id w ≡ some r
      → row op.id (settle (table env) ctx op w)
        ≡ some (settled ctx op.op_type (env.now (w.calls + 1 + 1)) r)
  unfolding settle
  row-settle w h =
      let i = op.id in
      let s = chosen ctx op.op_type in
      let p = (outcome ctx op.op_type).0 in
      let w₁ : World = record w { in_progress = w.in_progress + 1 } in
      let w₂ = (OperationTable.update_status env i s w₁).1 in
      let w₃ = (OperationTable.update_result env i p w₂).1 in
      let r₂ = with_status s (env.now w.calls) r in
      let r₃ : Operation = record r₂ { result = some p; updated_at = env.now w₂.calls } in
      let h₂ = update_status_done env i w₁ r s (healthy _) h (chosen-allowed ctx op.op_type) in
      let h₃ = update_result_done env i w₂ r₂ p (healthy _) h₂ (chosen-allowed ctx op.op_type) in
      let h₄ = set_finished_done env i w₃ r₃ (healthy _) h₃ (chosen-final ctx op.op_type) in
      let c₁ : w₂.calls ≡ w.calls + 1 = (writes-IsOneCall env i s p "" op w₁).2.0 in
      let c₂ : w₃.calls ≡ w₂.calls + 1 = (writes-IsOneCall env i s p "" op w₂).3.0 in
      h₄ ∙ ap (λ n. some (settled ctx op.op_type (env.now n) r)) (c₂ ∙ ap (λ n. n + 1) c₁)

module _ (env : Env) (ctx : Context) (op : Operation) where
  -- Behind the first look: nothing that the look returned matters but a cancelled row.
  pub process_cases :
      (w : World) (P : World → Type 0)
      → P (run_registered (table env) ctx op (tick w))
      → (((r : Operation) × (row op.id w ≡ some r) × (is_cancelled r.status ≡ true)) → P (tick w))
      → P (process_operation (table env) ctx op w)
  unfolding process_operation
  process_cases w P go skip =
      look (OperationTable.get_by_id env op.id w) (get_by_id_reads env op.id w).0
        (get_by_id_reads env op.id w).1
    where
      look :
          (m : Result Operation × World)
          → m.1 ≡ tick w
          → ((o : Operation) → m.0 ≡ ok o → row op.id w ≡ some o)
          → P (elim m.0 [
            | err _ ↦ run_registered (table env) ctx op m.1
            | ok o ↦ if is_cancelled o.status then m.1 else run_registered (table env) ctx op m.1
          ])
      look (err e, w₁) q found = rw q go
      look (ok o, w₁) q found = elim (Bool-cases (is_cancelled o.status)) [
        | inl c ↦ rw c (rw q (skip (o, found o refl, c)))
        | inr c ↦ rw c (rw q go)
      ]

module _ (env : Env) (healthy : (n : ℕ) → env.fails n ≡ false) (ctx : Context)
    (op r : Operation) where
  -- While no call fails, an operation whose row is queued runs to its end: if its context is not
  -- yet cancelled when it starts, its row gets the chosen status, the result, and the times of its
  -- start and its end, and is otherwise as it was but for the time of the update.
  pub process-queued :
      (w : World)
      → row op.id w ≡ some r
      → r.status ≡ queued
      → ctx.before ≡ false
      → row op.id (process_operation (table env) ctx op w)
        ≡ some (
            settled ctx op.op_type
              (env.now (w.calls + 1 + 1 + 1 + 1))
              (started (env.now (w.calls + 1)) r))
  unfolding run_registered outcome final_status
  process-queued w h q b =
      process_cases env ctx op w
        (λ w'.
          row op.id w'
          ≡ some (
              settled ctx op.op_type (env.now (w.calls + 1 + 1 + 1 + 1))
                (started (env.now (w.calls + 1)) r)))
        (rw (b, begun.0)
          (row-settle env healthy ctx op (started (env.now (w.calls + 1)) r) w₂ begun.1
            ∙ ap
                (λ n. some (
                  settled ctx op.op_type (env.now (n + 1 + 1)) (started (env.now (w.calls + 1)) r)))
                cost))
        (λ (o, found, c). absurd (ground arith))
    where
      w₁ : World
      w₁ = record (tick w) { running_ops = (op.id, false) ∷ forget op.id w.running_ops }

      begun :
          ((OperationTable.set_started env op.id w₁).0 ≡ ok tt)
          × (row op.id (OperationTable.set_started env op.id w₁).1
              ≡ some (started (env.now (w.calls + 1)) r))
      begun = set_started_done env op.id w₁ r (healthy _) h q

      w₂ : World
      w₂ = (OperationTable.set_started env op.id w₁).1

      cost : w₂.calls ≡ w.calls + 1 + 1
      cost = (writes-IsOneCall env op.id queued [] "" op w₁).4.0
