-- ===== src/Orchestrator/Workers/Rounds.antt =====
-- A goroutine that goes on alone, beside one round of a worker in one piece (Orchestrator/Workers,
-- Orchestrator).
use mckmt.Base.{
  ℕ, ◌+◌, ◌-◌, ◌≤◌, suc, ◌≡◌, refl, ap, sym, ◌∙◌, subst, ==_refl, true, false, List, [], ◌∷◌,
  Result, ok, err, if◌then◌else◌, arith,
}
use mckmt.Repo.{Operation, is_cancelled}
use mckmt.Repo.Store.{World, Env}
use mckmt.Repo.OperationTable.{set_started, get_by_id}
use mckmt.Repo.OperationTable.Rows.{get_by_id_reads}
use mckmt.Repo.Interfaces.{table}
use mckmt.Orchestrator.{
  outcome, final_status, settle, run_registered, process_operation, receive_operation,
}
use mckmt.Orchestrator.Workers.{
  idle, taken, checked, opened, begun, leaving, Worker, Pool, move, act, advance,
}
use mckmt.Orchestrator.Workers.Schedules.{place_here}
use mckmt.Orchestrator.Workers.Alone.{
  undisturbed, at_phase, alone, IsAt, advance_lem, checked_step, registered_step, opened_step,
  begun_step, worked_step, status_set_step, result_set_step, leaving_step, taken_step,
}
use mckmt.Orchestrator.Workers.Registered.{settled_if, started, run_registered_lem}

-- Within so many accesses the goroutine is back where it waits, with this world.
abbrev pub EndsIn : Env → ℕ → ℕ → World → Pool → Type 0
EndsIn env b k w p = (n : ℕ) × (n ≤ b) × IsAt k idle w (alone (table env) n k p)

module _ (env : Env) (k : ℕ) (op : Operation) where
  sooner :
      (b : ℕ) (w : World) (p : Pool)
      → EndsIn env b k w (advance (table env) k p)
      → EndsIn env (suc b) k w p
  sooner b w p (n, l, a) = (suc n, omega (arith, l), a)

  from_leaving : (w : World) (p : Pool) → IsAt k (leaving op) w p → EndsIn env 1 k w p
  from_leaving w p a = (1, omega arith, leaving_step (table env) k p w op a)

  from_begun :
      (w : World) (p : Pool)
      → IsAt k (begun op) w p
      → EndsIn env 5 k (settle (table env) undisturbed op w) p
  unfolding settle
  from_begun w p a =
      let repo = table env in
      let (result, done) = outcome undisturbed op.op_type in
      let w₁ = record w { in_progress = w.in_progress + 1 } in
      let w₂ = (repo.update_status op.id (final_status undisturbed done) w₁).1 in
      let w₃ = (repo.update_result op.id result w₂).1 in
      let w₄ = (repo.set_finished op.id w₃).1 in
      let w₅ = record w₄ { in_progress = w₄.in_progress - 1 } in
      let p₁ = advance repo k p in
      let p₂ = advance repo k p₁ in
      let p₃ = advance repo k p₂ in
      let p₄ = advance repo k p₃ in
      let b = begun_step repo k p w op a in
      let c = worked_step repo k p₁ w₁ op result done b in
      let d = status_set_step repo k p₂ w₂ op result c in
      let e = result_set_step repo k p₃ w₃ op d in (5, omega arith, leaving_step repo k p₄ w₅ op e)

  from_opened :
      (w : World) (p : Pool) → IsAt k (opened op) w p → EndsIn env 6 k (started env op w) p
  from_opened w p a = sooner 5 (started env op w) p (
      go (set_started env op.id w).0 (set_started env op.id w).1
        (opened_step (table env) k p w op a))
    where
      go :
          (r : Result (Unit {0})) (u : World)
          → IsAt k (elim r [ err _ ↦ leaving op | ok _ ↦ begun op ]) u (advance (table env) k p)
          → EndsIn env 5 k (settled_if env op (r, u)) (advance (table env) k p)
      go (err e) u a =
          let (n, l, b) = from_leaving u (advance (table env) k p) a in (n, omega (arith, l), b)
      go (ok t) u a = from_begun u (advance (table env) k p) a

  from_checked :
      (w : World) (p : Pool)
      → w.running_ops ≡ []
      → IsAt k (checked op) w p
      → EndsIn env 8 k (run_registered (table env) undisturbed op w) p
  from_checked w p h a =
      let p₁ = advance (table env) k p in
      let p₂ = advance (table env) k p₁ in
      let b = checked_step (table env) k p w op a in
      let c = registered_step (table env) k p₁ w op b in
      let z = started env op w in
      subst (λ u. EndsIn env 8 k u p) (sym (run_registered_lem env op w h))
        (sooner 7 z p (sooner 6 z p₁ (from_opened w p₂ c)))

  from_taken :
      (w : World) (p : Pool)
      → w.running_ops ≡ []
      → IsAt k (taken op) w p
      → EndsIn env 9 k (process_operation (table env) undisturbed op w) p
  unfolding process_operation
  from_taken w p h a = sooner 8 (process_operation (table env) undisturbed op w) p (
      go (get_by_id env op.id w).0 (get_by_id env op.id w).1
        (ap (λ (u : World). u.running_ops) (get_by_id_reads env op.id w).0 ∙ h)
        (taken_step (table env) k p w op a))
    where
      q : Pool
      q = advance (table env) k p

      go :
          (r : Result Operation) (u : World)
          → u.running_ops ≡ []
          → IsAt k
              (elim r [
                | err _ ↦ checked op
                | ok existing ↦ if is_cancelled existing.status then idle else checked op
              ])
              u
              q
          → EndsIn env 8 k
              (elim r [
                | err _ ↦ run_registered (table env) undisturbed op u
                | ok existing ↦
                    if is_cancelled existing.status
                    then u
                    else run_registered (table env) undisturbed op u
              ])
              q
      go (err e) u h a = from_checked u q h a
      go (ok existing) u h a =
          elim (is_cancelled existing.status)
              as (λ b.
                IsAt k (if b then idle else checked op) u q
                → EndsIn env 8 k (if b then u else run_registered (table env) undisturbed op u) q) [
                  | true ↦ λ x. (0, omega arith, x)
                  | false ↦ λ x. from_checked u q h x
                ]
            a

idle_step :
    (env : Env) (k : ℕ) (p : Pool) (op : Operation) (rest : List Operation)
    → p.workers k ≡ at_phase idle
    → p.world.queue ≡ op ∷ rest
    → IsAt k (taken op) (record p.world { queue = rest }) (advance (table env) k p)
unfolding act
idle_step env k p op rest h e =
    let v : Worker = record (p.workers k) { phase = taken op } in
    let w = record p.world { queue = rest } in
    let received =
      ap
        (λ (ops : List Operation). elim ops [
          | [] ↦ p
          | x ∷ xs ↦ move k (taken x) (record p.world { queue = xs }) p
        ])
        e in
    subst (IsAt k (taken op) w) (sym (advance_lem (table env) k p p.world idle h ∙ received)) (
      place_here k k v p.workers (==_refl k) ∙ ap (λ (x : Worker). record x { phase = taken op }) h,
      refl,
    )

-- A goroutine that waits while the queue has an operation, whose context nobody cancels and which goes
-- on alone is back at its receive after ten accesses at most, and has then done to the world what one
-- round of a worker in one piece does: the run of the operation at the head of the queue, also where a
-- call fails or the operation is cancelled or started already.
pub alone-receive_operation :
    (env : Env) (k : ℕ) (p : Pool) (op : Operation) (rest : List Operation)
    → p.workers k ≡ at_phase idle
    → p.world.queue ≡ op ∷ rest
    → p.world.running_ops ≡ []
    → EndsIn env 10 k (receive_operation (table env) undisturbed p.world) p
unfolding receive_operation
alone-receive_operation env k p op rest h e r =
    let w = record p.world { queue = rest } in
    let round =
      ap
        (λ (ops : List Operation). elim ops [
          | [] ↦ p.world
          | x ∷ xs ↦ process_operation (table env) undisturbed x (record p.world { queue = xs })
        ])
        e in
    subst (λ u. EndsIn env 10 k u p) (sym round)
      (sooner env k op 9 (process_operation (table env) undisturbed op w) p
        (from_taken env k op w (advance (table env) k p) r (idle_step env k p op rest h e)))
