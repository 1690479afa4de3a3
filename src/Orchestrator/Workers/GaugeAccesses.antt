-- ===== src/Orchestrator/Workers/GaugeAccesses.antt =====
-- What an access of a goroutine does to the gauge, the map and the channels (Orchestrator/Workers).
use mckmt.Base.{
  ℕ, ◌+◌, ◌-◌, ◌<◌, ◌≤◌, ◌≡◌, refl, ap, true, false, some, List, [], ◌∷◌, Result, ok, err, arith,
  length, if◌then◌else◌, ◌∙◌, sym,
}
use mckmt.Repo.{Operation, queued, is_cancelled}
use mckmt.Repo.Store.{World, Env}
use mckmt.Repo.OperationTable.{update_status, update_result, set_started, set_finished, get_by_id}
use mckmt.Repo.OperationTable.Rows.{IsOneCall, writes-IsOneCall, get_by_id_reads}
use mckmt.Repo.Interfaces.{table}
use mckmt.Orchestrator.{outcome, final_status}
use mckmt.Orchestrator.Workers.{
  Phase, idle, taken, checked, registered, opened, begun, worked, status_set, result_set, leaving,
  Worker, Pool, move, context_of, act,
}
use mckmt.Orchestrator.Workers.Draining.{total-place}
use mckmt.Orchestrator.Workers.Counting.{
  gauged, entered, IsCounted, move-IsCounted, register-IsCounted, leave-IsCounted,
}

-- The access is a statement.
call-IsCounted :
    {A : Type 0} (n k : ℕ) (p : Pool)
    → k < n
    → (to : Phase) (m : Result A × World) → IsOneCall p.world m
    → gauged (p.workers k).phase ≡ gauged to
    → ((i : ℕ) → entered (p.workers k).phase ≡ some i → entered to ≡ some i)
    → IsCounted n p
    → IsCounted n (move k to m.1 p)
call-IsCounted n k p below to m one g keeps =
    let q = ap (λ (x : List Operation). length x) one.4 in
    let c = ap (λ (x : List ℕ). length x) one.5 in
    move-IsCounted n k p below to m.1 (omega (arith, q), omega (arith, c)) (omega (arith, one.7, g))
      keeps

module _ (env : Env) (n k : ℕ) (p : Pool) (below : k < n) where
  pub act-IsCounted :
      (phase : Phase)
      → (p.workers k).phase ≡ phase
      → IsCounted n p
      → IsCounted n (act (table env) k phase p)
  unfolding act
  act-IsCounted idle h c =
      elim p.world.queue
          as (λ ops.
            p.world.queue ≡ ops
            → IsCounted n (elim ops [
              | [] ↦ p
              | op ∷ rest ↦ move k (taken op) (record p.world { queue = rest }) p
            ])) [
              | [] ↦ λ e. c
              | op ∷ rest ↦ λ e.
                  let f = ap (λ (x : List Operation). length x) e in
                  move-IsCounted n k p below (taken op) (record p.world { queue = rest })
                    (omega (arith, f), omega arith) (omega (arith, ap gauged h))
                    (λ i a. absurd (ground (arith, h, a))) c
            ]
        refl
  act-IsCounted (taken op) h c =
      let m = get_by_id env op.id p.world in
      let one : IsOneCall p.world m = ground (arith, (get_by_id_reads env op.id p.world).0) in
      let none_yet = λ (to : Phase) (i : ℕ) (a : entered (p.workers k).phase ≡ some i).
        absurd {A = entered to ≡ some i} (ground (arith, h, a)) in
      let on =
        call-IsCounted n k p below (checked op) m one (ap gauged h) (none_yet (checked op)) c in
      elim m.0
        as (λ r. IsCounted n (elim r [
          | err _ ↦ move k (checked op) m.1 p
          | ok existing ↦
              if is_cancelled existing.status then move k idle m.1 p else move k (checked op) m.1 p
        ])) [
          | err _ ↦ on
          | ok existing ↦
              elim (is_cancelled existing.status)
                as (λ b. IsCounted n (if b then move k idle m.1 p else move k (checked op) m.1 p)) [
                  | true ↦ call-IsCounted n k p below idle m one (ap gauged h) (none_yet idle) c
                  | false ↦ on
                ]
        ]
  act-IsCounted (checked op) h c = register-IsCounted n k p below op h c
  act-IsCounted (registered op) h c =
      elim (p.workers k).is_cancelled
        as (λ b.
          IsCounted n (if b then move k (leaving op) p.world p else move k (opened op) p.world p)) [
            | true ↦
                move-IsCounted n k p below (leaving op) p.world (omega arith, omega arith)
                  (omega (arith, ap gauged h)) (λ i a. sym (ap entered h) ∙ a) c
            | false ↦
                move-IsCounted n k p below (opened op) p.world (omega arith, omega arith)
                  (omega (arith, ap gauged h)) (λ i a. sym (ap entered h) ∙ a) c
          ]
  act-IsCounted (opened op) h c =
      let m = set_started env op.id p.world in
      let one = (writes-IsOneCall env op.id queued [] "" op p.world).4 in
      elim m.0
        as (λ r.
          IsCounted n
            (elim r [ err _ ↦ move k (leaving op) m.1 p | ok _ ↦ move k (begun op) m.1 p ])) [
              | err _ ↦
                  call-IsCounted n k p below (leaving op) m one (ap gauged h)
                    (λ i a. sym (ap entered h) ∙ a) c
              | ok _ ↦
                  call-IsCounted n k p below (begun op) m one (ap gauged h)
                    (λ i a. sym (ap entered h) ∙ a) c
            ]
  act-IsCounted (begun op) h c =
      let (result, done) = outcome (context_of (p.workers k)) op.op_type in
      move-IsCounted n k p below (worked op result done)
        (record p.world { in_progress = p.world.in_progress + 1 }) (omega arith, omega arith)
        (omega (arith, ap gauged h)) (λ i a. sym (ap entered h) ∙ a) c
  act-IsCounted (worked op result done) h c =
      let s = final_status (context_of (p.workers k)) done in
      call-IsCounted n k p below (status_set op result) (update_status env op.id s p.world)
        (writes-IsOneCall env op.id s [] "" op p.world).2 (ap gauged h)
        (λ i a. sym (ap entered h) ∙ a) c
  act-IsCounted (status_set op result) h c =
      call-IsCounted n k p below (result_set op) (update_result env op.id result p.world)
        (writes-IsOneCall env op.id queued result "" op p.world).3 (ap gauged h)
        (λ i a. sym (ap entered h) ∙ a) c
  act-IsCounted (leaving op) h c = leave-IsCounted n k p below op h c
  act-IsCounted (result_set op) h c =
      let w = (set_finished env op.id p.world).1 in
      let one = (writes-IsOneCall env op.id queued [] "" op p.world).5 in
      let v : Worker = record (p.workers k) { phase = leaving op } in
      let positive : 1 ≤ p.world.in_progress =
        omega (arith, c.gauge, ap gauged h, total-place gauged n k v p.workers below) in
      let q = ap (λ (x : List Operation). length x) one.4 in
      let r = ap (λ (x : List ℕ). length x) one.5 in
      move-IsCounted n k p below (leaving op) (record w { in_progress = w.in_progress - 1 })
        (omega (arith, q), omega (arith, r)) (omega (arith, one.7, positive, ap gauged h))
        (λ i a. sym (ap entered h) ∙ a) c
