-- ===== src/Orchestrator/Workers/Accesses.antt =====
-- What one access of a goroutine leaves before it (Orchestrator/Workers).
use mckmt.Base.{
  ℕ, ◌+◌, ◌-◌, ◌<◌, ◌≡◌, refl, ap, true, false, List, [], ◌∷◌, ok, err, arith, if◌then◌else◌,
  length,
}
use mckmt.Repo.{Status, cancelled, is_cancelled, Operation, Payload}
use mckmt.Repo.Store.{World, Env}
use mckmt.Repo.OperationTable.{
  update_status, update_result, set_started, set_finished, get_by_id, update_row,
}
use mckmt.Repo.OperationTable.Rows.{get_by_id_reads}
use mckmt.Repo.Interfaces.{table}
use mckmt.Orchestrator.{outcome, final_status}
use mckmt.Orchestrator.Workers.{
  Phase, idle, taken, checked, registered, opened, begun, worked, status_set, result_set, leaving,
  Pool, drop_entry, move, context_of, act, is_ready,
}
use mckmt.Orchestrator.Workers.Draining.{
  remaining, work_left, total-place, place-work_left, move-work_left,
}

abbrev pub KeepsChannels : World → World → Type 0
KeepsChannels w u = (u.queue ≡ w.queue) × (u.cancel_ch ≡ w.cancel_ch)

-- No statement touches a channel.
pub statements-KeepsChannels :
    (env : Env) (i : ℕ) (s : Status) (r : Payload) (w : World)
    → KeepsChannels w (get_by_id env i w).1
      × KeepsChannels w (update_status env i s w).1
      × KeepsChannels w (update_result env i r w).1
      × KeepsChannels w (set_started env i w).1
      × KeepsChannels w (set_finished env i w).1
unfolding update_status update_result set_started set_finished update_row
statements-KeepsChannels env i s r w = (
  ground (arith, (get_by_id_reads env i w).0),
  ground arith,
  ground arith,
  ground arith,
  ground arith,
)

-- A step in a phase, of a goroutine that stands there.
module _ (env : Env) (n k : ℕ) (p : Pool) (below : k < n) where
  pub act-work_left :
      (phase : Phase)
      → (p.workers k).phase ≡ phase
      → is_ready phase p.world.queue ≡ true
      → work_left n (act (table env) k phase p) < work_left n p
  unfolding act is_ready
  act-work_left idle h r =
      elim p.world.queue
          as (λ ops.
            p.world.queue ≡ ops
            → is_ready idle ops ≡ true
            → work_left n (elim ops [
              | [] ↦ p
              | op ∷ rest ↦ move k (taken op) (record p.world { queue = rest }) p
            ])
              < work_left n p) [
                | [] ↦ λ e x. absurd (ground arith)
                | op ∷ rest ↦ λ e x.
                    let f = ap (λ (y : List Operation). length y) e in
                    let g = ap remaining h in
                    omega (
                      arith,
                      f,
                      g,
                      total-place remaining n k (record (p.workers k) { phase = taken op })
                          p.workers below,
                    )
              ]
        refl r
  act-work_left (taken op) h r =
      let w = (get_by_id env op.id p.world).1 in
      let (q, c) = (statements-KeepsChannels env op.id cancelled [] p.world).0 in
      let g = ap remaining h in
      let on = move-work_left n k p below (checked op) w q c (omega (arith, g)) in
      elim (get_by_id env op.id p.world).0
        as (λ r.
          work_left n (elim r [
            | err _ ↦ move k (checked op) w p
            | ok existing ↦
                if is_cancelled existing.status then move k idle w p else move k (checked op) w p
          ])
          < work_left n p) [
            | err _ ↦ on
            | ok existing ↦
                elim (is_cancelled existing.status)
                  as (λ b.
                    work_left n (if b then move k idle w p else move k (checked op) w p)
                    < work_left n p) [
                      | true ↦ move-work_left n k p below idle w q c (omega (arith, g))
                      | false ↦ on
                    ]
          ]
  act-work_left (checked op) h r =
      place-work_left n k p below (record { phase = registered op; is_cancelled = false }) p.world
        ((op.id, k) ∷ drop_entry op.id p.running) refl refl (omega (arith, ap remaining h))
  act-work_left (registered op) h r =
      let g = ap remaining h in
      elim (p.workers k).is_cancelled
        as (λ b.
          work_left n (if b then move k (leaving op) p.world p else move k (opened op) p.world p)
          < work_left n p) [
            | true ↦ move-work_left n k p below (leaving op) p.world refl refl (omega (arith, g))
            | false ↦ move-work_left n k p below (opened op) p.world refl refl (omega (arith, g))
          ]
  act-work_left (opened op) h r =
      let w = (set_started env op.id p.world).1 in
      let (q, c) = (statements-KeepsChannels env op.id cancelled [] p.world).3 in
      let g = ap remaining h in
      elim (set_started env op.id p.world).0
        as (λ r.
          work_left n (elim r [ err _ ↦ move k (leaving op) w p | ok _ ↦ move k (begun op) w p ])
          < work_left n p) [
            | err _ ↦ move-work_left n k p below (leaving op) w q c (omega (arith, g))
            | ok _ ↦ move-work_left n k p below (begun op) w q c (omega (arith, g))
          ]
  act-work_left (begun op) h r =
      let (result, done) = outcome (context_of (p.workers k)) op.op_type in
      move-work_left n k p below (worked op result done)
        (record p.world { in_progress = p.world.in_progress + 1 }) refl refl
        (omega (arith, ap remaining h))
  act-work_left (worked op result done) h r =
      let s = final_status (context_of (p.workers k)) done in
      let (q, c) = (statements-KeepsChannels env op.id s [] p.world).1 in
      move-work_left n k p below (status_set op result) (update_status env op.id s p.world).1 q c
        (omega (arith, ap remaining h))
  act-work_left (status_set op result) h r =
      let (q, c) = (statements-KeepsChannels env op.id cancelled result p.world).2 in
      move-work_left n k p below (result_set op) (update_result env op.id result p.world).1 q c
        (omega (arith, ap remaining h))
  act-work_left (result_set op) h r =
      let w = (set_finished env op.id p.world).1 in
      let (q, c) = (statements-KeepsChannels env op.id cancelled [] p.world).4 in
      move-work_left n k p below (leaving op) (record w { in_progress = w.in_progress - 1 }) q c
        (omega (arith, ap remaining h))
  act-work_left (leaving op) h r =
      place-work_left n k p below (record (p.workers k) { phase = idle }) p.world
        (drop_entry op.id p.running) refl refl (omega (arith, ap remaining h))
