-- ===== src/Orchestrator/Workers/Alone.antt =====
-- The accesses of a goroutine that goes on alone, one by one (Orchestrator/Workers).
use mckmt.Base.{
  ℕ, ◌+◌, ◌-◌, zero, suc, ◌≡◌, refl, ap, sym, ◌∙◌, subst, ==_refl, Bool, true, false, ok, err,
  if◌then◌else◌,
}
use mckmt.Repo.{Payload, Operation, is_cancelled}
use mckmt.Repo.Store.{World}
use mckmt.Repo.Interfaces.{OperationRepository}
use mckmt.Orchestrator.{Context, outcome, final_status}
use mckmt.Orchestrator.Workers.{
  Phase, idle, taken, checked, registered, opened, begun, worked, status_set, result_set, leaving,
  Worker, Pool, move, context_of, act, advance,
}
use mckmt.Orchestrator.Workers.Schedules.{place_here}

-- Nothing is cancelled.
abbrev pub undisturbed : Context
undisturbed = record { before = false; during = false; settling = false }

abbrev pub at_phase : Phase → Worker
at_phase phase = record { phase = phase; is_cancelled = false }

-- A number of accesses of one goroutine.
abbrev pub alone : OperationRepository → ℕ → ℕ → Pool → Pool
alone repo zero k p = p
alone repo (suc n) k p = alone repo n k (advance repo k p)

-- A goroutine stands in a phase, its context is not cancelled, and the world is this.
abbrev pub IsAt : ℕ → Phase → World → Pool → Type 0
IsAt k phase w p = (p.workers k ≡ at_phase phase) × (p.world ≡ w)

module _ (repo : OperationRepository) (k : ℕ) (p : Pool) (w : World) where
  pub advance_lem :
      (from : Phase) → p.workers k ≡ at_phase from → advance repo k p ≡ act repo k from p
  unfolding advance
  advance_lem from h = ap (λ (v : Worker). act repo k v.phase p) h

  -- An access that only moves the goroutine and changes the world.
  stepped :
      (from : Phase) (to : Worker → Phase) (next : World → World)
      → IsAt k from w p
      → act repo k from p ≡ move k (to (p.workers k)) (next p.world) p
      → IsAt k (to (at_phase from)) (next w) (advance repo k p)
  stepped from to next (h, e) f =
      let q = move k (to (p.workers k)) (next p.world) p in
      let v : Worker = record (p.workers k) { phase = to (p.workers k) } in
      let g : q.workers k ≡ v = place_here k k v p.workers (==_refl k) in
      let moved : IsAt k (to (at_phase from)) (next w) q =
        (g ∙ ap (λ (x : Worker). record x { phase = to x }) h, ap next e) in
      subst (IsAt k (to (at_phase from)) (next w)) (sym (advance_lem from h ∙ f)) moved

  module _ (op : Operation) where
    pub checked_step : IsAt k (checked op) w p → IsAt k (registered op) w (advance repo k p)
    unfolding act
    checked_step (h, e) =
        subst (IsAt k (registered op) w) (sym (advance_lem (checked op) h))
          (place_here k k (at_phase (registered op)) p.workers (==_refl k), e)

    pub registered_step : IsAt k (registered op) w p → IsAt k (opened op) w (advance repo k p)
    unfolding act
    registered_step a =
        stepped (registered op) (λ v. opened op) (λ u. u) a
          (ap
            (λ (v : Worker).
              if v.is_cancelled
              then move k (leaving op) p.world p
              else move k (opened op) p.world p)
            a.0)

    pub leaving_step : IsAt k (leaving op) w p → IsAt k idle w (advance repo k p)
    unfolding act
    leaving_step (h, e) =
        let v : Worker = record (p.workers k) { phase = idle } in
        subst (IsAt k idle w) (sym (advance_lem (leaving op) h)) (
          place_here k k v p.workers (==_refl k) ∙ ap (λ (x : Worker). record x { phase = idle }) h,
          e,
        )

    pub begun_step :
        IsAt k (begun op) w p
        → let (result, done) = outcome undisturbed op.op_type in
          IsAt k
            (worked op result done)
            (record w { in_progress = w.in_progress + 1 })
            (advance repo k p)
    unfolding act
    begun_step a =
        stepped (begun op)
          (λ v. let (result, done) = outcome (context_of v) op.op_type in worked op result done)
          (λ u. record u { in_progress = u.in_progress + 1 }) a refl

    pub worked_step :
        (result : Payload) (done : Bool)
        → IsAt k (worked op result done) w p
        → IsAt k
            (status_set op result)
            (repo.update_status op.id (final_status undisturbed done) w).1
            (advance repo k p)
    unfolding act
    worked_step result done a =
        let same : context_of (p.workers k) ≡ undisturbed = ap context_of a.0 in
        stepped (worked op result done) (λ v. status_set op result)
          (λ u. (repo.update_status op.id (final_status undisturbed done) u).1) a
          (ap
            (λ c.
              move k (status_set op result)
                (repo.update_status op.id (final_status c done) p.world).1 p)
            same)

    pub status_set_step :
        (result : Payload)
        → IsAt k (status_set op result) w p
        → IsAt k (result_set op) (repo.update_result op.id result w).1 (advance repo k p)
    unfolding act
    status_set_step result a =
        stepped (status_set op result) (λ v. result_set op)
          (λ u. (repo.update_result op.id result u).1) a refl

    pub result_set_step :
        IsAt k (result_set op) w p
        → let w' = (repo.set_finished op.id w).1 in
          IsAt k (leaving op) (record w' { in_progress = w'.in_progress - 1 }) (advance repo k p)
    unfolding act
    result_set_step a =
        stepped (result_set op) (λ v. leaving op)
          (λ u.
            let w' = (repo.set_finished op.id u).1 in
            record w' { in_progress = w'.in_progress - 1 })
          a refl

    -- Where SetStarted and the look at the row lead to.
    abbrev pub after_start : World → Phase
    after_start u = elim (repo.set_started op.id u).0 [ err _ ↦ leaving op | ok _ ↦ begun op ]

    abbrev pub after_look : World → Phase
    after_look u = elim (repo.get_by_id op.id u).0 [
      | err _ ↦ checked op
      | ok existing ↦ if is_cancelled existing.status then idle else checked op
    ]

    pub opened_step :
        IsAt k (opened op) w p
        → IsAt k (after_start w) (repo.set_started op.id w).1 (advance repo k p)
    unfolding act
    opened_step a =
        let u = (repo.set_started op.id p.world).1 in
        let split : act repo k (opened op) p ≡ move k (after_start p.world) u p =
          elim (repo.set_started op.id p.world).0
            as (λ r.
              (elim r [ err _ ↦ move k (leaving op) u p | ok _ ↦ move k (begun op) u p ])
              ≡ move k (elim r [ err _ ↦ leaving op | ok _ ↦ begun op ]) u p) [
                | err _ ↦ refl
                | ok _ ↦ refl
              ] in
        subst (λ x. IsAt k x (repo.set_started op.id w).1 (advance repo k p)) (ap after_start a.1)
          (stepped (opened op) (λ v. after_start p.world) (λ u. (repo.set_started op.id u).1) a
            split)

    pub taken_step :
        IsAt k (taken op) w p → IsAt k (after_look w) (repo.get_by_id op.id w).1 (advance repo k p)
    unfolding act
    taken_step a =
        let u = (repo.get_by_id op.id p.world).1 in
        let split : act repo k (taken op) p ≡ move k (after_look p.world) u p =
          elim (repo.get_by_id op.id p.world).0
            as (λ r.
              (elim r [
                | err _ ↦ move k (checked op) u p
                | ok existing ↦
                    if is_cancelled existing.status
                    then move k idle u p
                    else move k (checked op) u p
              ])
              ≡ move k
                  (elim r [
                    | err _ ↦ checked op
                    | ok existing ↦ if is_cancelled existing.status then idle else checked op
                  ])
                  u p) [
                    | err _ ↦ refl
                    | ok existing ↦
                        elim (is_cancelled existing.status)
                          as (λ b.
                            (if b then move k idle u p else move k (checked op) u p)
                            ≡ move k (if b then idle else checked op) u p) [
                              | true ↦ refl
                              | false ↦ refl
                            ]
                  ] in
        subst (λ x. IsAt k x (repo.get_by_id op.id w).1 (advance repo k p)) (ap after_look a.1)
          (stepped (taken op) (λ v. after_look p.world) (λ u. (repo.get_by_id op.id u).1) a split)
