-- ===== src/Orchestrator/Workers/Registered.antt =====
-- A run and the list of running operations that the world has for one worker (Orchestrator).
use mckmt.Base.{
  ℕ, ◌+◌, ◌-◌, ◌≡◌, refl, ap, sym, ◌∙◌, ==_refl, Bool, false, List, [], ◌∷◌, Result, ok, err, arith,
}
use mckmt.Repo.{Payload, Status, Operation}
use mckmt.Repo.Store.{World, Env}
use mckmt.Repo.OperationTable.{
  get_by_id, update_status, update_result, set_started, set_finished, update_row,
}
use mckmt.Repo.Interfaces.{table}
use mckmt.Orchestrator.{outcome, final_status, settle, run_registered, forget}
use mckmt.Orchestrator.Workers.Alone.{undisturbed}

abbrev pub with_ops : List (ℕ × Bool) → World → World
with_ops x w = record w { running_ops = x }

-- The statements do not look at the list of running operations.
module _ (env : Env) (i : ℕ) (x : List (ℕ × Bool)) (w : World) where
  pub get_by_id-with_ops :
      get_by_id env i (with_ops x w) ≡ ((get_by_id env i w).0, with_ops x (get_by_id env i w).1)
  unfolding get_by_id
  get_by_id-with_ops = ground arith

  pub set_started-with_ops :
      set_started env i (with_ops x w)
      ≡ ((set_started env i w).0, with_ops x (set_started env i w).1)
  unfolding set_started update_row
  set_started-with_ops = ground arith

  pub update_status-with_ops :
      (s : Status)
      → (update_status env i s (with_ops x w)).1 ≡ with_ops x (update_status env i s w).1
  unfolding update_status update_row
  update_status-with_ops s = ground arith

  pub update_result-with_ops :
      (r : Payload)
      → (update_result env i r (with_ops x w)).1 ≡ with_ops x (update_result env i r w).1
  unfolding update_result update_row
  update_result-with_ops r = ground arith

  pub set_finished-with_ops :
      (set_finished env i (with_ops x w)).1 ≡ with_ops x (set_finished env i w).1
  unfolding set_finished update_row
  set_finished-with_ops = ground arith

settle-with_ops :
    (env : Env) (op : Operation) (x : List (ℕ × Bool)) (w : World)
    → settle (table env) undisturbed op (with_ops x w)
      ≡ with_ops x (settle (table env) undisturbed op w)
unfolding settle
settle-with_ops env op x w =
    let (result, done) = outcome undisturbed op.op_type in
    let s = final_status undisturbed done in
    let w₁ = record w { in_progress = w.in_progress + 1 } in
    let w₂ = (update_status env op.id s w₁).1 in
    let w₃ = (update_result env op.id result w₂).1 in
    let a = update_status-with_ops env op.id x w₁ s in
    let b =
      ap (λ u. (update_result env op.id result u).1) a
      ∙ update_result-with_ops env op.id x w₂ result in
    let c = ap (λ u. (set_finished env op.id u).1) b ∙ set_finished-with_ops env op.id x w₃ in
    ap (λ (u : World). record u { in_progress = u.in_progress - 1 }) c

-- The part of a run behind SetStarted, and the part behind its registration.
abbrev pub settled_if : Env → Operation → Result (Unit {0}) × World → World
settled_if env op (err _, w) = w
settled_if env op (ok _, w) = settle (table env) undisturbed op w

abbrev pub started : Env → Operation → World → World
started env op w = settled_if env op (set_started env op.id w)

settled_if-with_ops :
    (env : Env) (op : Operation) (x : List (ℕ × Bool)) (r : Result (Unit {0})) (w : World)
    → settled_if env op (r, with_ops x w) ≡ with_ops x (settled_if env op (r, w))
settled_if-with_ops env op x (err e) w = refl
settled_if-with_ops env op x (ok u) w = settle-with_ops env op x w

started-with_ops :
    (env : Env) (op : Operation) (x : List (ℕ × Bool)) (w : World)
    → started env op (with_ops x w) ≡ with_ops x (started env op w)
started-with_ops env op x w =
    let (r, u) = set_started env op.id w in
    ap (settled_if env op) (set_started-with_ops env op.id x w) ∙ settled_if-with_ops env op x r u

abbrev deferred : Operation → World → World
deferred op w = with_ops (forget op.id w.running_ops) w

settled_if_lem :
    (env : Env) (op : Operation) (r : Result (Unit {0})) (u : World)
    → deferred op (elim r [ err _ ↦ u | ok _ ↦ settle (table env) undisturbed op u ])
      ≡ deferred op (settled_if env op (r, u))
settled_if_lem env op (err e) u = refl
settled_if_lem env op (ok t) u = refl

forget_self : (i : ℕ) (xs : List (ℕ × Bool)) → xs ≡ [] → forget i ((i, false) ∷ forget i xs) ≡ []
unfolding forget
forget_self i xs h = ground (arith, ap (forget i) h, ==_refl i)

-- A run that begins with an empty list of running operations.
pub run_registered_lem :
    (env : Env) (op : Operation) (w : World)
    → w.running_ops ≡ []
    → run_registered (table env) undisturbed op w ≡ started env op w
unfolding run_registered
run_registered_lem env op w h =
    let x = (op.id, false) ∷ forget op.id w.running_ops in
    let emptied : forget op.id x ≡ [] = forget_self op.id w.running_ops h in
    let same : with_ops [] w ≡ w = ap (λ y. with_ops y w) (sym h) in
    let z = started env op w in
    let none_left : with_ops [] z ≡ z =
      sym (started-with_ops env op [] w) ∙ ap (started env op) same in
    let (r, u) = set_started env op.id (with_ops x w) in
    settled_if_lem env op r u
    ∙ ap (deferred op) (started-with_ops env op x w)
    ∙ ap (λ y. with_ops y z) emptied
    ∙ none_left
