-- ===== src/AgentServer/Decimal.antt =====
-- The fuel of `decimal` (AgentServer/State).
use mckmt.Base.{ℕ, ◌≤◌, refl, ◌/◌, zero, suc, ◌≡◌, ◌<◌, String, ltb, Bool-cases, inl, inr, arith}
use mckmt.AgentServer.State.{decimal_from}

-- More fuel than the number itself changes nothing: the digits have not run out.
decimal_from_enough :
    (f g n : ℕ) (rest : String) → n < f → n < g → decimal_from f n rest ≡ decimal_from g n rest
unfolding decimal_from
decimal_from_enough zero g n rest h k = absurd (omega (arith, h))
decimal_from_enough (suc f) zero n rest h k = absurd (omega (arith, k))
decimal_from_enough (suc f) (suc g) n rest h k = elim (Bool-cases (ltb n 10)) [
  | inl e ↦ rw e refl
  | inr e ↦
      let large : 10 ≤ n = ground arith in
      rw e (decimal_from_enough f g (n / 10) _ (omega arith) (omega arith))
]
