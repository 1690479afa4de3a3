-- ===== src/Http/Numbers.antt =====
-- strconv.Atoi, by which the handlers read `limit` and `offset`: an optional sign and decimal digits.
-- The value comes with an error that some callers pass over: 0 for a text that is no number, and the
-- nearest int for a number that is too large.
use mckmt.Base.{
  ℕ, ◌+◌, ◌-◌, ◌*◌, ◌^◌, ◌≤◌, ◌<◌, zero, suc, Bool, true, false, not, List, [], ◌∷◌, if◌then◌else◌,
  ◌==◌, ltb, leb, arith, Bool-cases, inl, inr,
}
use mckmt.Auth.Password.Hash.{is_digit}

-- The integers: `negsuc n` is -(n + 1).
pub data ℤ : Type 0 where
  pos negsuc : ℕ → ℤ

-- The loop of ParseUint.
pub data Parsed : Type 0 where
  number : ℕ → Parsed
  syntax_error range_error : Parsed

unfoldable pub parse_digits : ℕ → List ℕ → Parsed
parse_digits n [] = number n
parse_digits n (c ∷ cs) =
    let n' = n * 10 + (c - 48) in
    let rest = parse_digits n' cs in
    if not (is_digit c) then syntax_error else if leb (2 ^ 64) n' then range_error else rest

abbrev parse_uint : List ℕ → Parsed
parse_uint [] = syntax_error
parse_uint (c ∷ cs) = parse_digits 0 (c ∷ cs)

abbrev minus : ℕ → ℤ
minus zero = pos 0
minus (suc n) = negsuc n

-- The end of ParseInt; the Boolean says that there was no error.
abbrev positive : Parsed → ℤ × Bool
positive (number n) = if leb (2 ^ 63) n then (pos (2 ^ 63 - 1), false) else (pos n, true)
positive syntax_error = (pos 0, false)
positive range_error = (pos (2 ^ 63 - 1), false)

abbrev negative : Parsed → ℤ × Bool
negative (number n) = if ltb (2 ^ 63) n then (minus (2 ^ 63), false) else (minus n, true)
negative syntax_error = (pos 0, false)
negative range_error = (minus (2 ^ 63), false)

-- '+' is 43 and '-' is 45.
unfoldable pub atoi : List ℕ → ℤ × Bool
unfolding parse_digits
atoi [] = (pos 0, false)
atoi (c ∷ cs) =
    if c == 45
    then negative (parse_uint cs)
    else if c == 43
    then positive (parse_uint cs)
    else positive (parse_uint (c ∷ cs))

-- An `int` of 64 bits.
abbrev pub IsInt64 : ℤ → Type 0
IsInt64 (pos n) = n < 2 ^ 63
IsInt64 (negsuc n) = n < 2 ^ 63

minus-IsInt64 : (n : ℕ) → n ≤ 2 ^ 63 → IsInt64 (minus n)
minus-IsInt64 zero h = omega arith
minus-IsInt64 (suc n) h = omega (arith, h)

positive-IsInt64 : (p : Parsed) → IsInt64 (positive p).0
positive-IsInt64 (number n) = elim (Bool-cases (leb (2 ^ 63) n)) [
  | inl e ↦ rw e (omega arith)
  | inr e ↦ let h : n < 2 ^ 63 = ground arith in rw e h
]
positive-IsInt64 syntax_error = omega arith
positive-IsInt64 range_error = omega arith

negative-IsInt64 : (p : Parsed) → IsInt64 (negative p).0
negative-IsInt64 (number n) = elim (Bool-cases (ltb (2 ^ 63) n)) [
  | inl e ↦ rw e (minus-IsInt64 (2 ^ 63) (omega arith))
  | inr e ↦ let h : n ≤ 2 ^ 63 = ground arith in rw e (minus-IsInt64 n h)
]
negative-IsInt64 syntax_error = omega arith
negative-IsInt64 range_error = minus-IsInt64 (2 ^ 63) (omega arith)

pub atoi-IsInt64 : (t : List ℕ) → IsInt64 (atoi t).0
unfolding atoi
atoi-IsInt64 [] = omega arith
atoi-IsInt64 (c ∷ cs) = ground (
  arith,
  negative-IsInt64 (parse_uint cs),
  positive-IsInt64 (parse_uint cs),
  positive-IsInt64 (parse_uint (c ∷ cs)),
)
