-- ===== src/Auth/Password/Scan.antt =====
-- The parts of a hash, split and scanned (Auth/Password/Hash).
use mckmt.Base.{
  ℕ, ◌+◌, ◌-◌, ◌*◌, ◌/◌, ◌%◌, ◌^◌, ◌≤◌, ◌<◌, zero, suc, ◌≡◌, refl, sym, ap, ◌∙◌, ◌≢◌, Bool, true,
  false, not, some, [], ◌∷◌, ◌++◌, ltb, All, arith, Bool-cases, inl, inr,
}
use mckmt.Auth.Password.Hash.{
  Bytes, version, digits, decimal, dollar, version_part, parameter_part, split, is_digit,
  read_digits, scan_digits, scan_number, space_width, skip_space, signed_digits, scan_int, literal,
  field, scan_version, scan_parameters,
}

pub split_part :
    (a rest : Bytes)
    → All (λ x. x ≢ dollar) a
    → split dollar (a ++ (dollar ∷ rest)) ≡ a ∷ split dollar rest
unfolding split
split_part [] rest h = refl
split_part (x ∷ a) rest h = ground (arith, split_part a rest h.1)

pub split_last : (a : Bytes) → All (λ x. x ≢ dollar) a → split dollar a ≡ a ∷ []
unfolding split
split_last [] h = refl
split_last (x ∷ a) h = ground (arith, split_last a h.1)

-- The number that digits stand for, behind a number.
value : ℕ → Bytes → ℕ
value n [] = n
value n (x ∷ xs) = value (n * 10 + (x - 48)) xs

value-snoc : (n d : ℕ) (xs : Bytes) → value n (xs ++ d ∷ []) ≡ value n xs * 10 + (d - 48)
unfolding value
value-snoc n d [] = refl
value-snoc n d (x ∷ xs) = value-snoc (n * 10 + (x - 48)) d xs

abbrev AreDigits : Bytes → Type 0
AreDigits = All (λ x. (48 ≤ x) × (x ≤ 57))

snoc-AreDigits :
    (d : ℕ) (xs : Bytes) → (48 ≤ d) × (d ≤ 57) → AreDigits xs → AreDigits (xs ++ d ∷ [])
snoc-AreDigits d [] h v = (h, tt)
snoc-AreDigits d (x ∷ xs) h v = (v.0, snoc-AreDigits d xs h v.1)

digits-AreDigits : (f n : ℕ) → AreDigits (digits f n)
unfolding digits
digits-AreDigits zero n = tt
digits-AreDigits (suc f) n = elim (Bool-cases (ltb n 10)) [
  | inl e ↦ rw e ((omega arith, ground arith), tt)
  | inr e ↦ rw e (
      snoc-AreDigits (48 + n % 10) (digits f (n / 10)) (omega arith, omega arith)
        (digits-AreDigits f (n / 10)))
]

value-digits : (f n : ℕ) → n < f → value 0 (digits f n) ≡ n
unfolding digits value
value-digits zero n h = absurd (omega (arith, h))
value-digits (suc f) n h = elim (Bool-cases (ltb n 10)) [
  | inl e ↦ rw e (omega arith)
  | inr e ↦
      let large : 10 ≤ n = ground arith in
      let less : n / 10 < f = omega (arith, large, h) in
      rw e (
        value-snoc 0 (48 + n % 10) (digits f (n / 10))
        ∙ omega (arith, value-digits f (n / 10) less))
]

-- No digit follows.
abbrev stops : Bytes → Bool
stops [] = true
stops (x ∷ xs) = not (is_digit x)

read_digits-value :
    (n : ℕ) (ds rest : Bytes)
    → AreDigits ds
    → stops rest ≡ true
    → read_digits n (ds ++ rest) ≡ (value n ds, rest)
unfolding read_digits value
read_digits-value n [] [] v s = refl
read_digits-value n [] (x ∷ rest) v s = ground arith
read_digits-value n (d ∷ ds) rest v s =
    ground (arith, read_digits-value (n * 10 + (d - 48)) ds rest v.1 s)

-- A digit is no space.
skip-digit :
    (d : ℕ) (rest : Bytes) → (48 ≤ d) × (d ≤ 57) → skip_space 0 (d ∷ rest) ≡ some (d ∷ rest)
unfolding skip_space space_width
skip-digit d [] h = ground arith
skip-digit d (x ∷ []) h = ground arith
skip-digit d (x ∷ y ∷ rest) h = ground arith

scan-digits :
    (limit : ℕ) (ds rest : Bytes)
    → ds ≢ []
    → AreDigits ds
    → value 0 ds < limit
    → stops rest ≡ true
    → scan_number limit (ds ++ rest) ≡ some (value 0 ds, rest)
unfolding scan_number scan_digits
scan-digits limit [] rest n v l s = absurd (n refl)
scan-digits limit (d ∷ ds) rest n v l s =
    ground (arith, skip-digit d (ds ++ rest) v.0, read_digits-value 0 (d ∷ ds) rest v s)

decimal-nonempty : (n : ℕ) → decimal n ≢ []
unfolding digits
decimal-nonempty n h = elim (Bool-cases (ltb n 10)) [
  | inl e ↦ ground arith
  | inr e ↦ nonempty (digits n (n / 10)) (ground arith)
]
  where
    nonempty : (xs : Bytes) → xs ++ (48 + n % 10) ∷ [] ≢ []
    nonempty [] p = ground arith
    nonempty (x ∷ xs) p = ground arith

scan-decimal :
    (limit n : ℕ) (rest : Bytes)
    → n < limit
    → stops rest ≡ true
    → scan_number limit (decimal n ++ rest) ≡ some (n, rest)
scan-decimal limit n rest l s =
    let v : value 0 (decimal n) ≡ n = value-digits (suc n) n (omega arith) in
    scan-digits limit (decimal n) rest (decimal-nonempty n) (digits-AreDigits (suc n) n)
      (omega (arith, v, l)) s
    ∙ ap (λ k. some (k, rest)) v

pub append-plain :
    (a b : Bytes)
    → All (λ x. x ≢ dollar) a
    → All (λ x. x ≢ dollar) b
    → All (λ x. x ≢ dollar) (a ++ b)
append-plain [] b h k = k
append-plain (x ∷ a) b h k = (h.0, append-plain a b h.1 k)

digits-plain : (ds : Bytes) → AreDigits ds → All (λ x. x ≢ dollar) ds
digits-plain [] v = tt
digits-plain (d ∷ ds) v = (ground arith, digits-plain ds v.1)

pub decimal-plain : (n : ℕ) → All (λ x. x ≢ dollar) (decimal n)
decimal-plain n = digits-plain (decimal n) (digits-AreDigits (suc n) n)

append_nil : (xs : Bytes) → xs ++ [] ≡ xs
append_nil [] = refl
append_nil (x ∷ xs) = ap (λ l. x ∷ l) (append_nil xs)

pub scan_version-part : scan_version version_part ≡ some (false, version)
unfolding scan_version literal scan_int skip_space space_width signed_digits scan_digits read_digits
    digits
scan_version-part = refl

pub scan_parameters-part :
    (m t p : ℕ)
    → m < 2 ^ 32
    → t < 2 ^ 32
    → p < 2 ^ 8
    → scan_parameters (parameter_part m t p) ≡ some (m, t, p)
unfolding scan_parameters field literal
scan_parameters-part m t p a b c =
    let s₂ : scan_number (2 ^ 8) (decimal p) ≡ some (p, []) =
      ap (scan_number (2 ^ 8)) (sym (append_nil (decimal p))) ∙ scan-decimal (2 ^ 8) p [] c refl in
    let s₁ = scan-decimal (2 ^ 32) t (44 ∷ 112 ∷ 61 ∷ decimal p) b refl in
    let s₀ =
      scan-decimal (2 ^ 32) m (44 ∷ 116 ∷ 61 ∷ (decimal t ++ (44 ∷ 112 ∷ 61 ∷ decimal p))) a refl in
    ground (arith, s₀, s₁, s₂)
