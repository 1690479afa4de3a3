-- ===== src/Auth/Password.antt =====
-- ValidatePasswordStrength of internal/auth/password.go. A password is valid UTF-8, given by its code
-- points; `len` counts its bytes.
pub mod Hash
pub mod Scan
pub mod Roundtrip
use mckmt.Base.{
  ℕ, ◌+◌, ◌≡◌, ◌↔◌, ◌⊎◌, ◌≤◌, Bool, true, false, not, ◌&&◌, ◌||◌, List, [], ◌∷◌, Result, ok, err,
  failed, if◌then◌else◌, ltb, leb, Some, arith,
}

abbrev width : ℕ → ℕ
width c = if ltb c 128 then 1 else if ltb c 2048 then 2 else if ltb c 65536 then 3 else 4

unfoldable pub byte_length : List ℕ → ℕ
byte_length [] = 0
byte_length (c ∷ cs) = width c + byte_length cs

abbrev between : ℕ → ℕ → ℕ → Bool
between a b c = leb a c && leb c b

abbrev is_lower : ℕ → Bool
is_lower = between 97 122

abbrev is_upper : ℕ → Bool
is_upper = between 65 90

abbrev is_digit : ℕ → Bool
is_digit = between 48 57

abbrev is_special : ℕ → Bool
is_special c = between 33 126 c && not (is_lower c || is_upper c || is_digit c)

-- The four flags of the loop.
pub record Found : Type 0 where
  pub has_lower : Bool
  pub has_upper : Bool
  pub has_digit : Bool
  pub has_special : Bool

-- The `switch` of one character.
abbrev note_char : Found → ℕ → Found
note_char f c =
    if is_lower c
    then record f { has_lower = true }
    else if is_upper c
    then record f { has_upper = true }
    else if is_digit c
    then record f { has_digit = true }
    else if is_special c
    then record f { has_special = true }
    else f

unfoldable pub scan_chars : Found → List ℕ → Found
scan_chars f [] = f
scan_chars f (c ∷ cs) = scan_chars (note_char f c) cs

unfoldable pub validate_password_strength : List ℕ → Result (Unit {0})
unfolding scan_chars byte_length
validate_password_strength password =
    if ltb (byte_length password) 8
    then err (failed "password must be at least 8 characters long")
    else if ltb 128 (byte_length password)
    then err (failed "password must be no more than 128 characters long")
    else (let nothing : Found = record {
      has_lower = false;
      has_upper = false;
      has_digit = false;
      has_special = false;
    } in
        let f = scan_chars nothing password in
        if not f.has_lower
        then err (failed "password must contain at least one lowercase letter")
        else if not f.has_upper
        then err (failed "password must contain at least one uppercase letter")
        else if not f.has_digit
        then err (failed "password must contain at least one digit")
        else if not f.has_special
        then err (failed "password must contain at least one special character")
        else ok tt)

-- The four kinds of characters, by their code points.
abbrev pub IsLower : ℕ → Type 0
IsLower c = (97 ≤ c) × (c ≤ 122)

abbrev pub IsUpper : ℕ → Type 0
IsUpper c = (65 ≤ c) × (c ≤ 90)

abbrev pub IsDigit : ℕ → Type 0
IsDigit c = (48 ≤ c) × (c ≤ 57)

abbrev pub IsSpecial : ℕ → Type 0
IsSpecial c =
    ((33 ≤ c) × (c ≤ 47))
    ⊎ (((58 ≤ c) × (c ≤ 64)) ⊎ (((91 ≤ c) × (c ≤ 96)) ⊎ ((123 ≤ c) × (c ≤ 126))))

scan_chars_lem :
    (cs : List ℕ) (f : Found)
    → (((scan_chars f cs).has_lower ≡ true) ↔ ((f.has_lower ≡ true) ⊎ Some IsLower cs))
      × (((scan_chars f cs).has_upper ≡ true) ↔ ((f.has_upper ≡ true) ⊎ Some IsUpper cs))
      × (((scan_chars f cs).has_digit ≡ true) ↔ ((f.has_digit ≡ true) ⊎ Some IsDigit cs))
      × (((scan_chars f cs).has_special ≡ true) ↔ ((f.has_special ≡ true) ⊎ Some IsSpecial cs))
unfolding scan_chars
scan_chars_lem [] f = ground arith
scan_chars_lem (c ∷ cs) f =
    let rest = scan_chars_lem cs (note_char f c) in
    (ground (arith, rest.0), ground (arith, rest.1), ground (arith, rest.2), ground (arith, rest.3))

-- A password is accepted exactly if it has 8 to 128 bytes and at least one lowercase letter, one
-- uppercase letter, one digit and one special character of ASCII.
pub validate_password_strength_iff :
    (password : List ℕ)
    → (validate_password_strength password ≡ ok tt) ↔ (
        (8 ≤ byte_length password)
        × (byte_length password ≤ 128)
        × Some IsLower password
        × Some IsUpper password
        × Some IsDigit password
        × Some IsSpecial password)
unfolding validate_password_strength
validate_password_strength_iff password =
    let l =
      scan_chars_lem password
        record { has_lower = false; has_upper = false; has_digit = false; has_special = false } in
    ground (arith, l.0, l.1, l.2, l.3)
