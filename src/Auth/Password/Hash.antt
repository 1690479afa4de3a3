-- ===== src/Auth/Password/Hash.antt =====
-- HashPassword and VerifyPassword of internal/auth/password.go. A Go string is a list of bytes; a
-- password is given by its code points, which determine its bytes. Argon2 and base64 are parameters.
-- What an error quotes is left out of its text.
use mckmt.Base.{
  ℕ, ◌+◌, ◌-◌, ◌*◌, ◌/◌, ◌%◌, ◌^◌, zero, suc, Bool, true, false, ◌&&◌, ◌||◌, not, Option, none,
  some, List, [], ◌∷◌, ◌++◌, Result, ok, err, failed, if◌then◌else◌, ◌==◌, ltb, leb, length,
  list_eq,
}

abbrev pub Bytes : Type 0
Bytes = List ℕ

-- DefaultPasswordConfig
pub record PasswordConfig : Type 0 where
  pub memory : ℕ
  pub iterations : ℕ
  pub parallelism : ℕ
  pub key_length : ℕ

abbrev pub default_config : PasswordConfig
default_config = record { memory = 65536; iterations = 4; parallelism = 2; key_length = 32 }

-- argon2.IDKey (of a password, a salt, the iterations, the memory, the parallelism and the length of
-- the key), and base64.RawStdEncoding.
pub record Crypto : Type 0 where
  pub id_key : List ℕ → Bytes → ℕ → ℕ → ℕ → ℕ → Bytes
  pub encode : Bytes → Bytes
  pub decode : Bytes → Option Bytes

-- argon2.Version
abbrev pub version : ℕ
version = 19

-- %d
unfoldable pub digits : ℕ → ℕ → Bytes
digits zero n = []
digits (suc fuel) n =
    let more = digits fuel (n / 10) in
    if ltb n 10 then (48 + n) ∷ [] else more ++ (48 + n % 10) ∷ []

abbrev pub decimal : ℕ → Bytes
decimal n = digits (suc n) n

-- '$' and "argon2id"
abbrev pub dollar : ℕ
dollar = 36

abbrev pub argon2id : Bytes
argon2id = 97 ∷ 114 ∷ 103 ∷ 111 ∷ 110 ∷ 50 ∷ 105 ∷ 100 ∷ []

-- The third and the fourth part, "v=%d" and "m=%d,t=%d,p=%d".
abbrev pub version_part : Bytes
version_part = 118 ∷ 61 ∷ decimal version

abbrev pub parameter_part : ℕ → ℕ → ℕ → Bytes
parameter_part m t p =
    109 ∷ 61 ∷ (decimal m ++ (44 ∷ 116 ∷ 61 ∷ (decimal t ++ (44 ∷ 112 ∷ 61 ∷ decimal p))))

-- strings.Split at one byte
unfoldable pub split : ℕ → Bytes → List Bytes
split c [] = [] ∷ []
split c (x ∷ xs) =
    let rest = split c xs in
    if x == c then [] ∷ rest else elim rest [ [] ↦ (x ∷ []) ∷ [] | p ∷ ps ↦ (x ∷ p) ∷ ps ]

-- What Sscanf takes for a space at the front of a text, in bytes: 0 where there is none. A line
-- feed is no space here.
unfoldable pub space_width : Bytes → ℕ
space_width (x ∷ y ∷ z ∷ xs) =
    if (x == 32) || (x == 9) || (x == 11) || (x == 12) || (x == 13)
    then 1
    else if (x == 194) && ((y == 133) || (y == 160))
    then 2
    else if ((x == 225) && (y == 154) && (z == 128))
        || ((x == 226)
            && (((y == 128) && ((leb 128 z && leb z 138) || (z == 168) || (z == 169) || (z == 175)))
                || ((y == 129) && (z == 159))))
        || ((x == 227) && (y == 128) && (z == 128))
    then 3
    else 0
space_width (x ∷ y ∷ []) =
    if (x == 32) || (x == 9) || (x == 11) || (x == 12) || (x == 13)
    then 1
    else if (x == 194) && ((y == 133) || (y == 160))
    then 2
    else 0
space_width (x ∷ []) = if (x == 32) || (x == 9) || (x == 11) || (x == 12) || (x == 13) then 1 else 0
space_width [] = 0

-- SkipSpace, behind the number of bytes that are left of a space: a line feed is an error.
unfoldable pub skip_space : ℕ → Bytes → Option Bytes
unfolding space_width
skip_space n [] = some []
skip_space (suc n) (x ∷ xs) = skip_space n xs
skip_space zero (x ∷ xs) =
    let n = space_width (x ∷ xs) in
    let rest = skip_space (n - 1) xs in
    if x == 10 then none else if n == 0 then some (x ∷ xs) else rest

abbrev pub is_digit : ℕ → Bool
is_digit c = leb 48 c && leb c 57

unfoldable pub read_digits : ℕ → Bytes → ℕ × Bytes
read_digits n [] = (n, [])
read_digits n (x ∷ xs) =
    let rest = read_digits (n * 10 + (x - 48)) xs in if is_digit x then rest else (n, x ∷ xs)

-- At least one digit; the rest is left. A number from the limit on is refused.
unfoldable pub scan_digits : ℕ → Bytes → Option (ℕ × Bytes)
scan_digits limit [] = none
scan_digits limit (x ∷ xs) =
    let (n, rest) = read_digits 0 (x ∷ xs) in
    if is_digit x then (if ltb n limit then some (n, rest) else none) else none

-- The %d of Sscanf for an unsigned integer: spaces, and then digits.
unfoldable pub scan_number : ℕ → Bytes → Option (ℕ × Bytes)
unfolding scan_digits skip_space
scan_number limit s = elim (skip_space 0 s) [ none ↦ none | some t ↦ scan_digits limit t ]

-- The %d of Sscanf for an int, with whether the number is negative: spaces, an optional sign, digits.
unfoldable pub signed_digits : Bytes → Option (Bool × ℕ)
unfolding scan_digits
signed_digits [] = none
signed_digits (x ∷ xs) =
    if x == 45
    then elim (scan_digits (2 ^ 63 + 1) xs) [ none ↦ none | some (n, _) ↦ some (true, n) ]
    else elim (scan_digits (2 ^ 63) (if x == 43 then xs else x ∷ xs)) [
      | none ↦ none
      | some (n, _) ↦ some (false, n)
    ]

unfoldable pub scan_int : Bytes → Option (Bool × ℕ)
unfolding signed_digits skip_space
scan_int s = elim (skip_space 0 s) [ none ↦ none | some t ↦ signed_digits t ]

-- A literal of the format.
unfoldable pub literal : Bytes → Bytes → Option Bytes
literal [] s = some s
literal (c ∷ cs) [] = none
literal (c ∷ cs) (x ∷ xs) = if c == x then literal cs xs else none

-- A literal, and then a number.
unfoldable pub field : Bytes → ℕ → Bytes → Option (ℕ × Bytes)
unfolding literal scan_number
field name limit s = elim (literal name s) [ none ↦ none | some rest ↦ scan_number limit rest ]

-- Sscanf of "v=%d" into an int, and of "m=%d,t=%d,p=%d" into two uint32 and a uint8.
unfoldable pub scan_version : Bytes → Option (Bool × ℕ)
unfolding literal scan_int
scan_version s = elim (literal (118 ∷ 61 ∷ []) s) [ none ↦ none | some rest ↦ scan_int rest ]

unfoldable pub scan_parameters : Bytes → Option (ℕ × ℕ × ℕ)
unfolding field
scan_parameters s = elim (field (109 ∷ 61 ∷ []) (2 ^ 32) s) [
  | none ↦ none
  | some (m, s₁) ↦ elim (field (44 ∷ 116 ∷ 61 ∷ []) (2 ^ 32) s₁) [
    | none ↦ none
    | some (t, s₂) ↦ elim (field (44 ∷ 112 ∷ 61 ∷ []) (2 ^ 8) s₂) [
      | none ↦ none
      | some (p, _) ↦ some (m, t, p)
    ]
  ]
]

module _ (crypto : Crypto) (config : PasswordConfig) where
  -- `salt` is what rand.Read gives, `none` where it fails.
  unfoldable pub hash_password : Option Bytes → List ℕ → Result Bytes
  hash_password none password = err (failed "failed to generate salt")
  hash_password (some salt) password =
      let hash =
        crypto.id_key password salt config.iterations config.memory config.parallelism
          config.key_length in
      ok (
        dollar
        ∷ (argon2id
            ++ (dollar
                ∷ (version_part
                    ++ (dollar
                        ∷ (parameter_part config.memory config.iterations config.parallelism
                            ++ (dollar
                                ∷ (crypto.encode salt ++ (dollar ∷ crypto.encode hash)))))))))

  -- The part behind the split, for six parts of which the first is not looked at.
  unfoldable pub verify_parts : List ℕ → Bytes → Bytes → Bytes → Bytes → Bytes → Result Bool
  unfolding scan_version scan_parameters
  verify_parts password algorithm v parameters salt_text hash_text =
      if not (list_eq algorithm argon2id)
      then err (failed "unsupported algorithm")
      else elim (scan_version v) [
        | none ↦ err (failed "invalid version")
        | some (negative, n) ↦
            if negative || not (n == version)
            then err (failed "incompatible version")
            else elim (scan_parameters parameters) [
              | none ↦ err (failed "invalid parameters")
              | some (m, t, p) ↦ elim (crypto.decode salt_text) [
                | none ↦ err (failed "failed to decode salt")
                | some salt ↦ elim (crypto.decode hash_text) [
                  | none ↦ err (failed "failed to decode hash")
                  | some hash ↦ ok (list_eq hash (crypto.id_key password salt t m p (length hash)))
                ]
              ]
            ]
      ]

  unfoldable pub verify_password : List ℕ → Bytes → Result Bool
  unfolding verify_parts split
  verify_password password encoded = elim (split dollar encoded) [
    | [] ↦ err (failed "invalid hash format")
    | _ ∷ a ∷ v ∷ p ∷ s ∷ h ∷ [] ↦ verify_parts password a v p s h
    | _ ∷ _ ↦ err (failed "invalid hash format")
  ]
