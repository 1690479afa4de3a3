-- ===== src/Tests/Setups.antt =====
-- Samples of the parameters of the accounts: a base64, an Argon2 and a JWT library that are simple
-- functions and do what the theorems ask of them.
use mckmt.Base.{
  ℕ, ◌+◌, ◌-◌, ◌≤◌, ◌<◌, ◌≡◌, refl, ◌≢◌, zero, suc, String, Bool, true, false, ◌&&◌, Option, none,
  some, List, [], ◌∷◌, ◌++◌, map, if◌then◌else◌, ◌==◌, ==_iff, ltb, leb, length, All, str_eq,
  str_eq_iff, arith, Bool-cases, inl, inr,
}
use mckmt.Accounts.{AuthSource, Account, UserRow, Directory, RolesCodec}
use mckmt.AgentServer.State.{Uuid}
use mckmt.Auth.{User}
use mckmt.Auth.Password.Hash.{Bytes, PasswordConfig, Crypto, dollar}
use mckmt.Auth.Password.Roundtrip.{IsCrypto}
use mckmt.Auth.RoleMapper.{Mappings, role_mappings}
use mckmt.Auth.Tokens.{Claims, Jwt, IsJwt}
use mckmt.AuthService.{OidcUserInfo, Setup, named_role, role_name}
use mckmt.Tests.{env}

-- The key is the password and the salt, cut or filled to its length; the code of a byte skips '$'.
abbrev pad : ℕ → Bytes → Bytes
pad zero b = []
pad (suc n) [] = 0 ∷ pad n []
pad (suc n) (x ∷ xs) = x ∷ pad n xs

length-pad : (n : ℕ) (b : Bytes) → length (pad n b) ≡ n
length-pad zero b = refl
length-pad (suc n) [] = omega (arith, length-pad n [])
length-pad (suc n) (x ∷ xs) = omega (arith, length-pad n xs)

abbrev code_byte : ℕ → ℕ
code_byte x = if ltb x 36 then x else x + 1

abbrev read_byte : ℕ → ℕ
read_byte x = if ltb x 36 then x else x - 1

read-code : (b : Bytes) → map read_byte (map code_byte b) ≡ b
read-code [] = refl
read-code (x ∷ xs) = ground (arith, read-code xs)

code-plain : (b : Bytes) → All (λ x. x ≢ dollar) (map code_byte b)
code-plain [] = tt
code-plain (x ∷ xs) = ground (arith, code-plain xs)

abbrev pub crypto : Crypto
crypto = record {
  id_key = λ password salt t m p n. pad n (password ++ salt);
  encode = map code_byte;
  decode = λ b. some (map read_byte b);
}

pub crypto-IsCrypto : IsCrypto crypto
crypto-IsCrypto = record {
  decodes = λ b. rw (read-code b) refl;
  plain = code-plain;
  key_size = λ password salt t m p n. length-pad n (password ++ salt);
}

abbrev pub config : PasswordConfig
config = record { memory = 8; iterations = 1; parallelism = 1; key_length = 12 }

-- One user, and the tokens "a" to "d" for the claims of two ids at 1001 and at 1002.
abbrev pub ada : User
ada = record { id = "7"; username = "ada"; email = "ada@b.c"; roles = "viewer" ∷ [] }

abbrev pub claims_at : String → ℕ → Claims
claims_at i now = record {
  id = i;
  user = ada;
  issued_at = now;
  expires_at = now + 10;
  not_before = now - 1;
}

abbrev is_viewer_only : List String → Bool
is_viewer_only (r ∷ []) = str_eq r "viewer"
is_viewer_only _ = false

abbrev is_at : String → ℕ → Claims → Bool
is_at i now c =
    str_eq c.id i
    && str_eq c.user.id "7"
    && str_eq c.user.username "ada"
    && str_eq c.user.email "ada@b.c"
    && is_viewer_only c.user.roles
    && (c.issued_at == now)
    && (c.expires_at == now + 10)
    && (c.not_before == now - 1)

viewer_only : (rs : List String) → is_viewer_only rs ≡ true → rs ≡ "viewer" ∷ []
viewer_only [] h = ground arith
viewer_only (r ∷ []) h = ground (arith, str_eq_iff r "viewer")
viewer_only (r ∷ s ∷ rs) h = ground arith

at_claims : (i : String) (now : ℕ) (c : Claims) → is_at i now c ≡ true → c ≡ claims_at i now
at_claims i now c h = ground (
  arith,
  str_eq_iff c.id i,
  str_eq_iff c.user.id "7",
  str_eq_iff c.user.username "ada",
  str_eq_iff c.user.email "ada@b.c",
  viewer_only c.user.roles,
  ==_iff c.issued_at now,
  ==_iff c.expires_at (now + 10),
  ==_iff c.not_before (now - 1),
)

abbrev within : ℕ → Claims → Option Claims
within m c = if leb c.not_before m && ltb m c.expires_at then some c else none

abbrev token_claims : String → Option Claims
token_claims t =
    if str_eq t "a"
    then some (claims_at "7" 1001)
    else if str_eq t "b"
    then some (claims_at "9" 1001)
    else if str_eq t "c"
    then some (claims_at "7" 1002)
    else if str_eq t "d"
    then some (claims_at "9" 1002)
    else none

abbrev token_of : Claims → Option String
token_of c =
    if is_at "7" 1001 c
    then some "a"
    else if is_at "9" 1001 c
    then some "b"
    else if is_at "7" 1002 c
    then some "c"
    else if is_at "9" 1002 c
    then some "d"
    else none

abbrev pub jwt : Jwt
jwt = record {
  sign = λ key c. token_of c;
  parse = λ key m t. elim (token_claims t) [ none ↦ none | some c ↦ within m c ];
}

token_of-claims : (c : Claims) (t : String) → token_of c ≡ some t → token_claims t ≡ some c
token_of-claims c t h = elim (Bool-cases (is_at "7" 1001 c)) [
  | inl e ↦ let same = at_claims "7" 1001 c e in let named : t ≡ "a" = ground arith in cc
  | inr e ↦ elim (Bool-cases (is_at "9" 1001 c)) [
    | inl f ↦ let same = at_claims "9" 1001 c f in let named : t ≡ "b" = ground arith in cc
    | inr f ↦ elim (Bool-cases (is_at "7" 1002 c)) [
      | inl g ↦ let same = at_claims "7" 1002 c g in let named : t ≡ "c" = ground arith in cc
      | inr g ↦ elim (Bool-cases (is_at "9" 1002 c)) [
        | inl k ↦ let same = at_claims "9" 1002 c k in let named : t ≡ "d" = ground arith in cc
        | inr k ↦ ground arith
      ]
    ]
  ]
]

within_accepts : (m : ℕ) (c : Claims) → c.not_before ≤ m → m < c.expires_at → within m c ≡ some c
within_accepts m c a b = ground arith

within_expires : (m : ℕ) (c : Claims) → c.expires_at ≤ m → within m c ≡ none
within_expires m c a = ground arith

pub jwt-IsJwt : IsJwt jwt
jwt-IsJwt = record {
  accepts = λ key c t m h a b. rw (jwt, token_of-claims c t h) (within_accepts m c a b);
  expires = λ key c t m h a. rw (jwt, token_of-claims c t h) (within_expires m c a);
}

-- The ids 7 and 9 have a text; the provider knows Ada, under an id or under another subject.
abbrev pub uuid : Uuid
uuid = record {
  to_string = λ n. if n == 7 then "7" else "9";
  parse = λ s. if str_eq s "7" then some 7 else if str_eq s "9" then some 9 else none;
}

abbrev pub codec : RolesCodec
codec = record { encode = λ rs. some (map role_name rs); decode = λ ns. some (map named_role ns) }

abbrev pub order : ℕ → Mappings
order _ = role_mappings

abbrev pub subject : String → OidcUserInfo
subject s = record { subject = s; email = "ada@b.c"; roles = "root" ∷ [] }

-- Each new id is that of the call it is made at, behind 100; the library `signs` claims.
abbrev pub setup_with : Jwt → Setup
setup_with signs = record {
  env = env;
  codec = codec;
  sort_roles = λ rs. rs;
  order = order;
  uuid = uuid;
  new_id = λ n. 100 + n;
  token_ids = λ _. (7, 9);
  salt = λ _. some (9 ∷ 36 ∷ []);
  oidc_state = λ _. some "state";
  jwt = signs;
  manager = record { secret_key = "key"; token_duration = 10 };
  crypto = crypto;
  password_config = config;
  oidc = none;
  default_role = "viewer";
  audited = true;
}

abbrev pub setup : Setup
setup = setup_with jwt

-- A library that signs everything.
abbrev pub signing : Setup
signing = setup_with record { sign = λ _ _. some "t"; parse = λ _ _ _. none }

-- "Passw0rd!"
abbrev pub password : List ℕ
password = 80 ∷ 97 ∷ 115 ∷ 115 ∷ 119 ∷ 48 ∷ 114 ∷ 100 ∷ 33 ∷ []

abbrev pub ada_row : Bytes → UserRow
ada_row hash = record {
  id = 7;
  username = "ada";
  email = "ada@b.c";
  password_hash = hash;
  auth_source = AuthSource.password;
  active = true;
  created_at = 900;
  updated_at = 900;
  roles = "viewer" ∷ [];
}

abbrev pub ada_account : Bytes → Account
ada_account hash = record {
  id = 7;
  username = "ada";
  email = "ada@b.c";
  password_hash = hash;
  auth_source = AuthSource.password;
  active = true;
  created_at = 900;
  updated_at = 900;
  roles = named_role "viewer" ∷ [];
}

-- The three roles, a permission of the viewer, and some users.
abbrev pub directory : List UserRow → ℕ → Directory
directory users calls = record {
  users = users;
  roles = record { id = 20; name = "viewer" } ∷ record { id = 30; name = "admin" } ∷ [];
  grants = record {
    permissions = record { id = 1; name = "clusters"; resource = "clusters"; action = "read" } ∷ [];
    role_permissions = (20, 1) ∷ [];
    user_roles = (7, 20) ∷ [];
  };
  audit_logs = [];
  calls = calls;
}

-- The hash of the password with that salt.
abbrev pub hash : Bytes
hash =
    36 ∷ 97 ∷ 114 ∷ 103 ∷ 111 ∷ 110 ∷ 50 ∷ 105 ∷ 100 ∷ 36 ∷ 118 ∷ 61 ∷ 49 ∷ 57 ∷ 36 ∷ 109 ∷ 61 ∷ 56
    ∷ 44 ∷ 116 ∷ 61 ∷ 49 ∷ 44 ∷ 112 ∷ 61 ∷ 49 ∷ 36 ∷ 9 ∷ 37 ∷ 36 ∷ 81 ∷ 98 ∷ 116 ∷ 116 ∷ 120 ∷ 49
    ∷ 115 ∷ 101 ∷ 33 ∷ 9 ∷ 37 ∷ 0 ∷ []
