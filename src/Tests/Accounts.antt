-- ===== src/Tests/Accounts.antt =====
-- The accounts (Accounts, Auth, AuthService) on the samples of Tests/Setups.
use mckmt.Base.{
  ◌≡◌, refl, ◌↔◌, true, false, some, [], ◌∷◌, ok, err, failed, if◌then◌else◌, ltb, arith,
}
use mckmt.Repo.Store.{find}
use mckmt.Accounts.{Account, Directory, AuthSource}
use mckmt.Accounts.UserTable.{
  create, by_username, by_email, get_by_id, get_by_username, get_by_email,
}
use mckmt.Auth.{User}
use mckmt.Auth.Password.{validate_password_strength}
use mckmt.Auth.Password.Hash.{digits, hash_password, verify_password}
use mckmt.Auth.Password.Roundtrip.{Fits, verify-hash}
use mckmt.Auth.Tokens.{generate_token, refresh_token, validate_token, generate-validate}
use mckmt.Auth.RoleMapper.{contains, map_oidc_roles}
use mckmt.Auth.RoleMapper.Contains.{IsIn, contains_iff}
use mckmt.Auth.RoleMapper.Targets.{IsMapped, map_oidc_roles-IsMapped}
use mckmt.AuthService.{LoginResponse, login, named_role}
use mckmt.AuthService.Register.{store_account, register}
use mckmt.AuthService.Refresh.{refresh_tokens, find_account}
use mckmt.AuthService.Logins.{
  IsStored, IsAdmitted, IsIdentified, login-IsAdmitted, IsStored-read, login_accepts,
}
use mckmt.AuthService.Registration.{login-register}
use mckmt.AuthService.Sessions.{IsRegistered, refresh_tokens-IsRegistered}
use mckmt.Tests.{env}
use mckmt.Tests.Setups.{
  crypto, crypto-IsCrypto, config, ada, jwt, jwt-IsJwt, order, setup, signing, password, ada_row,
  ada_account, directory, hash,
}

hashed : hash_password crypto config (some (9 ∷ 36 ∷ [])) password ≡ ok hash
unfolding hash_password digits
hashed = refl

config-Fits : Fits config
config-Fits = (ground arith, ground arith, ground arith)

verify-hash_example :
    (verify_password crypto config (80 ∷ []) hash ≡ ok false)
    × (verify_password crypto config password hash ≡ ok true)
verify-hash_example =
    verify-hash crypto crypto-IsCrypto config config-Fits (9 ∷ 36 ∷ []) password hash (80 ∷ [])
      hashed

generate-validate_example :
    (validate_token jwt setup.manager 1011 "a"
      ≡ (if ltb 1011 1011 then ok ada else err (failed "failed to parse token")))
    × (validate_token jwt setup.manager 1011 "d"
        ≡ (if ltb 1011 1012 then ok ada else err (failed "failed to parse token")))
unfolding generate_token refresh_token validate_token
generate-validate_example =
    generate-validate jwt setup.manager "7" "9" ada 1001 1002 1011 1011 "a" "d" jwt-IsJwt refl
      (ground arith) (ground arith) refl (ground arith) (ground arith)

contains_iff_example : (contains (2 ∷ 3 ∷ 4 ∷ []) (3 ∷ []) ≡ true) ↔ IsIn (2 ∷ 3 ∷ 4 ∷ []) (3 ∷ [])
contains_iff_example = contains_iff (2 ∷ 3 ∷ 4 ∷ []) (3 ∷ [])

map_oidc_roles-IsMapped_example :
    IsMapped (map_oidc_roles env setup.sort_roles order ("ops" ∷ "root" ∷ []) (directory [] 0))
map_oidc_roles-IsMapped_example =
    map_oidc_roles-IsMapped env setup.sort_roles order (λ n p. refl) ("ops" ∷ "root" ∷ [])
      (directory [] 0)

ada-IsStored : IsStored setup "ada" (ada_account hash) (directory (ada_row hash ∷ []) 0)
unfolding by_username
ada-IsStored = (ada_row hash, refl, refl)

ada-IsAdmitted : IsAdmitted setup password (ada_account hash)
ada-IsAdmitted = (refl, ground arith, ground arith, verify-hash_example.1)

abbrev d : Directory
d = directory (ada_row hash ∷ []) 0

ada_login : (a : LoginResponse) × ((login setup "ada" password "ip" "agent" d).0 ≡ ok a)
unfolding generate_token
ada_login =
    login_accepts setup "ada" password "ip" "agent" d (ada_account hash) "a" "b"
      (IsStored-read setup "ada" (ada_account hash) d refl ada-IsStored) ada-IsAdmitted refl

login-IsAdmitted_example :
    (u : Account) × IsStored setup "ada" u d
    × IsAdmitted setup password u
    × IsIdentified setup u 1001 ada_login.0.access_token
    × IsIdentified setup u 1001 ada_login.0.refresh_token
login-IsAdmitted_example =
    login-IsAdmitted setup "ada" password "ip" "agent" d ada_login.0 jwt-IsJwt ada_login.1

refresh_tokens-IsRegistered_example :
    (claims : User) × (u : Account) × (validate_token setup.jwt setup.manager 1001 "a" ≡ ok claims)
    × IsRegistered setup claims.id u (directory (ada_row hash ∷ []) 1)
    × (u.active ≡ true)
    × IsIdentified setup u 1002 "c"
    × IsIdentified setup u 1002 "d"
unfolding refresh_tokens find_account get_by_id find validate_token generate_token
refresh_tokens-IsRegistered_example =
    refresh_tokens-IsRegistered setup "a" "ip" "agent" (directory (ada_row hash ∷ []) 1) "c" "d"
      jwt-IsJwt refl

-- A registration in a directory without users.
abbrev empty : Directory
empty = directory [] 0

abbrev registered_account : Account
registered_account = record {
  id = 102;
  username = "ada";
  email = "ada@b.c";
  password_hash = hash;
  auth_source = AuthSource.password;
  active = true;
  created_at = 1002;
  updated_at = 1002;
  roles = named_role "viewer" ∷ [];
}

registered :
    (register signing "ada" "ada@b.c" password "ip" "agent" empty).0 ≡ ok registered_account
unfolding register store_account get_by_username get_by_email by_username by_email create
    hash_password digits validate_password_strength
registered = refl

login-register_example :
    (a : LoginResponse) × ((login signing "ada" password "ip" "agent"
        (register signing "ada" "ada@b.c" password "ip" "agent" empty).1).0
      ≡ ok a)
login-register_example =
    login-register signing "ada" "ada@b.c" password "ip" "agent" "ip" "agent" empty
      registered_account crypto-IsCrypto config-Fits (λ names e k. ground arith)
      (λ c e. ground arith) registered refl
