-- ===== src/Tests/Access.antt =====
-- Tokens, roles and permissions (Auth): a user 7 with one role, which may read clusters.
use mckmt.Base.{
  arith, ◌≤◌, ◌+◌, filter, ◌≢◌, ℕ, String, ◌≡◌, ◌↔◌, ◌<◌, true, false, Option, none, some, List, [],
  ◌∷◌, ◌++◌, Result, ok, err, Error, failed, if◌then◌else◌, str_eq, length, Some,
}
use mckmt.Auth.{User}
use mckmt.Auth.Password.{
  byte_length, validate_password_strength, IsLower, IsUpper, IsDigit, IsSpecial,
  validate_password_strength_iff,
}
use mckmt.Auth.Permissions.{Grants, check_user_permission, IsGranted}
use mckmt.Auth.Strategies.{database_rbac, StrategyConfig, StrategyType}
use mckmt.Auth.Middleware.{Bytes, proceeds, bytes_eq, bearer_prefix, protected_route}
use mckmt.Http.Pipeline.{Request, answered, serve_all, leaks, in_flight_leaks}
use mckmt.Auth.Guards.{protected_route_iff}

abbrev user : User
user = record { id = "7"; username = "ann"; email = "ann@b.c"; roles = "operator" ∷ [] }

abbrev grants : Grants
grants = record {
  permissions =
      record { id = 1; name = "clusters"; resource = "clusters"; action = "*" }
      ∷ record { id = 2; name = "all"; resource = "*"; action = "*" }
      ∷ [];
  role_permissions = (20, 1) ∷ (30, 2) ∷ [];
  user_roles = (7, 20) ∷ (8, 30) ∷ [];
}

-- The token "ok" is valid, and no other.
abbrev validate : Bytes → Result User
validate t = if bytes_eq t (111 ∷ 107 ∷ []) then ok user else err (failed "invalid token")

abbrev parse : String → Option ℕ
parse s = if str_eq s "7" then some 7 else none

abbrev header : Bytes
header = bearer_prefix ++ 111 ∷ 107 ∷ []

abbrev config : StrategyConfig
config = record {
  strategy_type = StrategyType.database_rbac;
  permission_repo = some (check_user_permission false grants);
  casbin_enforcer = none;
}

protected_route_iff_example :
    (protected_route parse validate
        (database_rbac (check_user_permission false grants))
        "clusters"
        "read"
        header
      ≡ proceeds tt)
    ↔ ((t : Bytes) × (u : User) × (i : ℕ) × (header ≡ bearer_prefix ++ t)
        × (validate t ≡ ok u)
        × (parse u.id ≡ some i)
        × IsGranted grants i "clusters" "read")
protected_route_iff_example = protected_route_iff validate header parse grants "clusters" "read"

-- "Passw0rd!"
abbrev password : List ℕ
password = 80 ∷ 97 ∷ 115 ∷ 115 ∷ 119 ∷ 48 ∷ 114 ∷ 100 ∷ 33 ∷ []

validate_password_strength_iff_example : (validate_password_strength password ≡ ok tt) ↔ (
    (8 ≤ byte_length password)
    × (byte_length password ≤ 128)
    × Some IsLower password
    × Some IsUpper password
    × Some IsDigit password
    × Some IsSpecial password)
validate_password_strength_iff_example = validate_password_strength_iff password

abbrev short_token : Request
short_token = record {
  is_protected = true;
  method = "GET";
  authorization = bearer_prefix ++ 120 ∷ [];
}

abbrev requests : List Request
requests =
    record { is_protected = false; method = "POST"; authorization = bearer_prefix ++ 120 ∷ [] }
    ∷ short_token
    ∷ record { is_protected = true; method = "GET"; authorization = header }
    ∷ short_token
    ∷ []

in_flight_leaks_example :
    ((serve_all true validate
        (λ r. answered 200)
        (λ u. answered 200)
        requests
        (record { in_flight = 0; totals = [] })).in_flight
      ≡ 0 + length (filter (leaks validate (λ r. answered 200) (λ u. answered 200)) requests))
    × ((leaks validate (λ r. answered 200) (λ u. answered 200) short_token ≡ true) ↔ (
        (short_token.method ≢ "OPTIONS")
        × (short_token.is_protected ≡ true)
        × ((t : Bytes) × (e : Error) × (short_token.authorization ≡ bearer_prefix ++ t)
            × (validate t ≡ err e)
            × (length t < 50))))
in_flight_leaks_example =
    in_flight_leaks validate (λ r. answered 200) (λ u. answered 200) requests
      (record { in_flight = 0; totals = [] }) short_token (λ r h. ground arith)
      (λ u h. ground arith)
