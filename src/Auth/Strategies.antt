-- ===== src/Auth/Strategies.antt =====
-- The strategies of authorization: strategies.go, strategy_factory.go and authorization.go of
-- internal/auth.
use mckmt.Base.{
  ℕ, String, ◌≡◌, Bool, true, false, Option, none, some, Result, ok, err, failed, wrapped, arith,
  if◌then◌else◌, str_append,
}
use mckmt.Auth.{User}

-- CasbinEnforcer.Enforce, and CheckUserPermission of the repository.
abbrev pub Enforcer : Type 0
Enforcer = String → String → String → Result Bool

abbrev pub PermissionRepository : Type 0
PermissionRepository = ℕ → String → String → Result Bool

pub data Strategy : Type 0 where
  no_auth : Strategy
  database_rbac : PermissionRepository → Strategy
  casbin : Option Enforcer → Strategy

abbrev pub is_enabled : Strategy → Bool
is_enabled (casbin none) = false
is_enabled _ = true

-- CheckPermission of the three strategies, for the user of the context. A nil enforcer is not
-- called: the service asks IsEnabled first.
unfoldable pub strategy_check : Strategy → Option User → ℕ → String → String → Result Bool
strategy_check no_auth ctx i resource action = ok true
strategy_check (database_rbac repo) ctx i resource action = repo i resource action
strategy_check (casbin _) none i resource action = err (failed "user not found in context")
strategy_check (casbin (some enforce)) (some u) i resource action =
    enforce u.username resource action
strategy_check (casbin none) (some _) i resource action = err (failed "nil enforcer")

-- CheckPermission of AuthorizationService.
unfoldable pub check_permission : Strategy → Option User → ℕ → String → String → Result Bool
unfolding strategy_check
check_permission s ctx i resource action =
    if is_enabled s then strategy_check s ctx i resource action else ok true

-- GetName of the three strategies.
abbrev pub get_name : Strategy → String
get_name no_auth = "no-auth"
get_name (database_rbac _) = "database-rbac"
get_name (casbin _) = "casbin"

-- The service is its strategy: GetStrategy and SetStrategy.
abbrev pub get_strategy : Strategy → Strategy
get_strategy s = s

abbrev pub set_strategy : Strategy → Strategy → Strategy
set_strategy strategy s = strategy

pub data StrategyType : Type 0 where
  no_auth database_rbac casbin : StrategyType
  other : String → StrategyType

pub record StrategyConfig : Type 0 where
  pub strategy_type : StrategyType
  pub permission_repo : Option PermissionRepository
  pub casbin_enforcer : Option Enforcer

unfoldable pub new_authorization_strategy : StrategyConfig → Result Strategy
new_authorization_strategy cfg = elim cfg.strategy_type [
  | no_auth ↦ ok Strategy.no_auth
  | database_rbac ↦ elim cfg.permission_repo [
    | none ↦ err (failed "permission repository is required for database RBAC strategy")
    | some repo ↦ ok (Strategy.database_rbac repo)
  ]
  | casbin ↦ elim cfg.casbin_enforcer [
    | none ↦ err (failed "casbin enforcer is required for casbin strategy")
    | some e ↦ ok (Strategy.casbin (some e))
  ]
  | other t ↦ err (failed (str_append "unknown authorization strategy: " t))
]

unfoldable pub create_authorization_service : StrategyConfig → Result Strategy
unfolding new_authorization_strategy
create_authorization_service cfg = elim (new_authorization_strategy cfg) [
  | err e ↦ err (wrapped "failed to create authorization strategy" e)
  | ok s ↦ ok s
]

-- A service that is created never allows a request for being disabled: each check is the one of the
-- configured strategy, for every user and permission.
pub created_service_checks :
    (cfg : StrategyConfig) (s : Strategy)
    → create_authorization_service cfg ≡ ok s
    → (ctx : Option User) (i : ℕ) (resource action : String)
    → check_permission s ctx i resource action ≡ strategy_check s ctx i resource action
unfolding create_authorization_service check_permission
created_service_checks cfg s h ctx i resource action = ground arith
