-- ===== src/Auth/Middleware.antt =====
-- middleware.go and casbin_middleware.go of internal/auth, with ExtractTokenFromHeader of jwt.go.
-- A Go string that is sliced is a list of bytes. The JWT library's verdict on a token, uuid.Parse
-- and the Casbin enforcer are parameters.
use mckmt.Base.{
  ℕ, String, Bool, true, false, not, ◌&&◌, ◌||◌, Option, none, some, List, [], ◌∷◌, Result, ok, err,
  failed, wrapped, if◌then◌else◌, ◌==◌, ltb, length, take, drop,
}
use mckmt.Auth.{User}
use mckmt.Auth.Strategies.{Strategy, Enforcer, PermissionRepository, check_permission}

abbrev pub Bytes : Type 0
Bytes = List ℕ

-- What becomes of a request: the next handler runs, a response is written, or the handler panics.
pub data Verdict (A : Type 0) : Type 0 where
  proceeds : A → Verdict A
  refuses : ℕ → String → Verdict A
  panics : Verdict A

abbrev pub bytes_eq : Bytes → Bytes → Bool
bytes_eq [] [] = true
bytes_eq (a ∷ xs) (b ∷ ys) = (a == b) && bytes_eq xs ys
bytes_eq _ _ = false

-- "Bearer "
abbrev pub bearer_prefix : Bytes
bearer_prefix = 66 ∷ 101 ∷ 97 ∷ 114 ∷ 101 ∷ 114 ∷ 32 ∷ []

unfoldable pub extract_token_from_header : Bytes → Option Bytes
extract_token_from_header h =
    if bytes_eq h []
    then none
    else if ltb (length h) 7 || not (bytes_eq (take 7 h) bearer_prefix)
    then none
    else some (drop 7 h)

-- RequireAuth. The log of a token that is not valid slices its first 50 bytes.
unfoldable pub require_auth : (Bytes → Result User) → Bytes → Verdict User
unfolding extract_token_from_header
require_auth validate_token h =
    if bytes_eq h []
    then refuses 401 "Authorization header is required"
    else elim (extract_token_from_header h) [
      | none ↦ refuses 401 "authorization header must start with 'Bearer '"
      | some token ↦ elim (validate_token token) [
        | err _ ↦ if ltb (length token) 50 then panics else refuses 401 "Invalid token"
        | ok claims ↦ proceeds claims
      ]
    ]

module _ (parse : String → Option ℕ) where
  -- RequirePermission, for the user of the context.
  unfoldable pub require_permission : Strategy → String → String → Option User → Verdict (Unit {0})
  require_permission authz resource action none = refuses 401 "User not found in context"
  require_permission authz resource action (some u) = elim (parse u.id) [
    | none ↦ refuses 400 "Invalid user ID"
    | some i ↦ elim (check_permission authz (some u) i resource action) [
      | err _ ↦ refuses 500 "Failed to check permission"
      | ok true ↦ proceeds tt
      | ok false ↦ refuses 403 "Insufficient permissions"
    ]
  ]

  -- A route of registerProtectedRoutes (internal/api/http/router.go): RequireAuth, and then
  -- RequirePermission with the user that it has put into the context.
  unfoldable pub protected_route :
      (Bytes → Result User) → Strategy → String → String → Bytes → Verdict (Unit {0})
  unfolding require_auth require_permission
  protected_route validate_token authz resource action h = elim (require_auth validate_token h) [
    | refuses code message ↦ refuses code message
    | panics ↦ panics
    | proceeds u ↦ require_permission authz resource action (some u)
  ]

-- CasbinService of casbin.go, as far as a check reads it.
pub record CasbinService : Type 0 where
  pub enforce : Enforcer
  pub enabled : Bool
  pub rbac_enabled : Bool
  pub permission_repo : PermissionRepository

unfoldable pub casbin_check : CasbinService → Option User → ℕ → String → String → Result Bool
casbin_check c ctx i resource action =
    if not c.rbac_enabled
    then ok true
    else if not c.enabled
    then c.permission_repo i resource action
    else elim ctx [
      | none ↦ err (failed "user not found in context")
      | some u ↦ elim (c.enforce u.username resource action) [
        | err e ↦ err (wrapped "failed to enforce permission" e)
        | ok allowed ↦ ok allowed
      ]
    ]

module _ (parse : String → Option ℕ) (c : CasbinService) where
  -- The loop of RequireAnyPermission: an error is logged.
  unfoldable pub any_allowed : User → ℕ → List (String × String) → Verdict (Unit {0})
  unfolding casbin_check
  any_allowed u i [] = refuses 403 "Insufficient permissions"
  any_allowed u i ((resource, action) ∷ ps) =
      let rest = any_allowed u i ps in
      elim (casbin_check c (some u) i resource action) [
        | err _ ↦ rest
        | ok true ↦ proceeds tt
        | ok false ↦ rest
      ]

  -- The loop of RequireAllPermissions.
  unfoldable pub all_allowed : User → ℕ → List (String × String) → Verdict (Unit {0})
  unfolding casbin_check
  all_allowed u i [] = proceeds tt
  all_allowed u i ((resource, action) ∷ ps) =
      let rest = all_allowed u i ps in
      elim (casbin_check c (some u) i resource action) [
        | err _ ↦ refuses 500 "Failed to check permission"
        | ok true ↦ rest
        | ok false ↦ refuses 403 "Insufficient permissions"
      ]

  -- What the two have before their loops.
  abbrev guarded : (User → ℕ → Verdict (Unit {0})) → Option User → Verdict (Unit {0})
  guarded loop none = refuses 401 "User not found in context"
  guarded loop (some u) =
      if not c.enabled
      then proceeds tt
      else elim (parse u.id) [ none ↦ refuses 400 "Invalid user ID" | some i ↦ loop u i ]

  unfoldable pub require_any_permission : List (String × String) → Option User → Verdict (Unit {0})
  unfolding any_allowed
  require_any_permission ps = guarded (λ u i. any_allowed u i ps)

  unfoldable pub require_all_permissions : List (String × String) → Option User → Verdict (Unit {0})
  unfolding all_allowed
  require_all_permissions ps = guarded (λ u i. all_allowed u i ps)
