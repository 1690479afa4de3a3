-- ===== src/Auth.antt =====
-- internal/auth: who a request is from, and what it may do.
pub mod Password
pub mod Permissions
pub mod Strategies
pub mod Middleware
pub mod Guards
pub mod Ownership
pub mod Oidc
pub mod Roles
pub mod Tokens
pub mod RoleMapper
pub mod Policies
use mckmt.Base.{String, Bool, List, [], ◌∷◌, any, str_eq}

-- AuthenticatedUser (types.go), which is also what the claims of a token hold (jwt.go).
pub record User : Type 0 where
  pub id : String
  pub username : String
  pub email : String
  pub roles : List String

unfoldable pub has_role : User → String → Bool
has_role u role = any (λ r. str_eq r role) u.roles

unfoldable pub has_any_role : User → List String → Bool
unfolding has_role
has_any_role u roles = any (has_role u) roles

unfoldable pub is_admin : User → Bool
unfolding has_role
is_admin u = has_role u "admin"

unfoldable pub is_operator : User → Bool
unfolding has_any_role
is_operator u = has_any_role u ("admin" ∷ "operator" ∷ [])

unfoldable pub is_viewer : User → Bool
unfolding has_any_role
is_viewer u = has_any_role u ("admin" ∷ "operator" ∷ "viewer" ∷ [])
