-- ===== src/Auth/Roles.antt =====
-- The tests on a user's roles (types.go of internal/auth).
use mckmt.Base.{
  String, ◌≡◌, ◌↔◌, ◌⊎◌, true, List, [], ◌∷◌, Some, any_iff, str_eq, str_eq_iff, arith,
}
use mckmt.Auth.{User, has_role, has_any_role, is_admin, is_operator, is_viewer}

has_role_iff : (u : User) (role : String) → (has_role u role ≡ true) ↔ Some (λ r. r ≡ role) u.roles
unfolding has_role
has_role_iff u role = any_iff (λ r. r ≡ role) (λ r. str_eq r role) (λ r. str_eq_iff r role) u.roles

Some-⊎ :
    (P Q : String → Type 0) (rs : List String) → Some (λ r. P r ⊎ Q r) rs ↔ (Some P rs ⊎ Some Q rs)
Some-⊎ P Q [] = ground arith
Some-⊎ P Q (r ∷ rs) = ground (arith, Some-⊎ P Q rs)

-- IsAdmin, IsOperator and IsViewer say whether some role of the user is among the one, two or three
-- that give the standing.
pub role_tests_iff :
    (u : User)
    → ((is_admin u ≡ true) ↔ Some (λ r. r ≡ "admin") u.roles)
      × ((is_operator u ≡ true) ↔ Some (λ r. (r ≡ "admin") ⊎ (r ≡ "operator")) u.roles)
      × ((is_viewer u ≡ true)
          ↔ Some (λ r. (r ≡ "admin") ⊎ ((r ≡ "operator") ⊎ (r ≡ "viewer"))) u.roles)
unfolding is_admin is_operator is_viewer has_any_role
role_tests_iff u =
    let a = has_role_iff u "admin" in
    let o = has_role_iff u "operator" in
    let v = has_role_iff u "viewer" in
    let ao = Some-⊎ (λ r. r ≡ "admin") (λ r. r ≡ "operator") u.roles in
    let ov = Some-⊎ (λ r. r ≡ "operator") (λ r. r ≡ "viewer") u.roles in
    let aov = Some-⊎ (λ r. r ≡ "admin") (λ r. (r ≡ "operator") ⊎ (r ≡ "viewer")) u.roles in
    (a, ground (arith, a, o, ao), ground (arith, a, o, v, ov, aov))
