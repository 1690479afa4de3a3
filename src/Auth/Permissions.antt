-- ===== src/Auth/Permissions.antt =====
-- CheckUserPermission of internal/repo/postgres/permission_repository.go, over the tables that its
-- query joins.
use mckmt.Base.{
  ℕ, String, ◌≡◌, ap, ◌↔◌, ◌⊎◌, Bool, true, false, ◌&&◌, ◌||◌, List, Result, ok, err, db_failed,
  if◌then◌else◌, ◌==◌, ==_iff, any, Some, any_iff, str_eq, str_eq_iff, arith,
}

-- user.Permission, and a row of `permissions`; the description and the times are left out.
pub record Permission : Type 0 where
  pub id : ℕ
  pub name : String
  pub resource : String
  pub action : String

pub record Grants : Type 0 where
  pub permissions : List Permission
  -- role_id and permission_id
  pub role_permissions : List (ℕ × ℕ)
  -- user_id and role_id
  pub user_roles : List (ℕ × ℕ)

-- The condition on p.resource and p.action.
unfoldable pub matches : String → String → Permission → Bool
matches resource action p =
    str_eq p.resource "*" && str_eq p.action "*"
    || str_eq p.resource "*" && str_eq p.action action
    || str_eq p.resource resource && str_eq p.action "*"
    || str_eq p.resource resource && str_eq p.action action

-- The join of the three tables: the permissions of an id, the rows of a role, the rows of a user.
abbrev permission_matches : Grants → String → String → ℕ → Bool
permission_matches g resource action i =
    any (λ p. (p.id == i) && matches resource action p) g.permissions

abbrev role_matches : Grants → String → String → ℕ → Bool
role_matches g resource action role =
    any (λ rp. (rp.0 == role) && permission_matches g resource action rp.1) g.role_permissions

-- COUNT(*) > 0 over the join; `fails` says whether the query fails.
unfoldable pub check_user_permission : Bool → Grants → ℕ → String → String → Result Bool
check_user_permission fails g user resource action =
    if fails
    then err db_failed
    else ok (any (λ ur. (ur.0 == user) && role_matches g resource action ur.1) g.user_roles)

-- A permission covers an action where each of its two columns is the wildcard or the very word.
abbrev pub Covers : String → String → Permission → Type 0
Covers resource action p =
    ((p.resource ≡ "*") ⊎ (p.resource ≡ resource)) × ((p.action ≡ "*") ⊎ (p.action ≡ action))

abbrev pub IsPermissionCovering : Grants → String → String → ℕ → Type 0
IsPermissionCovering g resource action i =
    Some (λ p. (p.id ≡ i) × Covers resource action p) g.permissions

abbrev pub IsRoleCovering : Grants → String → String → ℕ → Type 0
IsRoleCovering g resource action role =
    Some (λ rp. (rp.0 ≡ role) × IsPermissionCovering g resource action rp.1) g.role_permissions

-- Some role of the user has some permission that covers the action.
abbrev pub IsGranted : Grants → ℕ → String → String → Type 0
IsGranted g user resource action =
    Some (λ ur. (ur.0 ≡ user) × IsRoleCovering g resource action ur.1) g.user_roles

matches_iff :
    (resource action : String) (p : Permission)
    → (matches resource action p ≡ true) ↔ Covers resource action p
unfolding matches
matches_iff resource action p = ground (
  arith,
  str_eq_iff p.resource "*",
  str_eq_iff p.action "*",
  str_eq_iff p.resource resource,
  str_eq_iff p.action action,
)

both_iff :
    (a b : ℕ) (c : Bool) (C : Type 0) → ((c ≡ true) ↔ C) → (((a == b) && c) ≡ true) ↔ ((a ≡ b) × C)
both_iff a b c C e = ground (arith, ==_iff a b)

module _ (g : Grants) (resource action : String) where
  permission_matches_iff :
      (i : ℕ)
      → (permission_matches g resource action i ≡ true) ↔ IsPermissionCovering g resource action i
  permission_matches_iff i =
      any_iff (λ p. (p.id ≡ i) × Covers resource action p)
        (λ p. (p.id == i) && matches resource action p)
        (λ p.
          both_iff p.id i (matches resource action p) (Covers resource action p)
            (matches_iff resource action p))
        g.permissions

  role_matches_iff :
      (role : ℕ)
      → (role_matches g resource action role ≡ true) ↔ IsRoleCovering g resource action role
  role_matches_iff role =
      any_iff (λ rp. (rp.0 ≡ role) × IsPermissionCovering g resource action rp.1)
        (λ rp. (rp.0 == role) && permission_matches g resource action rp.1)
        (λ rp.
          both_iff rp.0 role (permission_matches g resource action rp.1)
            (IsPermissionCovering g resource action rp.1) (permission_matches_iff rp.1))
        g.role_permissions

-- Where the query goes through, it says yes exactly if some role of the user has a permission that
-- covers the action, wildcards included.
pub check_user_permission_iff :
    (g : Grants) (user : ℕ) (resource action : String)
    → (check_user_permission false g user resource action ≡ ok true)
      ↔ IsGranted g user resource action
unfolding check_user_permission
check_user_permission_iff g user resource action =
    (λ h. found.0 (ground arith), λ h. ap ok (found.1 h))
  where
    found :
        (any (λ ur. (ur.0 == user) && role_matches g resource action ur.1) g.user_roles ≡ true)
        ↔ IsGranted g user resource action
    found =
        any_iff (λ ur. (ur.0 ≡ user) × IsRoleCovering g resource action ur.1)
          (λ ur. (ur.0 == user) && role_matches g resource action ur.1)
          (λ ur.
            both_iff ur.0 user (role_matches g resource action ur.1)
              (IsRoleCovering g resource action ur.1) (role_matches_iff g resource action ur.1))
          g.user_roles
