-- ===== src/Accounts/UserPermissions.antt =====
-- The queries on the permissions of a user, side by side (Accounts/PermissionTable, Auth/Permissions).
use mckmt.Base.{
  ℕ, String, ◌≡◌, ap, subst, sym, ◌↔◌, inl, inr, Bool, true, false, ◌&&◌, List, [], ◌∷◌, ok, any,
  any_iff, filter, Some, str_eq_iff, ◌==◌, ==_iff, arith,
}
use mckmt.Repo.Store.{Env}
use mckmt.Auth.Permissions.{
  Permission, Grants, Covers, IsPermissionCovering, IsRoleCovering, IsGranted,
  check_user_permission, check_user_permission_iff,
}
use mckmt.Auth.Policies.Members.{
  IsMember, Some-IsMember, IsMember-Some, kept_iff, pointwise_iff, chain, flip,
}
use mckmt.Accounts.{Directory}
use mckmt.Accounts.PermissionTable.{
  Orders, role_has, user_has, of_resource, of_action, get_user_permissions,
  get_user_permissions_by_resource, check_user_permission_exact,
}

-- The rows that join a permission to a user.
abbrev IsJoined : Grants → ℕ → ℕ → Type 0
IsJoined g user i =
    Some (λ ur. (ur.0 ≡ user) × Some (λ rp. (rp.0 ≡ ur.1) × (rp.1 ≡ i)) g.role_permissions)
      g.user_roles

user_has_iff :
    (g : Grants) (user : ℕ) (p : Permission) → (user_has g user p ≡ true) ↔ IsJoined g user p.id
unfolding user_has role_has
user_has_iff g user p =
    any_iff (λ ur. (ur.0 ≡ user) × Some (λ rp. (rp.0 ≡ ur.1) × (rp.1 ≡ p.id)) g.role_permissions)
      (λ ur. (ur.0 == user) && role_has g p.id ur.1)
      (λ ur. ground (
        arith,
        any_iff (λ rp. (rp.0 ≡ ur.1) × (rp.1 ≡ p.id)) (λ rp. (rp.0 == ur.1) && (rp.1 == p.id))
            (λ rp. ground (arith, ==_iff rp.0 ur.1, ==_iff rp.1 p.id)) g.role_permissions,
        ==_iff ur.0 user,
      ))
      g.user_roles

-- The order of the three quantifiers does not matter.
IsGranted-iff :
    (g : Grants) (user : ℕ) (resource action : String)
    → IsGranted g user resource action
      ↔ Some (λ p. IsJoined g user p.id × Covers resource action p) g.permissions
IsGranted-iff g user resource action = (outward, inward)
  where
    outward :
        IsGranted g user resource action
        → Some (λ p. IsJoined g user p.id × Covers resource action p) g.permissions
    outward h =
        let (ur, m, (e, h₁)) =
          Some-IsMember (λ ur. (ur.0 ≡ user) × IsRoleCovering g resource action ur.1) g.user_roles
            h in
        let (rp, n, (f, h₂)) =
          Some-IsMember (λ rp. (rp.0 ≡ ur.1) × IsPermissionCovering g resource action rp.1)
            g.role_permissions h₁ in
        let (p, l, (i, c)) =
          Some-IsMember (λ p. (p.id ≡ rp.1) × Covers resource action p) g.permissions h₂ in
        IsMember-Some (λ p. IsJoined g user p.id × Covers resource action p) g.permissions p l
          (
            IsMember-Some
                (λ ur.
                  (ur.0 ≡ user) × Some (λ rp. (rp.0 ≡ ur.1) × (rp.1 ≡ p.id)) g.role_permissions)
                g.user_roles ur m
                (
                  e,
                  IsMember-Some (λ rp. (rp.0 ≡ ur.1) × (rp.1 ≡ p.id)) g.role_permissions rp n
                      (f, sym i),
                ),
            c,
          )

    inward :
        Some (λ p. IsJoined g user p.id × Covers resource action p) g.permissions
        → IsGranted g user resource action
    inward h =
        let (p, l, (j, c)) =
          Some-IsMember (λ p. IsJoined g user p.id × Covers resource action p) g.permissions h in
        let (ur, m, (e, h₁)) =
          Some-IsMember
            (λ ur. (ur.0 ≡ user) × Some (λ rp. (rp.0 ≡ ur.1) × (rp.1 ≡ p.id)) g.role_permissions)
            g.user_roles j in
        let (rp, n, (f, i)) =
          Some-IsMember (λ rp. (rp.0 ≡ ur.1) × (rp.1 ≡ p.id)) g.role_permissions h₁ in
        IsMember-Some (λ ur. (ur.0 ≡ user) × IsRoleCovering g resource action ur.1) g.user_roles ur
          m
          (
            e,
            IsMember-Some (λ rp. (rp.0 ≡ ur.1) × IsPermissionCovering g resource action rp.1)
                g.role_permissions rp n
                (
                  f,
                  IsMember-Some (λ p. (p.id ≡ rp.1) × Covers resource action p) g.permissions p l
                      (sym i, c),
                ),
          )

-- An ORDER BY keeps the rows.
abbrev pub KeepsRows : (List Permission → List Permission) → Type 0
KeepsRows sort = (p : Permission) (ps : List Permission) → IsMember p (sort ps) ↔ IsMember p ps

module _ (sort : List Permission → List Permission) (k : KeepsRows sort)
    (P : Permission → Type 0) where
  sorted_iff : (ps : List Permission) → Some P (sort ps) ↔ Some P ps
  sorted_iff ps = (
    λ h. let (p, m, c) = Some-IsMember P (sort ps) h in IsMember-Some P ps p ((k p ps).0 m) c,
    λ h. let (p, m, c) = Some-IsMember P ps h in IsMember-Some P (sort ps) p ((k p ps).1 m) c,
  )

abbrev pub IsNamed : String → String → Permission → Type 0
IsNamed resource action p = (p.resource ≡ resource) × (p.action ≡ action)

abbrev exact_test : Grants → ℕ → String → String → Permission → Bool
exact_test g user resource action p =
    user_has g user p && (of_resource resource p && of_action action p)

exact_lem :
    (g : Grants) (user : ℕ) (resource action : String)
    → (check_user_permission_exact false g user resource action ≡ ok true)
      ↔ (any (exact_test g user resource action) g.permissions ≡ true)
unfolding check_user_permission_exact
exact_lem g user resource action = (λ h. ground arith, λ h. ap ok h)

module _ (sort : List Permission → List Permission) (k : KeepsRows sort) (g : Grants) (user : ℕ)
    (resource action : String) where
  covered_iff :
      (check_user_permission false g user resource action ≡ ok true)
      ↔ Some (Covers resource action) (sort (filter (user_has g user) g.permissions))
  covered_iff =
      let P = Covers resource action in
      chain (check_user_permission_iff g user resource action) (
        chain (IsGranted-iff g user resource action) (
          flip (
            chain (sorted_iff sort k P (filter (user_has g user) g.permissions)) (
              chain (kept_iff P (user_has g user) g.permissions) (
                pointwise_iff (λ p. (user_has g user p ≡ true) × P p)
                  (λ p. IsJoined g user p.id × P p) (λ p. ground (arith, user_has_iff g user p))
                  g.permissions)))))

  exact_iff :
      (any (exact_test g user resource action) g.permissions ≡ true)
      ↔ Some (IsNamed resource action) (sort (filter (user_has g user) g.permissions))
  exact_iff =
      let P = IsNamed resource action in
      chain
        (any_iff (λ p. (user_has g user p ≡ true) × P p) (exact_test g user resource action)
          (λ p. ground (arith, str_eq_iff p.resource resource, str_eq_iff p.action action))
          g.permissions)
        (flip (
          chain (sorted_iff sort k P (filter (user_has g user) g.permissions))
            (kept_iff P (user_has g user) g.permissions)))

  by_resource_iff :
      (any (exact_test g user resource action) g.permissions ≡ true)
      ↔ Some
          (λ p. p.action ≡ action)
          (sort (filter (λ p. user_has g user p && of_resource resource p) g.permissions))
  by_resource_iff =
      let P = λ (p : Permission). p.action ≡ action in
      let t = λ (p : Permission). user_has g user p && of_resource resource p in
      chain
        (any_iff (λ p. (t p ≡ true) × P p) (exact_test g user resource action)
          (λ p. ground (arith, str_eq_iff p.resource resource, str_eq_iff p.action action))
          g.permissions)
        (flip (chain (sorted_iff sort k P (filter t g.permissions)) (kept_iff P t g.permissions)))

IsNamed-Covers :
    (resource action : String) (ps : List Permission)
    → Some (IsNamed resource action) ps
    → Some (Covers resource action) ps
IsNamed-Covers resource action [] h = absurd h
IsNamed-Covers resource action (p ∷ ps) (inl (a, b)) = inl (inr a, inr b)
IsNamed-Covers resource action (p ∷ ps) (inr h) = inr (IsNamed-Covers resource action ps h)

-- The two ORDER BY keep the rows. Where GetUserPermissions lists `ps` and GetUserPermissionsByResource
-- lists `qs`: CheckUserPermission says yes exactly if a permission of `ps` covers the action, wildcards
-- included; CheckUserPermissionExact says yes exactly if `ps` has a permission with these very words,
-- and exactly if `qs` has one with this action; and whatever the exact check allows, the other allows.
pub user_permissions_agree :
    (env : Env) (orders : Orders) (user : ℕ) (resource action : String) (d d₁ d₂ : Directory)
    (ps qs : List Permission)
    → KeepsRows orders.by_resource
    → KeepsRows orders.by_action
    → get_user_permissions env orders user d ≡ (ok ps, d₁)
    → get_user_permissions_by_resource env orders user resource d ≡ (ok qs, d₂)
    → let exact = check_user_permission_exact false d.grants user resource action ≡ ok true in
      let covered = check_user_permission false d.grants user resource action ≡ ok true in
      (covered ↔ Some (Covers resource action) ps)
      × (exact ↔ Some (IsNamed resource action) ps)
      × (exact ↔ Some (λ p. p.action ≡ action) qs)
      × (exact → covered)
unfolding get_user_permissions get_user_permissions_by_resource check_user_permission_exact
user_permissions_agree env orders user resource action d d₁ d₂ ps qs k l f h =
    let g = d.grants in
    let e : orders.by_resource (filter (user_has g user) g.permissions) ≡ ps = ground arith in
    let e' : orders.by_action
          (filter (λ p. user_has g user p && of_resource resource p) g.permissions)
        ≡ qs =
      ground arith in
    let a = covered_iff orders.by_resource k g user resource action in
    let b = exact_iff orders.by_resource k g user resource action in
    let c = by_resource_iff orders.by_action l g user resource action in
    let a' =
      subst
        (λ xs.
          (check_user_permission false g user resource action ≡ ok true)
          ↔ Some (Covers resource action) xs)
        e a in
    let x = exact_lem g user resource action in
    let exact = any (exact_test g user resource action) g.permissions ≡ true in
    let b' = chain x (subst (λ xs. exact ↔ Some (IsNamed resource action) xs) e b) in
    let c' = chain x (subst (λ xs. exact ↔ Some (λ p. p.action ≡ action) xs) e' c) in
    (a', b', c', λ y. a'.1 (IsNamed-Covers resource action ps (b'.0 y)))
