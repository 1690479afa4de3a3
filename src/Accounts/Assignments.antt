-- ===== src/Accounts/Assignments.antt =====
-- What the assignments of roles do to the permissions of a user (Accounts/RoleTable,
-- Auth/Permissions).
use mckmt.Base.{
  ℕ, String, ◌≡◌, refl, subst, ◌≢◌, ◌↔◌, Bool, true, false, not, List, [], ◌∷◌, ok, ==_iff, any,
  filter, Some, arith, Bool-cases, inl, inr,
}
use mckmt.Repo.Store.{Env}
use mckmt.Auth.Permissions.{
  Grants, IsRoleCovering, check_user_permission, check_user_permission_iff,
}
use mckmt.Accounts.{Role, Directory}
use mckmt.Accounts.RoleTable.{same_pair, add_pair, assign_role_to_user, remove_role_from_user}

module _ (P : ℕ × ℕ → Type 0) where
  Some-add_pair : (p : ℕ × ℕ) (ps : List (ℕ × ℕ)) → P p → Some P (add_pair p ps)
  Some-add_pair p ps h = elim (Bool-cases (any (same_pair p) ps)) [
    | inl e ↦ rw e (there p ps h e)
    | inr e ↦ rw e (inl h)
  ]
    where
      there : (p : ℕ × ℕ) (ps : List (ℕ × ℕ)) → P p → any (same_pair p) ps ≡ true → Some P ps
      there p [] h e = ground arith
      there p (q ∷ ps) h e = elim (Bool-cases (same_pair p q)) [
        | inl f ↦ let same : p ≡ q = ground arith in inl (subst P same h)
        | inr f ↦ inr (there p ps h (ground arith))
      ]

  Some-filter :
      (t : ℕ × ℕ → Bool) (ps : List (ℕ × ℕ))
      → Some P (filter t ps) ↔ Some (λ p. (t p ≡ true) × P p) ps
  Some-filter t [] = ground arith
  Some-filter t (p ∷ ps) = elim (Bool-cases (t p)) [
    | inl e ↦ rw e (ground (arith, Some-filter t ps))
    | inr e ↦ rw e (ground (arith, Some-filter t ps))
  ]

module _ (P Q : ℕ × ℕ → Type 0) where
  Some-iff : ((p : ℕ × ℕ) → P p ↔ Q p) → (ps : List (ℕ × ℕ)) → Some P ps ↔ Some Q ps
  Some-iff e [] = ground arith
  Some-iff e (p ∷ ps) = ground (arith, e p, Some-iff e ps)

module _ (env : Env) (sort_roles : List Role → List Role) (user role : ℕ) (resource action : String)
    (d : Directory) where
  abbrev assigned : Grants
  assigned = record d.grants { user_roles = add_pair (user, role) d.grants.user_roles }

  abbrev removed : Grants
  removed = record d.grants {
    user_roles = filter (λ p. not (same_pair (user, role) p)) d.grants.user_roles;
  }

  assign_role-grants :
      (assign_role_to_user env sort_roles user role d).0 ≡ ok tt
      → (assign_role_to_user env sort_roles user role d).1.grants ≡ assigned
  unfolding assign_role_to_user
  assign_role-grants h = ground arith

  remove_role-grants :
      (remove_role_from_user env sort_roles user role d).0 ≡ ok tt
      → (remove_role_from_user env sort_roles user role d).1.grants ≡ removed
  unfolding remove_role_from_user
  remove_role-grants h = ground arith

  -- After an AssignRoleToUser that goes through, the user may do what the role covers.
  pub assign_role-IsGranted :
      (assign_role_to_user env sort_roles user role d).0 ≡ ok tt
      → IsRoleCovering d.grants resource action role
      → check_user_permission false
          (assign_role_to_user env sort_roles user role d).1.grants
          user
          resource
          action
        ≡ ok true
  assign_role-IsGranted h c = rw (assign_role-grants h) (
      (check_user_permission_iff assigned user resource action).1 (
        Some-add_pair (λ ur. (ur.0 ≡ user) × IsRoleCovering d.grants resource action ur.1)
          (user, role) d.grants.user_roles (refl, c)))

  kept_iff :
      (p : ℕ × ℕ)
      → ((not (same_pair (user, role) p) ≡ true)
          × ((p.0 ≡ user) × IsRoleCovering d.grants resource action p.1))
        ↔ ((p.0 ≡ user) × ((p.1 ≢ role) × IsRoleCovering d.grants resource action p.1))
  kept_iff p = ground (arith, ==_iff user p.0, ==_iff role p.1)

  -- After a RemoveRoleFromUser that goes through, the user may do exactly what another role of the
  -- user covers.
  pub remove_role-IsGranted :
      (remove_role_from_user env sort_roles user role d).0 ≡ ok tt
      → (check_user_permission false
            (remove_role_from_user env sort_roles user role d).1.grants
            user
            resource
            action
          ≡ ok true)
        ↔ Some
            (λ ur. (ur.0 ≡ user) × ((ur.1 ≢ role) × IsRoleCovering d.grants resource action ur.1))
            d.grants.user_roles
  remove_role-IsGranted h =
      let P = λ (ur : ℕ × ℕ). (ur.0 ≡ user) × IsRoleCovering d.grants resource action ur.1 in
      let Q = λ (ur : ℕ × ℕ).
        (ur.0 ≡ user) × ((ur.1 ≢ role) × IsRoleCovering d.grants resource action ur.1) in
      let keep = λ (p : ℕ × ℕ). not (same_pair (user, role) p) in
      let a = check_user_permission_iff removed user resource action in
      let b = Some-filter P keep d.grants.user_roles in
      let c = Some-iff (λ p. (keep p ≡ true) × P p) Q kept_iff d.grants.user_roles in
      rw (remove_role-grants h) ((λ x. c.0 (b.0 (a.0 x)), λ y. a.1 (b.1 (c.1 y))))
