-- ===== src/Accounts/RoleTable.antt =====
-- internal/repo/postgres/role_repository.go. `sort_roles` is ORDER BY name, by the collation of the
-- database.
use mckmt.Base.{
  ℕ, String, Bool, true, false, not, ◌&&◌, ◌||◌, Option, none, some, List, [], ◌∷◌, ok, err,
  no_rows, constraint_violated, ◌==◌, str_eq, if◌then◌else◌, any, filter, page,
}
use mckmt.Repo.Store.{Env, find, update, remove}
use mckmt.Auth.Permissions.{Permission}
use mckmt.Accounts.{Role, D, call, user_key, role_key}

unfoldable pub by_name : String → List Role → Option Role
by_name n [] = none
by_name n (r ∷ rs) = if str_eq r.name n then some r else by_name n rs

-- INSERT ... ON CONFLICT DO NOTHING, for a pair of a junction table
abbrev pub same_pair : ℕ × ℕ → ℕ × ℕ → Bool
same_pair a b = (a.0 == b.0) && (a.1 == b.1)

abbrev pub add_pair : ℕ × ℕ → List (ℕ × ℕ) → List (ℕ × ℕ)
add_pair p ps = if any (same_pair p) ps then ps else p ∷ ps

-- The left and the right row of a JOIN by the second part of the pairs whose first part is `i`.
unfoldable pub joined : {A : Type 0} → (A → ℕ) → List A → ℕ → List (ℕ × ℕ) → List A
joined key rows i [] = []
joined key rows i (p ∷ ps) =
    let rest = joined key rows i ps in
    if p.0 == i then elim (find key p.1 rows) [ none ↦ rest | some r ↦ r ∷ rest ] else rest

abbrev pub permission_key : Permission → ℕ
permission_key p = p.id

abbrev is_there : {A : Type 0} → Option A → Bool
is_there none = false
is_there (some _) = true

module _ (env : Env) (sort_roles : List Role → List Role) where
  unfoldable pub create : Role → D (Unit {0})
  create r = call env λ d.
      if any (λ q. (q.id == r.id) || str_eq q.name r.name) d.roles
      then (err constraint_violated, d)
      else (ok tt, record d { roles = r ∷ d.roles })

  unfoldable pub get_by_id : ℕ → D Role
  get_by_id i =
      call env λ d. elim (find role_key i d.roles) [ none ↦ (err no_rows, d) | some r ↦ (ok r, d) ]

  unfoldable pub get_by_name : String → D Role
  get_by_name n =
      call env λ d. elim (by_name n d.roles) [ none ↦ (err no_rows, d) | some r ↦ (ok r, d) ]

  unfoldable pub list : ℕ → ℕ → D (List Role)
  list limit offset = call env λ d. (ok (page limit offset (sort_roles d.roles)), d)

  -- An id without a row is no error.
  unfoldable pub update_role : Role → D (Unit {0})
  update_role r = call env λ d.
      if any (λ q. not (q.id == r.id) && str_eq q.name r.name) d.roles
      then (err constraint_violated, d)
      else (
        ok tt,
        record d { roles = update role_key r.id (λ q. some (record q { name = r.name })) d.roles },
      )

  -- The foreign keys of the junction tables delete the pairs of the role.
  unfoldable pub delete : ℕ → D (Unit {0})
  delete i = call env λ d. (
    ok tt,
    record d {
      roles = remove role_key i d.roles;
      grants = record d.grants {
        user_roles = filter (λ ur. not (ur.1 == i)) d.grants.user_roles;
        role_permissions = filter (λ rp. not (rp.0 == i)) d.grants.role_permissions;
      };
    },
  )

  unfoldable pub get_user_roles : ℕ → D (List Role)
  unfolding joined
  get_user_roles user =
      call env λ d. (ok (sort_roles (joined role_key d.roles user d.grants.user_roles)), d)

  -- The foreign keys want the user and the role.
  unfoldable pub assign_role_to_user : ℕ → ℕ → D (Unit {0})
  assign_role_to_user user role = call env λ d.
      if is_there (find user_key user d.users) && is_there (find role_key role d.roles)
      then (
        ok tt,
        record d {
          grants = record d.grants { user_roles = add_pair (user, role) d.grants.user_roles };
        },
      )
      else (err constraint_violated, d)

  unfoldable pub remove_role_from_user : ℕ → ℕ → D (Unit {0})
  remove_role_from_user user role = call env λ d. (
    ok tt,
    record d {
      grants = record d.grants {
        user_roles = filter (λ p. not (same_pair (user, role) p)) d.grants.user_roles;
      };
    },
  )

  -- The order of the permissions is left as in the table.
  unfoldable pub get_role_permissions : ℕ → D (List Permission)
  unfolding joined
  get_role_permissions role =
      call env
        λ d. (ok (joined permission_key d.grants.permissions role d.grants.role_permissions), d)

  unfoldable pub assign_permission_to_role : ℕ → ℕ → D (Unit {0})
  assign_permission_to_role role permission = call env λ d.
      if is_there (find role_key role d.roles)
        && is_there (find permission_key permission d.grants.permissions)
      then (
        ok tt,
        record d {
          grants = record d.grants {
            role_permissions = add_pair (role, permission) d.grants.role_permissions;
          };
        },
      )
      else (err constraint_violated, d)

  unfoldable pub remove_permission_from_role : ℕ → ℕ → D (Unit {0})
  remove_permission_from_role role permission = call env λ d. (
    ok tt,
    record d {
      grants = record d.grants {
        role_permissions =
            filter (λ p. not (same_pair (role, permission) p)) d.grants.role_permissions;
      };
    },
  )
