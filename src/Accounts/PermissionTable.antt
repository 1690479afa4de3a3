-- ===== src/Accounts/PermissionTable.antt =====
-- internal/repo/postgres/permission_repository.go. `by_resource` and `by_action` are its two ORDER BY,
-- by the collation of the database. CheckUserPermission is in Auth/Permissions.
use mckmt.Base.{
  ℕ, String, Bool, not, ◌&&◌, ◌||◌, Option, none, some, List, [], ◌∷◌, Result, ok, err, db_failed,
  no_rows, constraint_violated, ◌==◌, str_eq, if◌then◌else◌, any, filter, page,
}
use mckmt.Repo.Store.{Env, find, update, remove}
use mckmt.Auth.Permissions.{Permission, Grants}
use mckmt.Accounts.{Directory, D, call}
use mckmt.Accounts.RoleTable.{permission_key}

pub record Orders : Type 0 where
  pub by_resource : List Permission → List Permission
  pub by_action : List Permission → List Permission

-- The first row that meets a WHERE.
unfoldable pub first_row : (Permission → Bool) → List Permission → Option Permission
first_row p [] = none
first_row p (r ∷ rs) = if p r then some r else first_row p rs

abbrev pub of_name : String → Permission → Bool
of_name n p = str_eq p.name n

abbrev pub of_resource : String → Permission → Bool
of_resource resource p = str_eq p.resource resource

abbrev pub of_action : String → Permission → Bool
of_action action p = str_eq p.action action

abbrev write_columns : Permission → Permission → Option Permission
write_columns p q = some (record q { name = p.name; resource = p.resource; action = p.action })

-- Whether the junction tables join a permission to a user.
unfoldable pub role_has : Grants → ℕ → ℕ → Bool
role_has g permission role = any (λ rp. (rp.0 == role) && (rp.1 == permission)) g.role_permissions

unfoldable pub user_has : Grants → ℕ → Permission → Bool
unfolding role_has
user_has g user p = any (λ ur. (ur.0 == user) && role_has g p.id ur.1) g.user_roles

module _ (env : Env) (orders : Orders) where
  unfoldable pub create : Permission → D (Unit {0})
  create p = call env λ d.
      if any (λ q. (q.id == p.id) || of_name p.name q) d.grants.permissions
      then (err constraint_violated, d)
      else (ok tt, record d { grants = record d.grants { permissions = p ∷ d.grants.permissions } })

  abbrev one_row : Option Permission → Directory → Result Permission × Directory
  one_row none d = (err no_rows, d)
  one_row (some r) d = (ok r, d)

  unfoldable pub get_by_id : ℕ → D Permission
  get_by_id i = call env λ d. one_row (find permission_key i d.grants.permissions) d

  unfoldable pub get_by_name : String → D Permission
  unfolding first_row
  get_by_name n = call env λ d. one_row (first_row (of_name n) d.grants.permissions) d

  unfoldable pub get_by_resource_action : String → String → D Permission
  unfolding first_row
  get_by_resource_action resource action = call env λ d.
      one_row (first_row (λ p. of_resource resource p && of_action action p) d.grants.permissions) d

  unfoldable pub list : ℕ → ℕ → D (List Permission)
  list limit offset =
      call env λ d. (ok (page limit offset (orders.by_resource d.grants.permissions)), d)

  unfoldable pub list_by_resource : String → D (List Permission)
  list_by_resource resource =
      call env λ d. (ok (orders.by_action (filter (of_resource resource) d.grants.permissions)), d)

  -- An id without a row is no error.
  unfoldable pub update_permission : Permission → D (Unit {0})
  update_permission p = call env λ d.
      if any (λ q. not (q.id == p.id) && of_name p.name q) d.grants.permissions
      then (err constraint_violated, d)
      else (
        ok tt,
        record d {
          grants = record d.grants {
            permissions = update permission_key p.id (write_columns p) d.grants.permissions;
          };
        },
      )

  -- The foreign key of `role_permissions` deletes the pairs of the permission.
  unfoldable pub delete : ℕ → D (Unit {0})
  delete i = call env λ d. (
    ok tt,
    record d {
      grants = record d.grants {
        permissions = remove permission_key i d.grants.permissions;
        role_permissions = filter (λ rp. not (rp.1 == i)) d.grants.role_permissions;
      };
    },
  )

  -- SELECT DISTINCT: a row is there once, however many roles join it to the user.
  unfoldable pub get_user_permissions : ℕ → D (List Permission)
  unfolding user_has
  get_user_permissions user =
      call env
        λ d. (ok (orders.by_resource (filter (user_has d.grants user) d.grants.permissions)), d)

  unfoldable pub get_user_permissions_by_resource : ℕ → String → D (List Permission)
  unfolding user_has
  get_user_permissions_by_resource user resource = call env λ d. (
    ok (
        orders.by_action
          (filter (λ p. user_has d.grants user p && of_resource resource p) d.grants.permissions)),
    d,
  )

-- COUNT(*) > 0 over the join, with p.resource = $2 AND p.action = $3; `fails` says whether the query
-- fails.
unfoldable pub check_user_permission_exact : Bool → Grants → ℕ → String → String → Result Bool
unfolding user_has
check_user_permission_exact fails g user resource action =
    if fails
    then err db_failed
    else ok (
        any (λ p. user_has g user p && (of_resource resource p && of_action action p))
          g.permissions)
