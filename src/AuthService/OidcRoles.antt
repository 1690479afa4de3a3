-- ===== src/AuthService/OidcRoles.antt =====
-- The mapping of the roles at a login with OIDC (AuthService/Oidc).
use mckmt.Base.{◌≡◌, refl, subst, String, List, [], ◌∷◌, Result, ok, err, arith, All}
use mckmt.Accounts.{Role, Directory}
use mckmt.Accounts.RoleTable
use mckmt.Auth.RoleMapper.{
  get_role_by_name, get_default_role, map_single_role, map_each, map_oidc_roles,
}
use mckmt.Auth.RoleMapper.Targets.{IsOrder, IsKnownName, IsMapped, map_oidc_roles-IsMapped}
use mckmt.AuthService.{Setup}
use mckmt.AuthService.Oidc.{database_roles}

module _ (setup : Setup) where
  single_users :
      (role : String) (d : Directory)
      → (map_single_role setup.env setup.sort_roles setup.order role d).1.users ≡ d.users
  unfolding map_single_role get_role_by_name RoleTable.list
  single_users role d = ground arith

  each_users :
      (roles : List String) (d : Directory)
      → (map_each setup.env setup.sort_roles setup.order roles d).1.users ≡ d.users
  unfolding map_each
  each_users [] d = refl
  each_users (role ∷ roles) d = ground (
    arith,
    single_users role d,
    each_users roles (map_single_role setup.env setup.sort_roles setup.order role d).1,
  )

  default_users :
      (d : Directory)
      → (get_default_role setup.env setup.sort_roles setup.order d).1.users ≡ d.users
  unfolding get_default_role get_role_by_name RoleTable.list
  default_users d = ground arith

  mapped_users :
      (roles : List String) (d : Directory)
      → (map_oidc_roles setup.env setup.sort_roles setup.order roles d).1.users ≡ d.users
  unfolding map_oidc_roles
  mapped_users [] d = default_users d
  mapped_users (role ∷ roles) d = ground (
    arith,
    each_users (role ∷ roles) d,
    default_users (map_each setup.env setup.sort_roles setup.order (role ∷ roles) d).1,
  )

  pub database_roles-users :
      (roles : List String) (d : Directory) → (database_roles setup roles d).1.users ≡ d.users
  unfolding database_roles
  database_roles-users roles d = ground (
    arith,
    mapped_users roles d,
    mapped_users (setup.default_role ∷ [])
        (map_oidc_roles setup.env setup.sort_roles setup.order roles d).1,
  )

  mapped_known :
      (roles : List String) (d : Directory) (rs : List Role)
      → IsOrder setup.order
      → (map_oidc_roles setup.env setup.sort_roles setup.order roles d).0 ≡ ok rs
      → All (λ r. IsKnownName r.name) rs
  mapped_known roles d rs o h =
      known (map_oidc_roles setup.env setup.sort_roles setup.order roles d)
        (map_oidc_roles-IsMapped setup.env setup.sort_roles setup.order o roles d) h
    where
      known :
          (q : Result (List Role) × Directory)
          → IsMapped q
          → q.0 ≡ ok rs
          → All (λ r. IsKnownName r.name) rs
      known (ok [], d') v e = absurd v
      known (ok (x ∷ xs), d') v e =
          let same : x ∷ xs ≡ rs = ground arith in subst (All (λ r. IsKnownName r.name)) same v
      known (err k, d') v e = ground arith

  pub database_roles-IsMapped :
      (roles : List String) (d : Directory) (rs : List Role)
      → IsOrder setup.order
      → (database_roles setup roles d).0 ≡ ok rs
      → All (λ r. IsKnownName r.name) rs
  unfolding database_roles
  database_roles-IsMapped roles d rs o h =
      first (map_oidc_roles setup.env setup.sort_roles setup.order roles d).0 refl
    where
      first :
          (r : Result (List Role))
          → (map_oidc_roles setup.env setup.sort_roles setup.order roles d).0 ≡ r
          → All (λ q. IsKnownName q.name) rs
      first (ok found) e = mapped_known roles d rs o (ground arith)
      first (err k) e =
          mapped_known (setup.default_role ∷ [])
            (map_oidc_roles setup.env setup.sort_roles setup.order roles d).1 rs o (ground arith)
