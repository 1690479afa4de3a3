-- ===== src/Auth/RoleMapper/Targets.antt =====
-- The roles that a mapping may give (Auth/RoleMapper).
use mckmt.Base.{
  ℕ, String, ◌≡◌, refl, ◌∙◌, ◌⊎◌, inl, inr, Bool, true, false, not, page, subst, ◌||◌, Option, none,
  some, List, [], ◌∷◌, Result, ok, err, str_eq, str_eq_iff, any, All, arith, Option-cases,
}
use mckmt.Repo.Store.{Env}
use mckmt.Accounts.{Role, Directory}
use mckmt.Accounts.RoleTable
use mckmt.Auth.RoleMapper.{
  Mappings, role_mappings, direct, first_partial, target, get_role_by_name, get_default_role,
  map_single_role, map_each, map_oidc_roles,
}

-- The order of a `range` visits the entries of the map, and no others.
abbrev pub IsOrder : (ℕ → Mappings) → Type 0
IsOrder order = (n : ℕ) (p : String × String → Bool) → any p (order n) ≡ any p role_mappings

abbrev pub IsKnownName : String → Type 0
IsKnownName n = (n ≡ "admin") ⊎ ((n ≡ "operator") ⊎ (n ≡ "viewer"))

abbrev known_name : String → Bool
known_name n = str_eq n "admin" || str_eq n "operator" || str_eq n "viewer"

unknown : String × String → Bool
unknown m = not (known_name m.1)

direct_known :
    (role name : String) (ms : Mappings)
    → any unknown ms ≡ false
    → direct role ms ≡ some name
    → known_name name ≡ true
unfolding direct unknown
direct_known role name [] a h = ground arith
direct_known role name (m ∷ ms) a h = ground (arith, direct_known role name ms)

first_known :
    (role name : String) (ms : Mappings)
    → any unknown ms ≡ false
    → first_partial role ms ≡ some name
    → known_name name ≡ true
unfolding first_partial unknown
first_known role name [] a h = ground arith
first_known role name (m ∷ ms) a h = ground (arith, first_known role name ms)

mappings_known : any unknown role_mappings ≡ false
unfolding unknown
mappings_known = refl

target_known :
    (order : ℕ → Mappings) (n : ℕ) (role name : String)
    → IsOrder order
    → target (order n) role ≡ some name
    → IsKnownName name
unfolding target
target_known order n role name o h = elim (Option-cases (direct role role_mappings)) [
  | inl e ↦
      let k = first_known role name (order n) (o n unknown ∙ mappings_known) (ground arith) in
      ground (arith, str_eq_iff name "admin", str_eq_iff name "operator", str_eq_iff name "viewer")
  | inr (m, e) ↦
      let k = direct_known role m role_mappings mappings_known e in
      ground (arith, str_eq_iff name "admin", str_eq_iff name "operator", str_eq_iff name "viewer")
]

by_name_named :
    (n : String) (rs : List Role) (r : Role) → RoleTable.by_name n rs ≡ some r → r.name ≡ n
unfolding RoleTable.by_name
by_name_named n [] r h = ground arith
by_name_named n (q ∷ rs) r h = ground (arith, str_eq_iff q.name n, by_name_named n rs r)

-- The result of a mapping: some roles, all of them of the three names.
abbrev pub IsMapped : Result (List Role) × Directory → Type 0
IsMapped (ok [], d) = ⊥
IsMapped (ok (r ∷ rs), d) = All (λ q. IsKnownName q.name) (r ∷ rs)
IsMapped (err e, d) = Unit {0}

module _ (env : Env) (sort_roles : List Role → List Role) (order : ℕ → Mappings)
    (o : IsOrder order) where
  get_role_named :
      (n : String) (d : Directory) (r : Role)
      → (get_role_by_name env sort_roles order n d).0 ≡ ok r
      → r.name ≡ n
  unfolding get_role_by_name RoleTable.list
  get_role_named n d r h = ground (arith, by_name_named n (page 100 0 (sort_roles d.roles)) r)

  single_known :
      (role : String) (d : Directory) (r : Role)
      → (map_single_role env sort_roles order role d).0 ≡ ok (some r)
      → IsKnownName r.name
  unfolding map_single_role
  single_known role d r h = elim (Option-cases (target (order d.calls) role)) [
    | inl e ↦ ground arith
    | inr (n, e) ↦
        let k = target_known order d.calls role n o e in ground (arith, get_role_named n d r)
  ]

  map_each_known :
      (roles : List String) (d : Directory)
      → All (λ q. IsKnownName q.name) (map_each env sort_roles order roles d).0
  unfolding map_each
  map_each_known [] d = tt
  map_each_known (role ∷ roles) d =
      each (map_single_role env sort_roles order role d).0 refl
        (map_each_known roles (map_single_role env sort_roles order role d).1)
    where
      each :
          (r : Result (Option Role))
          → (map_single_role env sort_roles order role d).0 ≡ r
          → All
              (λ q. IsKnownName q.name)
              (map_each env sort_roles order roles
                (map_single_role env sort_roles order role d).1).0
          → All (λ q. IsKnownName q.name) (map_each env sort_roles order (role ∷ roles) d).0
      each (err e) h v = ground arith
      each (ok none) h v = ground arith
      each (ok (some r)) h v = rw (h, All, map_each) ((single_known role d r h, v))

  default-IsMapped : (d : Directory) → IsMapped (get_default_role env sort_roles order d)
  unfolding get_default_role
  default-IsMapped d = got (get_role_by_name env sort_roles order "viewer" d).0 refl
    where
      got :
          (r : Result Role)
          → (get_role_by_name env sort_roles order "viewer" d).0 ≡ r
          → IsMapped (get_default_role env sort_roles order d)
      got (err e) h = rw (h, IsMapped, get_default_role) tt
      got (ok r) h =
          rw (h, IsMapped, get_default_role) ((inr (inr (get_role_named "viewer" d r h)), tt))

  -- Whatever roles the provider names, in whichever order the map is visited and whichever calls
  -- fail: a mapping that succeeds gives at least one role, and each of them is named admin, operator
  -- or viewer.
  pub map_oidc_roles-IsMapped :
      (roles : List String) (d : Directory) → IsMapped (map_oidc_roles env sort_roles order roles d)
  unfolding map_oidc_roles
  map_oidc_roles-IsMapped [] d = default-IsMapped d
  map_oidc_roles-IsMapped (role ∷ roles) d =
      found (map_each env sort_roles order (role ∷ roles) d).0 refl
        (map_each_known (role ∷ roles) d)
    where
      found :
          (rs : List Role)
          → (map_each env sort_roles order (role ∷ roles) d).0 ≡ rs
          → All (λ q. IsKnownName q.name) (map_each env sort_roles order (role ∷ roles) d).0
          → IsMapped (map_oidc_roles env sort_roles order (role ∷ roles) d)
      found [] h v =
          rw (h, IsMapped, map_oidc_roles)
            (default-IsMapped (map_each env sort_roles order (role ∷ roles) d).1)
      found (r ∷ rs) h v =
          rw (h, IsMapped, map_oidc_roles) (subst (All (λ q. IsKnownName q.name)) h v)
