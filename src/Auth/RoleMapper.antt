-- ===== src/Auth/RoleMapper.antt =====
-- internal/auth/role_mapper.go. A text is taken by its code points: in UTF-8 one text stands in
-- another by bytes exactly where it does by code points. `order` is the order in which the n-th
-- `range` visits the map.
pub mod Contains
pub mod Targets
use mckmt.Base.{
  ℕ, ◌-◌, zero, suc, String, Bool, true, false, ◌&&◌, ◌||◌, Option, none, some, List, [], ◌∷◌,
  Result, ok, err, failed, wrapped, if◌then◌else◌, ltb, leb, length, take, drop, codes, list_eq,
  str_eq, str_append,
}
use mckmt.Repo.Store.{Env}
use mckmt.Accounts.{Role, Directory, D}
use mckmt.Accounts.RoleTable

-- The loop of containsSubstring: `n` more positions of `s`.
unfoldable pub contains_from : ℕ → List ℕ → List ℕ → Bool
contains_from zero s sub = list_eq (take (length sub) s) sub
contains_from (suc n) s sub =
    let rest = contains_from n (drop 1 s) sub in
    if list_eq (take (length sub) s) sub then true else rest

unfoldable pub contains_substring : List ℕ → List ℕ → Bool
unfolding contains_from
contains_substring s sub = contains_from (length s - length sub) s sub

unfoldable pub contains : List ℕ → List ℕ → Bool
contains s sub =
    leb (length sub) (length s)
    && (list_eq s sub
        || ltb (length sub) (length s)
          && (list_eq (take (length sub) s) sub
              || list_eq (drop (length s - length sub) s) sub
              || contains_substring s sub))

abbrev pub Mappings : Type 0
Mappings = List (String × String)

abbrev pub role_mappings : Mappings
role_mappings =
    ("admin", "admin")
    ∷ ("administrator", "admin")
    ∷ ("superuser", "admin")
    ∷ ("operator", "operator")
    ∷ ("ops", "operator")
    ∷ ("viewer", "viewer")
    ∷ ("readonly", "viewer")
    ∷ ("user", "viewer")
    ∷ ("member", "viewer")
    ∷ ("mckmt-admin", "admin")
    ∷ ("mckmt-operator", "operator")
    ∷ ("mckmt-viewer", "viewer")
    ∷ []

-- roleMappings[oidcRole]
unfoldable pub direct : String → Mappings → Option String
direct role [] = none
direct role ((pattern, name) ∷ ms) = if str_eq pattern role then some name else direct role ms

abbrev pub partial_match : String → String × String → Bool
partial_match role m = contains (codes role) (codes m.0) || contains (codes m.0) (codes role)

-- The loop over the map.
unfoldable pub first_partial : String → Mappings → Option String
first_partial role [] = none
first_partial role (m ∷ ms) = if partial_match role m then some m.1 else first_partial role ms

-- The name that a role is mapped to.
unfoldable pub target : Mappings → String → Option String
unfolding direct first_partial
target order role = elim (direct role role_mappings) [
  | some name ↦ some name
  | none ↦ first_partial role order
]

module _ (env : Env) (sort_roles : List Role → List Role) (order : ℕ → Mappings) where
  unfoldable pub get_role_by_name : String → D Role
  get_role_by_name name d =
      let (r, d') = RoleTable.list env sort_roles 100 0 d in
      elim r [
        | err e ↦ (err (wrapped "failed to list roles" e), d')
        | ok roles ↦ elim (RoleTable.by_name name roles) [
          | some role ↦ (ok role, d')
          | none ↦ (err (failed (str_append "role not found: " name)), d')
        ]
      ]

  unfoldable pub get_default_role : D (List Role)
  unfolding get_role_by_name
  get_default_role d =
      let (r, d') = get_role_by_name "viewer" d in
      elim r [
        | err e ↦ (err (wrapped "failed to get default role" e), d')
        | ok role ↦ (ok (role ∷ []), d')
      ]

  -- mapSingleRole; `none` is its nil.
  unfoldable pub map_single_role : String → D (Option Role)
  unfolding target get_role_by_name
  map_single_role role d = elim (target (order d.calls) role) [
    | none ↦ (ok none, d)
    | some name ↦
        let (r, d') = get_role_by_name name d in
        elim r [ err e ↦ (err e, d') | ok found ↦ (ok (some found), d') ]
  ]

  -- The loop of MapOIDCRolesToDatabaseRoles: an error is logged.
  unfoldable pub map_each : List String → Directory → List Role × Directory
  unfolding map_single_role
  map_each [] d = ([], d)
  map_each (role ∷ roles) d =
      let (r, d₁) = map_single_role role d in
      let (rest, d₂) = map_each roles d₁ in
      elim r [ err _ ↦ (rest, d₂) | ok none ↦ (rest, d₂) | ok (some found) ↦ (found ∷ rest, d₂) ]

  unfoldable pub map_oidc_roles : List String → D (List Role)
  unfolding map_each get_default_role
  map_oidc_roles [] d = get_default_role d
  map_oidc_roles (role ∷ roles) d =
      let (found, d') = map_each (role ∷ roles) d in
      elim found [ [] ↦ get_default_role d' | r ∷ rs ↦ (ok (r ∷ rs), d') ]
