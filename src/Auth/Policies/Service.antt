-- ===== src/Auth/Policies/Service.antt =====
-- CasbinService of internal/auth/casbin.go, behind its checks (Auth/Middleware): how it is built, and
-- the calls that change or list its policy. The enforcer of Casbin is a parameter.
use mckmt.Base.{
  ℕ, String, Bool, true, false, not, Option, none, some, List, [], map, Result, ok, err, failed,
  wrapped, if◌then◌else◌, str_eq, str_append,
}
use mckmt.Accounts.{Role, Account, AuthSource, Directory, D}
use mckmt.Auth.Permissions.{Permission}
use mckmt.Auth.Policies.{Rule, Policy}

-- AddPolicy and RemovePolicy of the enforcer, which say whether the rules have changed, and
-- GetFilteredPolicy(0, subject).
pub record Rules : Type 0 where
  pub add_policy : Rule → Policy → Result Bool × Policy
  pub remove_policy : Rule → Policy → Result Bool × Policy
  pub get_filtered_policy : Policy → String → List Rule

-- The service, with the policy that its enforcer holds; `none` is a nil enforcer, which a service that
-- is enabled never has.
pub record Service : Type 0 where
  pub enforcer : Option Policy
  pub enabled : Bool
  pub rbac_enabled : Bool
  pub default_role : String

-- SavePolicy, AddPolicy, RemovePolicy and RemoveFilteredPolicy of the adapter.
unfoldable pub save_policy : Policy → Result (Unit {0})
save_policy policy = ok tt

unfoldable pub adapter_add_policy : String → String → List String → Result (Unit {0})
adapter_add_policy sec ptype rule = ok tt

unfoldable pub adapter_remove_policy : String → String → List String → Result (Unit {0})
adapter_remove_policy sec ptype rule = ok tt

unfoldable pub adapter_remove_filtered_policy :
    String → String → ℕ → List String → Result (Unit {0})
adapter_remove_filtered_policy sec ptype field values = ok tt

-- The model of a file, the built-in one, and the enforcer that Casbin builds of a model and of the
-- adapter's LoadPolicy; `reload` is LoadPolicy of the enforcer.
module _ {Model : Type 0} (new_model_from_file : String → Result Model)
    (default_model : Result Model) (new_enforcer : Model → D Policy)
    (reload : Policy → D Policy) where
  abbrev model_of : String → Result Model
  model_of file =
      if not (str_eq file "")
      then (elim (new_model_from_file file) [
        | err e ↦ err (wrapped (str_append "failed to load Casbin model from file " file) e)
        | ok m ↦ ok m
      ])
      else (elim default_model [
        | err e ↦ err (wrapped "failed to create Casbin model" e)
        | ok m ↦ ok m
      ])

  unfoldable pub new_casbin_service : Bool → Bool → String → String → D Service
  new_casbin_service rbac_enabled casbin_enabled default_role model_file d =
      if not rbac_enabled
      then (
        ok (record {
          enforcer = none;
          enabled = false;
          rbac_enabled = false;
          default_role = default_role;
        }),
        d,
      )
      else if not casbin_enabled
      then (
        ok (record {
          enforcer = none;
          enabled = false;
          rbac_enabled = true;
          default_role = default_role;
        }),
        d,
      )
      else elim (model_of model_file) [
        | err e ↦ (err e, d)
        | ok m ↦
            let (r, d₁) = new_enforcer m d in
            elim r [
              | err e ↦ (err (wrapped "failed to create Casbin enforcer" e), d₁)
              | ok p ↦
                  let (r₂, d₂) = reload p d₁ in
                  elim r₂ [
                    | err e ↦ (err (wrapped "failed to load Casbin policies" e), d₂)
                    | ok p₂ ↦ (
                      ok (record {
                        enforcer = some p₂;
                        enabled = true;
                        rbac_enabled = true;
                        default_role = default_role;
                      }),
                      d₂,
                    )
                  ]
            ]
      ]

  -- A reload that fails leaves the policy as it is.
  unfoldable pub reload_policies : Service → Directory → Result (Unit {0}) × Service × Directory
  reload_policies c d = if not c.enabled then (ok tt, c, d) else elim c.enforcer [
    | none ↦ (err (failed "nil enforcer"), c, d)
    | some p ↦
        let (r, d₁) = reload p d in
        elim r [ err e ↦ (err e, c, d₁) | ok p₂ ↦ (ok tt, record c { enforcer = some p₂ }, d₁) ]
  ]

-- The placeholders.
unfoldable pub get_role_by_id : ℕ → Result Role
get_role_by_id i = ok (record { id = i; name = "placeholder" })

unfoldable pub get_user_by_id : ℕ → Result Account
get_user_by_id i = ok (record {
  id = i;
  username = "placeholder";
  email = "";
  password_hash = [];
  auth_source = AuthSource.other "";
  active = false;
  created_at = 0;
  updated_at = 0;
  roles = [];
})

unfoldable pub get_permission_by_id : ℕ → Result Permission
get_permission_by_id i =
    ok (record { id = i; name = ""; resource = "placeholder"; action = "placeholder" })

-- What the four calls that change the policy have in common: the rule, and the call of the enforcer.
abbrev pub Change : Type 0
Change = Rule → Policy → Result Bool × Policy

abbrev pub changed : Change → String → Result Rule → Service → Result (Unit {0}) × Service
changed change message r c = if not c.enabled then (ok tt, c) else elim r [
  | err e ↦ (err e, c)
  | ok rule ↦ elim c.enforcer [
    | none ↦ (err (failed "nil enforcer"), c)
    | some p ↦
        let (done, p₂) = change rule p in
        elim done [
          | err e ↦ (err (wrapped message e), record c { enforcer = some p₂ })
          | ok _ ↦ (ok tt, record c { enforcer = some p₂ })
        ]
  ]
]

-- The rule that AddUserRole and RemoveUserRole write, with an empty third field.
unfoldable pub user_rule : ℕ → ℕ → Result Rule
unfolding get_role_by_id get_user_by_id
user_rule user_id role_id = elim (get_role_by_id role_id) [
  | err e ↦ err (wrapped "failed to get role" e)
  | ok role ↦ elim (get_user_by_id user_id) [
    | err e ↦ err (wrapped "failed to get user" e)
    | ok user ↦ ok (record { sub = user.username; obj = role.name; act = "" })
  ]
]

unfoldable pub role_rule : ℕ → ℕ → Result Rule
unfolding get_role_by_id get_permission_by_id
role_rule role_id permission_id = elim (get_role_by_id role_id) [
  | err e ↦ err (wrapped "failed to get role" e)
  | ok role ↦ elim (get_permission_by_id permission_id) [
    | err e ↦ err (wrapped "failed to get permission" e)
    | ok p ↦ ok (record { sub = role.name; obj = p.resource; act = p.action })
  ]
]

module _ (rules : Rules) where
  unfoldable pub add_user_role : ℕ → ℕ → Service → Result (Unit {0}) × Service
  unfolding user_rule
  add_user_role user_id role_id =
      changed rules.add_policy "failed to add user role policy" (user_rule user_id role_id)

  unfoldable pub remove_user_role : ℕ → ℕ → Service → Result (Unit {0}) × Service
  unfolding user_rule
  remove_user_role user_id role_id =
      changed rules.remove_policy "failed to remove user role policy" (user_rule user_id role_id)

  unfoldable pub add_role_permission : ℕ → ℕ → Service → Result (Unit {0}) × Service
  unfolding role_rule
  add_role_permission role_id permission_id =
      changed rules.add_policy "failed to add role permission policy"
        (role_rule role_id permission_id)

  unfoldable pub remove_role_permission : ℕ → ℕ → Service → Result (Unit {0}) × Service
  unfolding role_rule
  remove_role_permission role_id permission_id =
      changed rules.remove_policy "failed to remove role permission policy"
        (role_rule role_id permission_id)

  abbrev permission_of : Rule → Permission
  permission_of r = record { id = 0; name = ""; resource = r.obj; action = r.act }

  -- A rule of `p` has three fields.
  unfoldable pub get_user_permissions : ℕ → Service → Result (List Permission)
  unfolding get_user_by_id
  get_user_permissions user_id c =
      if not c.enabled then err (failed "Casbin is disabled") else elim (get_user_by_id user_id) [
        | err e ↦ err (wrapped "failed to get user" e)
        | ok user ↦ elim c.enforcer [
          | none ↦ err (failed "nil enforcer")
          | some p ↦ ok (map permission_of (rules.get_filtered_policy p user.username))
        ]
      ]

-- IsEnabled, IsRBACEnabled and GetDefaultRole.
abbrev pub is_enabled : Service → Bool
is_enabled c = c.enabled

abbrev pub is_rbac_enabled : Service → Bool
is_rbac_enabled c = c.rbac_enabled

abbrev pub get_default_role : Service → String
get_default_role c = c.default_role
