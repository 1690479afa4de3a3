-- ===== src/Auth/Policies.antt =====
-- LoadPolicy and the default model of internal/auth/casbin.go. The role manager of Casbin, `g` in the
-- matcher, is the parameter `has_link`.
pub mod Members
pub mod Loading
pub mod Service
pub mod Changes
use mckmt.Base.{
  ℕ, String, Bool, ◌&&◌, ◌||◌, List, [], ◌∷◌, ◌++◌, map, Result, ok, err, wrapped, any, str_eq,
}
use mckmt.Repo.Store.{Env}
use mckmt.Accounts.{Role, Account, Directory, D, RolesCodec}
use mckmt.Accounts.UserTable
use mckmt.Accounts.RoleTable
use mckmt.Auth.Permissions.{Permission}

-- A rule of `p`: subject, object and action.
pub record Rule : Type 0 where
  pub sub : String
  pub obj : String
  pub act : String

pub record Policy : Type 0 where
  pub groupings : List (String × String)
  pub rules : List Rule

abbrev pub HasLink : Type 0
HasLink = List (String × String) → String → String → Bool

-- The matcher and the effect of the model.
unfoldable pub enforce : HasLink → Policy → String → String → String → Bool
enforce has_link policy sub obj act =
    any
      (λ p.
        has_link policy.groupings sub p.sub
        && (str_eq p.obj obj || str_eq p.obj "*")
        && (str_eq p.act act || str_eq p.act "*"))
      policy.rules

abbrev pub rule_of : Role → Permission → Rule
rule_of role p = record { sub = role.name; obj = p.resource; act = p.action }

module _ (env : Env) (codec : RolesCodec) (sort_roles : List Role → List Role) where
  -- The loop over the roles of a user: a failed query is logged.
  unfoldable pub load_roles : String → List Role → Directory → Policy × Directory
  load_roles username [] d = (record { groupings = []; rules = [] }, d)
  load_roles username (role ∷ roles) d =
      let (r, d₁) = RoleTable.get_role_permissions env sort_roles role.id d in
      let (rest, d₂) = load_roles username roles d₁ in
      elim r [
        | err _ ↦ (record rest { groupings = (username, role.name) ∷ rest.groupings }, d₂)
        | ok ps ↦ (
          record {
            groupings = (username, role.name) ∷ rest.groupings;
            rules = map (rule_of role) ps ++ rest.rules;
          },
          d₂,
        )
      ]

  -- The loop over the users.
  unfoldable pub load_users : List Account → Directory → Policy × Directory
  unfolding load_roles
  load_users [] d = (record { groupings = []; rules = [] }, d)
  load_users (u ∷ us) d =
      let (r, d₁) = RoleTable.get_user_roles env sort_roles u.id d in
      elim r [
        | err _ ↦ load_users us d₁
        | ok roles ↦
            let (mine, d₂) = load_roles u.username roles d₁ in
            let (rest, d₃) = load_users us d₂ in
            (
              record {
                groupings = mine.groupings ++ rest.groupings;
                rules = mine.rules ++ rest.rules;
              },
              d₃,
            )
      ]

  unfoldable pub load_policy : D Policy
  unfolding load_users
  load_policy d =
      let (r, d₁) = UserTable.list env codec 1000 0 d in
      elim r [
        | err e ↦ (err (wrapped "failed to load users" e), d₁)
        | ok users ↦ let (policy, d₂) = load_users users d₁ in (ok policy, d₂)
      ]
