-- ===== src/Auth/Policies/Loading.antt =====
-- What a loaded policy allows (Auth/Policies).
use mckmt.Base.{
  ℕ, ◌≡◌, refl, sym, subst, ap, ◌∙◌, ◌&&◌, ◌||◌, ◌⊎◌, String, true, false, List, [], ◌∷◌, ◌++◌, map,
  ok, any, str_eq, str_eq_iff, arith, inl, inr,
}
use mckmt.Repo.Store.{Env}
use mckmt.Accounts.{Role, Account, Directory, RolesCodec, counted, role_key}
use mckmt.Accounts.UserTable
use mckmt.Accounts.RoleTable
use mckmt.Accounts.RoleTable.{joined, permission_key}
use mckmt.Auth.Permissions.{Permission, Covers}
use mckmt.Auth.Policies.Members.{IsMember, IsMember-left, IsMember-right, IsMember-map}
use mckmt.Auth.Policies.{
  Rule, Policy, HasLink, enforce, rule_of, load_roles, load_users, load_policy,
}

-- The roles of a user and the permissions of a role, as the queries give them.
abbrev pub roles_of : (List Role → List Role) → Directory → Account → List Role
roles_of sort_roles d u = sort_roles (joined role_key d.roles u.id d.grants.user_roles)

abbrev pub permissions_of : Directory → Role → List Permission
permissions_of d role = joined permission_key d.grants.permissions role.id d.grants.role_permissions

-- What Casbin documents of its role manager: a name has itself, and what it was given.
abbrev pub IsRoleManager : HasLink → Type 0
IsRoleManager has_link =
    (gs : List (String × String)) (a b : String)
    → ((a ≡ b) ⊎ IsMember (a, b) gs)
    → has_link gs a b ≡ true

module _ (env : Env) (healthy : (n : ℕ) → env.fails n ≡ false) (codec : RolesCodec)
    (sort_roles : List Role → List Role) where
  load_roles_keeps :
      (username : String) (roles : List Role) (d : Directory)
      → ((load_roles env codec sort_roles username roles d).1.roles ≡ d.roles)
        × ((load_roles env codec sort_roles username roles d).1.grants ≡ d.grants)
  unfolding load_roles RoleTable.get_role_permissions
  load_roles_keeps username [] d = (refl, refl)
  load_roles_keeps username (role ∷ roles) d =
      let h = load_roles_keeps username roles (counted d) in ground (arith, healthy d.calls)

  abbrev rest_of : String → List Role → Directory → Policy
  rest_of username roles d = (load_roles env codec sort_roles username roles (counted d)).0

  load_roles-cons :
      (username : String) (x : Role) (roles : List Role) (d : Directory)
      → (load_roles env codec sort_roles username (x ∷ roles) d).0 ≡ record {
        groupings = (username, x.name) ∷ (rest_of username roles d).groupings;
        rules = map (rule_of x) (permissions_of d x) ++ (rest_of username roles d).rules;
      }
  unfolding load_roles RoleTable.get_role_permissions
  load_roles-cons username x roles d = ground (arith, healthy d.calls)

  abbrev IsLoaded : String → Role → Permission → Policy → Type 0
  IsLoaded username role p policy =
      IsMember (username, role.name) policy.groupings × IsMember (rule_of role p) policy.rules

  load_roles-IsLoaded :
      (username : String) (roles : List Role) (d : Directory) (role : Role) (p : Permission)
      → IsMember role roles
      → IsMember p (permissions_of d role)
      → IsLoaded username role p (load_roles env codec sort_roles username roles d).0
  load_roles-IsLoaded username [] d role p h q = absurd h
  load_roles-IsLoaded username (x ∷ roles) d role p (inl h) q =
      let there = IsMember-map (rule_of role) p (permissions_of d role) q in
      let mine =
        IsMember-left (rule_of role p) (map (rule_of role) (permissions_of d role))
          (rest_of username roles d).rules there in
      subst (IsLoaded username role p) (sym (load_roles-cons username x roles d)) (
        inl (ap (λ r. (username, r.name)) h),
        subst
            (λ r.
              IsMember (rule_of role p)
                (map (rule_of r) (permissions_of d r) ++ (rest_of username roles d).rules))
            (sym h) mine,
      )
  load_roles-IsLoaded username (x ∷ roles) d role p (inr h) q =
      let (a, b) = load_roles-IsLoaded username roles (counted d) role p h q in
      subst (IsLoaded username role p) (sym (load_roles-cons username x roles d)) (
        inr a,
        IsMember-right (rule_of role p) (map (rule_of x) (permissions_of d x))
            (rest_of username roles d).rules b,
      )

  abbrev mine_of : Account → Directory → Policy × Directory
  mine_of u d = load_roles env codec sort_roles u.username (roles_of sort_roles d u) (counted d)

  load_users-cons :
      (u : Account) (us : List Account) (d : Directory)
      → (load_users env codec sort_roles (u ∷ us) d).0 ≡ record {
        groupings =
            (mine_of u d).0.groupings
            ++ (load_users env codec sort_roles us (mine_of u d).1).0.groupings;
        rules =
            (mine_of u d).0.rules ++ (load_users env codec sort_roles us (mine_of u d).1).0.rules;
      }
  unfolding load_users RoleTable.get_user_roles
  load_users-cons u us d = ground (arith, healthy d.calls)

  load_users-IsLoaded :
      (us : List Account) (d d₀ : Directory) (u : Account) (role : Role) (p : Permission)
      → d.roles ≡ d₀.roles
      → d.grants ≡ d₀.grants
      → IsMember u us
      → IsMember role (roles_of sort_roles d₀ u)
      → IsMember p (permissions_of d₀ role)
      → IsLoaded u.username role p (load_users env codec sort_roles us d).0
  load_users-IsLoaded [] d d₀ u role p e f m q r = absurd m
  load_users-IsLoaded (x ∷ us) d d₀ u role p e f (inl h) q r =
      let has : IsMember role (roles_of sort_roles d u) = rw (e, f) q in
      let holds : IsMember p (permissions_of d role) = rw f r in
      let has' : IsMember role (roles_of sort_roles d x) =
        subst (λ y. IsMember role (roles_of sort_roles d y)) (sym h) has in
      let (a, b) =
        load_roles-IsLoaded x.username (roles_of sort_roles d x) (counted d) role p has' holds in
      let rest = (load_users env codec sort_roles us (mine_of x d).1).0 in
      let both : IsLoaded x.username role p (load_users env codec sort_roles (x ∷ us) d).0 =
        subst (IsLoaded x.username role p) (sym (load_users-cons x us d)) (
          IsMember-left (x.username, role.name) (mine_of x d).0.groupings rest.groupings a,
          IsMember-left (rule_of role p) (mine_of x d).0.rules rest.rules b,
        ) in
      subst (λ y. IsLoaded y.username role p (load_users env codec sort_roles (x ∷ us) d).0) h both
  load_users-IsLoaded (x ∷ us) d d₀ u role p e f (inr h) q r =
      let (k, l) = load_roles_keeps x.username (roles_of sort_roles d x) (counted d) in
      let rest = (load_users env codec sort_roles us (mine_of x d).1).0 in
      let (a, b) = load_users-IsLoaded us (mine_of x d).1 d₀ u role p (k ∙ e) (l ∙ f) h q r in
      subst (IsLoaded u.username role p) (sym (load_users-cons x us d)) (
        IsMember-right (u.username, role.name) (mine_of x d).0.groupings rest.groupings a,
        IsMember-right (rule_of role p) (mine_of x d).0.rules rest.rules b,
      )

  rule_allows :
      (has_link : HasLink) (gs : List (String × String)) (rs : List Rule) (sub obj act : String)
      (role : Role) (p : Permission)
      → has_link gs sub role.name ≡ true
      → Covers obj act p
      → IsMember (rule_of role p) rs
      → any
          (λ q.
            has_link gs sub q.sub
            && (str_eq q.obj obj || str_eq q.obj "*")
            && (str_eq q.act act || str_eq q.act "*"))
          rs
        ≡ true
  rule_allows has_link gs [] sub obj act role p h c m = absurd m
  rule_allows has_link gs (r ∷ rs) sub obj act role p h c (inl e) = rw e (
      ground (
        arith,
        str_eq_iff p.resource obj,
        str_eq_iff p.resource "*",
        str_eq_iff p.action act,
        str_eq_iff p.action "*",
      ))
  rule_allows has_link gs (r ∷ rs) sub obj act role p h c (inr m) =
      ground (arith, rule_allows has_link gs rs sub obj act role p h c m)

  list_keeps :
      (d : Directory)
      → ((UserTable.list env codec 1000 0 d).1.roles ≡ d.roles)
        × ((UserTable.list env codec 1000 0 d).1.grants ≡ d.grants)
  unfolding UserTable.list
  list_keeps d = (ground arith, ground arith)

  policy_of :
      (d : Directory) (users : List Account)
      → (UserTable.list env codec 1000 0 d).0 ≡ ok users
      → (load_policy env codec sort_roles d).0
        ≡ ok (load_users env codec sort_roles users (UserTable.list env codec 1000 0 d).1).0
  unfolding load_policy
  policy_of d users h = ground arith

  -- Where the database answers and Casbin's role manager links each name to itself and to what it was
  -- given: for a user among the first 1000, a role of that user and a permission of that role, the
  -- loaded policy allows what the permission covers to the user's name; and it allows it to the name of
  -- the role as well, so to any account whose username is that name.
  pub load_policy-Covers :
      (has_link : HasLink) (d : Directory) (users : List Account) (u : Account) (role : Role)
      (p : Permission) (sub obj act : String)
      → IsRoleManager has_link
      → (UserTable.list env codec 1000 0 d).0 ≡ ok users
      → IsMember u users
      → IsMember role (roles_of sort_roles d u)
      → IsMember p (permissions_of d role)
      → Covers obj act p
      → (sub ≡ u.username) ⊎ (sub ≡ role.name)
      → (policy : Policy) × ((load_policy env codec sort_roles d).0 ≡ ok policy)
        × (enforce has_link policy sub obj act ≡ true)
  unfolding enforce
  load_policy-Covers has_link d users u role p sub obj act manages h m q r c s =
      let d₁ = (UserTable.list env codec 1000 0 d).1 in
      let (e, f) = list_keeps d in
      let (a, b) = load_users-IsLoaded users d₁ d u role p e f m q r in
      let policy = (load_users env codec sort_roles users d₁).0 in
      let self = manages policy.groupings role.name role.name (inl refl) in
      let given = manages policy.groupings u.username role.name (inr a) in
      let linked : has_link policy.groupings sub role.name ≡ true = elim s [
        | inl k ↦ rw k given
        | inr k ↦ rw k self
      ] in
      (
        policy,
        policy_of d users h,
        rule_allows has_link policy.groupings policy.rules sub obj act role p linked c b,
      )
