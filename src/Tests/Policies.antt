-- ===== src/Tests/Policies.antt =====
-- Permissions, the policy of Casbin and the ownership of resources, on the state of Setups.
use mckmt.Base.{
  ℕ, String, ◌≡◌, refl, sym, ◌∙◌, ◌≢◌, ◌↔◌, ◌⊎◌, inl, inr, Bool, true, false, not, ◌&&◌, Option,
  none, some, List, [], ◌∷◌, ok, Some, filter, str_eq, str_eq_iff, arith, if◌then◌else◌, Bool-cases,
}
use mckmt.Auth.Permissions.{Covers, check_user_permission}
use mckmt.Accounts.{Directory}
use mckmt.Accounts.PermissionTable.{
  Orders, user_has, role_has, get_user_permissions, get_user_permissions_by_resource,
  check_user_permission_exact,
}
use mckmt.Accounts.UserPermissions.{IsNamed, user_permissions_agree}
use mckmt.Auth.{User}
use mckmt.Auth.Middleware.{CasbinService, casbin_check, proceeds}
use mckmt.Auth.Ownership.{require_resource_ownership, ownership_ignores_resource}
use mckmt.Auth.Policies.{Rule, HasLink}
use mckmt.Auth.Policies.Members.{IsMember}
use mckmt.Auth.Policies.Service.{
  Rules, Service, add_user_role, remove_user_role, add_role_permission, remove_role_permission,
}
use mckmt.Auth.Policies.Changes.{IsChange, decision, changes_decide_nothing}
use mckmt.Tests.{env}
use mckmt.Tests.Setups.{directory}

-- Rows that are left in their order.
abbrev orders : Orders
orders = record { by_resource = λ ps. ps; by_action = λ ps. ps }

abbrev d : Directory
d = directory [] 0

user_permissions_agree_example :
    let ps = filter (user_has d.grants 7) d.grants.permissions in
    let exact = check_user_permission_exact false d.grants 7 "clusters" "read" ≡ ok true in
    let covered = check_user_permission false d.grants 7 "clusters" "read" ≡ ok true in
    (covered ↔ Some (Covers "clusters" "read") ps)
    × (exact ↔ Some (IsNamed "clusters" "read") ps)
    × (exact ↔ Some (λ p. p.action ≡ "read") ps)
    × (exact → covered)
unfolding user_has role_has get_user_permissions get_user_permissions_by_resource
user_permissions_agree_example =
    let ps = filter (user_has d.grants 7) d.grants.permissions in
    user_permissions_agree env orders 7 "clusters" "read" d (record d { calls = 1 })
      (record d { calls = 1 }) ps ps (λ p ps. (λ h. h, λ h. h)) (λ p ps. (λ h. h, λ h. h)) refl refl

abbrev user : User
user = record { id = "7"; username = "ann"; email = "ann@b.c"; roles = [] }

abbrev parse : String → Option ℕ
parse s = if str_eq s "7" then some 7 else none

-- Ann may read clusters, and owns none.
abbrev casbin : CasbinService
casbin = record {
  enforce = λ who what how. ok (str_eq how "read");
  enabled = true;
  rbac_enabled = true;
  permission_repo = λ i resource action. ok false;
}

ownership_ignores_resource_example :
    (require_resource_ownership parse (λ b. true) casbin "clusters" (1 ∷ []) [] (some user)
      ≡ require_resource_ownership parse (λ b. true) casbin "clusters" (2 ∷ []) [] (some user))
    × ((require_resource_ownership parse (λ b. true) casbin "clusters" (1 ∷ []) [] (some user)
          ≡ proceeds tt)
        ↔ ((casbin_check casbin (some user) 7 "clusters" "own" ≡ ok true)
            ⊎ ((casbin_check casbin (some user) 7 "clusters" "own" ≡ ok false)
                × (casbin_check casbin (some user) 7 "clusters" "read" ≡ ok true))))
ownership_ignores_resource_example =
    ownership_ignores_resource parse (λ b. true) casbin user 7 "clusters" (1 ∷ []) (2 ∷ []) [] refl
      refl refl (λ h. ground arith) (λ h. ground arith) refl

-- An enforcer that keeps its rules in a list.
abbrev same_rule : Rule → Rule → Bool
same_rule p q = str_eq p.sub q.sub && str_eq p.obj q.obj && str_eq p.act q.act

abbrev rules : Rules
rules = record {
  add_policy = λ r p. (ok true, record p { rules = r ∷ p.rules });
  remove_policy = λ r p. (ok true, record p { rules = filter (λ q. not (same_rule q r)) p.rules });
  get_filtered_policy = λ p s. filter (λ r. str_eq r.sub s) p.rules;
}

add-IsChange : IsChange rules.add_policy
add-IsChange = record {
  groupings = λ r p. refl;
  others = λ r q p n. (λ h. elim h [ inl e ↦ absurd (n (sym e)) | inr m ↦ m ], λ m. inr m);
}

same_rule_lem : (p q : Rule) → same_rule p q ≡ true → p ≡ q
same_rule_lem p q h =
    let a : p.sub ≡ q.sub = ground (arith, str_eq_iff p.sub q.sub) in
    let b : p.obj ≡ q.obj = ground (arith, str_eq_iff p.obj q.obj) in
    let c : p.act ≡ q.act = ground (arith, str_eq_iff p.act q.act) in
    λ i. record { sub = a i; obj = b i; act = c i }

kept_iff :
    (r q : Rule) (xs : List Rule)
    → q ≢ r
    → IsMember q (filter (λ x. not (same_rule x r)) xs) ↔ IsMember q xs
kept_iff r q [] n = (λ h. h, λ h. h)
kept_iff r q (x ∷ xs) n = elim (Bool-cases (same_rule x r)) [
  | inr e ↦ rw e (
      (
        λ h. elim h [ inl f ↦ inl f | inr m ↦ inr ((kept_iff r q xs n).0 m) ],
        λ h. elim h [ inl f ↦ inl f | inr m ↦ inr ((kept_iff r q xs n).1 m) ],
      ))
  | inl e ↦ rw e (
      (
        λ h. inr ((kept_iff r q xs n).0 h),
        λ h. elim h [
          | inl f ↦ absurd (n (sym f ∙ same_rule_lem x r e))
          | inr m ↦ (kept_iff r q xs n).1 m
        ],
      ))
]

remove-IsChange : IsChange rules.remove_policy
remove-IsChange = record { groupings = λ r p. refl; others = λ r q p n. kept_iff r q p.rules n }

abbrev service : Service
service = record {
  enforcer = some (record {
    groupings = ("ann", "viewer") ∷ [];
    rules = record { sub = "viewer"; obj = "clusters"; act = "read" } ∷ [];
  });
  enabled = true;
  rbac_enabled = true;
  default_role = "viewer";
}

abbrev link : HasLink
link gs a b = str_eq a b

clusters_ne : ◌≢◌ {A = String} "clusters" "placeholder"
clusters_ne e = never ((str_eq_iff "clusters" "placeholder").1 e)
  where
    never : false ≡ true → ⊥
    never h = ground arith

changes_decide_nothing_example :
    let decided = decision link "viewer" "clusters" "read" in
    (decided (add_user_role rules 7 20 service).1 ≡ decided service)
    × (decided (remove_user_role rules 7 20 service).1 ≡ decided service)
    × (decided (add_role_permission rules 7 20 service).1 ≡ decided service)
    × (decided (remove_role_permission rules 7 20 service).1 ≡ decided service)
changes_decide_nothing_example =
    changes_decide_nothing link "viewer" "clusters" "read" rules 7 20 service add-IsChange
      remove-IsChange clusters_ne
