-- ===== src/Auth/Policies/Changes.antt =====
-- What the calls that change the policy do to the decisions (Auth/Policies/Service).
use mckmt.Base.{
  ℕ, String, ◌≡◌, sym, subst, ◌≢◌, ◌↔◌, inl, inr, Bool, true, false, ◌&&◌, ◌||◌, none, some, List,
  ok, any, any_iff, str_eq, str_eq_iff, arith, Option-cases,
}
use mckmt.Auth.Policies.{Rule, Policy, HasLink, enforce}
use mckmt.Auth.Policies.Members.{IsMember, Some-IsMember, IsMember-Some}
use mckmt.Auth.Policies.Service.{
  Rules, Service, Change, changed, user_rule, role_rule, add_user_role, remove_user_role,
  add_role_permission, remove_role_permission, get_role_by_id, get_user_by_id, get_permission_by_id,
}

-- A call of the enforcer leaves the groupings, and every rule but the one that it names.
pub record IsChange (change : Change) : Type 0 where
  pub groupings : (r : Rule) (p : Policy) → (change r p).1.groupings ≡ p.groupings
  pub others :
      (r q : Rule) (p : Policy) → q ≢ r → IsMember q (change r p).1.rules ↔ IsMember q p.rules

star_ne : ◌≢◌ {A = String} "placeholder" "*"
star_ne e = no_true ((str_eq_iff "placeholder" "*").1 e)
  where
    no_true : false ≡ true → ⊥
    no_true h = ground arith

bool_ext : (a b : Bool) → (a ≡ true → b ≡ true) → (b ≡ true → a ≡ true) → a ≡ b
bool_ext a b f g = ground arith

module _ (has_link : HasLink) (sub obj act : String) where
  abbrev decides : List (String × String) → Rule → Bool
  decides gs p =
      has_link gs sub p.sub
      && (str_eq p.obj obj || str_eq p.obj "*")
      && (str_eq p.act act || str_eq p.act "*")

  -- A rule on another object decides nothing.
  decides-obj :
      (gs : List (String × String)) (r : Rule) → r.obj ≢ obj → r.obj ≢ "*" → decides gs r ≡ true → ⊥
  decides-obj gs r n m h = ground (arith, str_eq_iff r.obj obj, str_eq_iff r.obj "*")

  moved :
      (r : Rule) (gs : List (String × String)) (xs ys : List Rule)
      → (decides gs r ≡ true → ⊥)
      → ((q : Rule) → q ≢ r → IsMember q xs → IsMember q ys)
      → any (decides gs) xs ≡ true
      → any (decides gs) ys ≡ true
  moved r gs xs ys n m h =
      let P = λ (q : Rule). decides gs q ≡ true in
      let same : (q : Rule) → (decides gs q ≡ true) ↔ (decides gs q ≡ true) =
        λ q. (λ x. x, λ x. x) in
      let (q, i, d) = Some-IsMember P xs ((any_iff P (decides gs) same xs).0 h) in
      (any_iff P (decides gs) same ys).1 (IsMember-Some P ys q (m q (λ e. n (subst P e d)) i) d)

  -- One call of the enforcer, with a rule on another object.
  change-enforce :
      (change : Change) (r : Rule) (p : Policy)
      → IsChange change
      → r.obj ≢ obj
      → r.obj ≢ "*"
      → enforce has_link (change r p).1 sub obj act ≡ enforce has_link p sub obj act
  unfolding enforce
  change-enforce change r p k n m =
      let gs = p.groupings in
      let inert = decides-obj gs r n m in
      let p₂ = (change r p).1 in
      let same = k.groupings r p in
      subst (λ hs. any (decides hs) p₂.rules ≡ any (decides gs) p.rules) (sym same)
        (bool_ext (any (decides gs) p₂.rules) (any (decides gs) p.rules)
          (moved r gs p₂.rules p.rules inert (λ q e. (k.others r q p e).0))
          (moved r gs p.rules p₂.rules inert (λ q e. (k.others r q p e).1)))

  -- What the service decides by its policy.
  abbrev pub decision : Service → Bool
  decision c = elim c.enforcer [ none ↦ false | some p ↦ enforce has_link p sub obj act ]

  changed-decision :
      (change : Change) (message : String) (r : Rule) (c : Service)
      → IsChange change
      → r.obj ≢ obj
      → r.obj ≢ "*"
      → decision (changed change message (ok r) c).1 ≡ decision c
  changed-decision change message r c k n m = elim (Option-cases c.enforcer) [
    | inl e ↦ ground arith
    | inr (p, e) ↦ ground (arith, change-enforce change r p k n m)
  ]

  -- The object is not the text "placeholder". Then AddUserRole, RemoveUserRole, AddRolePermission and
  -- RemoveRolePermission, of whatever user, role and permission, change no decision of the policy:
  -- neither does a user gain or lose a role, nor a role a permission.
  pub changes_decide_nothing :
      (rules : Rules) (i j : ℕ) (c : Service)
      → IsChange rules.add_policy
      → IsChange rules.remove_policy
      → obj ≢ "placeholder"
      → (decision (add_user_role rules i j c).1 ≡ decision c)
        × (decision (remove_user_role rules i j c).1 ≡ decision c)
        × (decision (add_role_permission rules i j c).1 ≡ decision c)
        × (decision (remove_role_permission rules i j c).1 ≡ decision c)
  unfolding add_user_role remove_user_role add_role_permission remove_role_permission user_rule
      role_rule get_role_by_id get_user_by_id get_permission_by_id
  changes_decide_nothing rules i j c k l n =
      let m : ◌≢◌ {A = String} "placeholder" obj = λ e. n (sym e) in
      let by_user : Rule = record { sub = "placeholder"; obj = "placeholder"; act = "" } in
      let by_role : Rule = record {
        sub = "placeholder";
        obj = "placeholder";
        act = "placeholder";
      } in
      (
        changed-decision rules.add_policy "failed to add user role policy" by_user c k m star_ne,
        changed-decision rules.remove_policy "failed to remove user role policy" by_user c l m
            star_ne,
        changed-decision rules.add_policy "failed to add role permission policy" by_role c k m
            star_ne,
        changed-decision rules.remove_policy "failed to remove role permission policy" by_role c l m
            star_ne,
      )
