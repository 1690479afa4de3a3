-- ===== src/Auth/Guards.antt =====
-- Which requests the middlewares of Auth/Middleware let through.
use mckmt.Base.{
  ℕ, String, ◌≡◌, refl, ◌↔◌, inl, inr, ◌<◌, true, false, Option, some, List, [], ◌∷◌, ◌++◌, Result,
  ok, err, Error, ==_iff, length, take, append-take-drop, All, Some, arith, Option-cases,
}
use mckmt.Auth.{User}
use mckmt.Auth.Permissions.{Grants, check_user_permission, IsGranted, check_user_permission_iff}
use mckmt.Auth.Strategies.{database_rbac, check_permission, strategy_check}
use mckmt.Auth.Middleware.{
  Bytes, Verdict, proceeds, refuses, panics, bytes_eq, bearer_prefix, extract_token_from_header,
  require_auth, require_permission, protected_route, CasbinService, casbin_check, any_allowed,
  all_allowed, require_any_permission, require_all_permissions,
}

bytes_eq_iff : (xs ys : Bytes) → (bytes_eq xs ys ≡ true) ↔ (xs ≡ ys)
bytes_eq_iff [] [] = ground arith
bytes_eq_iff [] (y ∷ ys) = ground arith
bytes_eq_iff (x ∷ xs) [] = ground arith
bytes_eq_iff (x ∷ xs) (y ∷ ys) = ground (arith, ==_iff x y, bytes_eq_iff xs ys)

-- The token of a header is what follows the prefix.
extract_token_iff :
    (h t : Bytes) → (extract_token_from_header h ≡ some t) ↔ (h ≡ bearer_prefix ++ t)
unfolding extract_token_from_header
extract_token_iff h t = (
  λ e. ground (arith, bytes_eq_iff (take 7 h) bearer_prefix, append-take-drop 7 h),
  λ e. ground arith,
)

module _ (validate_token : Bytes → Result User) (h : Bytes) where
  -- RequireAuth lets exactly those requests pass whose header is the prefix "Bearer " and a token
  -- that is valid; the user is the one of the claims of that token.
  pub require_auth_iff :
      (u : User)
      → (require_auth validate_token h ≡ proceeds u)
        ↔ ((t : Bytes) × (h ≡ bearer_prefix ++ t) × (validate_token t ≡ ok u))
  unfolding require_auth
  require_auth_iff u = elim (Option-cases (extract_token_from_header h)) [
    | inl e ↦
        (λ p. absurd (ground arith), λ (t, p, q). absurd (ground (arith, extract_token_iff h t)))
    | inr (t, e) ↦ (
      λ p. (t, ground (arith, extract_token_iff h t), ground arith),
      λ (t', p, q). ground (arith, extract_token_iff h t', extract_token_iff h t),
    )
  ]

  -- RequireAuth panics on exactly those headers whose token is not valid and shorter than 50 bytes.
  pub require_auth_panics : (require_auth validate_token h ≡ panics) ↔ (
      (t : Bytes) × (e : Error) × (h ≡ bearer_prefix ++ t)
      × (validate_token t ≡ err e)
      × (length t < 50))
  unfolding require_auth
  require_auth_panics = elim (Option-cases (extract_token_from_header h)) [
    | inl e ↦ (
      λ p. absurd (ground arith),
      λ (t, _, p, q, _). absurd (ground (arith, extract_token_iff h t)),
    )
    | inr (t, e) ↦ rejected t e (validate_token t) refl
  ]
    where
      rejected :
          (t : Bytes)
          → extract_token_from_header h ≡ some t
          → (r : Result User) → validate_token t ≡ r
          → (require_auth validate_token h ≡ panics) ↔ (
              (t : Bytes) × (e : Error) × (h ≡ bearer_prefix ++ t)
              × (validate_token t ≡ err e)
              × (length t < 50))
      rejected t e (ok u) v = (
        λ p. absurd (ground arith),
        λ (t', _, p, q, _). absurd (ground (arith, extract_token_iff h t', extract_token_iff h t)),
      )
      rejected t e (err f) v = (
        λ p. (t, f, ground (arith, extract_token_iff h t), v, ground arith),
        λ (t', _, p, q, l). ground (arith, extract_token_iff h t', extract_token_iff h t),
      )

  -- A protected route under the database strategy, where the query goes through, runs its handler
  -- exactly for the headers with a valid token of a user whose id parses and to whom the action is
  -- granted.
  pub protected_route_iff :
      (parse : String → Option ℕ) (g : Grants) (resource action : String)
      → (protected_route parse validate_token
            (database_rbac (check_user_permission false g))
            resource
            action
            h
          ≡ proceeds tt)
        ↔ ((t : Bytes) × (u : User) × (i : ℕ) × (h ≡ bearer_prefix ++ t)
            × (validate_token t ≡ ok u)
            × (parse u.id ≡ some i)
            × IsGranted g i resource action)
  unfolding protected_route require_permission check_permission strategy_check
  protected_route_iff parse g resource action = passes (require_auth validate_token h) refl
    where
      passes :
          (v : Verdict User)
          → require_auth validate_token h ≡ v
          → (protected_route parse validate_token
                (database_rbac (check_user_permission false g))
                resource
                action
                h
              ≡ proceeds tt)
            ↔ ((t : Bytes) × (u : User) × (i : ℕ) × (h ≡ bearer_prefix ++ t)
                × (validate_token t ≡ ok u)
                × (parse u.id ≡ some i)
                × IsGranted g i resource action)
      passes panics e = (
        λ p. absurd (ground arith),
        λ (t, u, i, p, q, _, _). absurd (ground (arith, (require_auth_iff u).1 (t, p, q))),
      )
      passes (refuses code message) e = (
        λ p. absurd (ground arith),
        λ (t, u, i, p, q, _, _). absurd (ground (arith, (require_auth_iff u).1 (t, p, q))),
      )
      passes (proceeds v) e = elim (Option-cases (parse v.id)) [
        | inl n ↦ (
          λ p. absurd (ground arith),
          λ (t, u, i, p, q, r, _). absurd (ground (arith, (require_auth_iff u).1 (t, p, q))),
        )
        | inr (j, n) ↦ (
          λ p.
              let (t, a, b) = (require_auth_iff v).0 e in
              (t, v, j, a, b, n, (check_user_permission_iff g j resource action).0 (ground arith)),
          λ (t, u, i, p, q, r, k). ground (
            arith,
            (require_auth_iff u).1 (t, p, q),
            (check_user_permission_iff g i resource action).1 k,
          ),
        )
      ]

module _ (parse : String → Option ℕ) (c : CasbinService) (u : User) (i : ℕ) where
  any_allowed_iff :
      (ps : List (String × String))
      → (any_allowed parse c u i ps ≡ proceeds tt)
        ↔ Some (λ p. casbin_check c (some u) i p.0 p.1 ≡ ok true) ps
  unfolding any_allowed
  any_allowed_iff [] = ground arith
  any_allowed_iff ((resource, action) ∷ ps) = ground (arith, any_allowed_iff ps)

  all_allowed_iff :
      (ps : List (String × String))
      → (all_allowed parse c u i ps ≡ proceeds tt)
        ↔ All (λ p. casbin_check c (some u) i p.0 p.1 ≡ ok true) ps
  unfolding all_allowed
  all_allowed_iff [] = ground arith
  all_allowed_iff ((resource, action) ∷ ps) = ground (arith, all_allowed_iff ps)

module _ (parse : String → Option ℕ) (c : CasbinService) (u : User)
    (ps : List (String × String)) where
  -- With Casbin on, RequireAnyPermission lets the user pass exactly if some permission of the list is
  -- allowed; a check that fails counts as a refusal.
  pub require_any_permission_iff :
      c.enabled ≡ true
      → (require_any_permission parse c ps (some u) ≡ proceeds tt) ↔ (
          (i : ℕ) × (parse u.id ≡ some i)
          × Some (λ p. casbin_check c (some u) i p.0 p.1 ≡ ok true) ps)
  unfolding require_any_permission
  require_any_permission_iff on = elim (Option-cases (parse u.id)) [
    | inl n ↦ ground arith
    | inr (j, n) ↦ (
      λ h. (j, n, (any_allowed_iff parse c u j ps).0 (ground arith)),
      λ (i, p, q). ground (arith, (any_allowed_iff parse c u i ps).1 q),
    )
  ]

  -- With Casbin on, RequireAllPermissions lets the user pass exactly if every permission of the list
  -- is allowed.
  pub require_all_permissions_iff :
      c.enabled ≡ true
      → (require_all_permissions parse c ps (some u) ≡ proceeds tt) ↔ (
          (i : ℕ) × (parse u.id ≡ some i)
          × All (λ p. casbin_check c (some u) i p.0 p.1 ≡ ok true) ps)
  unfolding require_all_permissions
  require_all_permissions_iff on = elim (Option-cases (parse u.id)) [
    | inl n ↦ ground arith
    | inr (j, n) ↦ (
      λ h. (j, n, (all_allowed_iff parse c u j ps).0 (ground arith)),
      λ (i, p, q). ground (arith, (all_allowed_iff parse c u i ps).1 q),
    )
  ]

  -- With Casbin off, both let every user pass, also where RBAC is on and CheckPermission of the same
  -- service, which then asks the database, refuses the user.
  casbin_disabled_lets_pass :
      (i : ℕ) (resource action : String)
      → c.enabled ≡ false
      → c.rbac_enabled ≡ true
      → c.permission_repo i resource action ≡ ok false
      → (casbin_check c (some u) i resource action ≡ ok false)
        × (require_any_permission parse c ((resource, action) ∷ ps) (some u) ≡ proceeds tt)
        × (require_all_permissions parse c ((resource, action) ∷ ps) (some u) ≡ proceeds tt)
  unfolding require_any_permission require_all_permissions casbin_check
  casbin_disabled_lets_pass i resource action off on refused =
      (ground arith, ground arith, ground arith)
