-- ===== src/Auth/Ownership.antt =====
-- RequireResourceOwnership of internal/auth/casbin_middleware.go. `parse` is uuid.Parse of the user's
-- id, `is_uuid` whether it accepts the text of the resource.
use mckmt.Base.{
  ℕ, String, ◌≡◌, refl, sym, ◌∙◌, ◌≢◌, ◌↔◌, ◌⊎◌, Bool, true, false, not, Option, none, some, [],
  ◌∷◌, ok, err, ◌==◌, if◌then◌else◌, any, arith,
}
use mckmt.Auth.{User}
use mckmt.Auth.Middleware.{Bytes, bytes_eq, Verdict, proceeds, refuses, CasbinService, casbin_check}

-- path[strings.LastIndex(path, "/")+1:]
unfoldable pub after_last_slash : Bytes → Bytes
after_last_slash [] = []
after_last_slash (b ∷ bs) =
    let rest = after_last_slash bs in if any (λ c. c == 47) (b ∷ bs) then rest else b ∷ bs

module _ (parse : String → Option ℕ) (is_uuid : Bytes → Bool) (c : CasbinService) where
  -- The check behind the guards.
  unfoldable pub owns_or_reads : User → ℕ → String → Verdict (Unit {0})
  unfolding casbin_check
  owns_or_reads u i resource_type = elim (casbin_check c (some u) i resource_type "own") [
    | err _ ↦ refuses 500 "Failed to check ownership"
    | ok true ↦ proceeds tt
    | ok false ↦ elim (casbin_check c (some u) i resource_type "read") [
      | ok true ↦ proceeds tt
      | _ ↦ refuses 403 "Access denied to resource"
    ]
  ]

  -- `query_value` is the query's value of the parameter, empty where there is none.
  unfoldable pub require_resource_ownership :
      String → Bytes → Bytes → Option User → Verdict (Unit {0})
  unfolding after_last_slash owns_or_reads
  require_resource_ownership resource_type query_value path none =
      refuses 401 "User not found in context"
  require_resource_ownership resource_type query_value path (some u) =
      let resource_id = if bytes_eq query_value [] then after_last_slash path else query_value in
      if bytes_eq resource_id []
      then refuses 400 "Resource ID not provided"
      else if not (is_uuid resource_id)
      then refuses 400 "Invalid resource ID"
      else if not c.enabled
      then proceeds tt
      else elim (parse u.id) [
        | none ↦ refuses 400 "Invalid user ID"
        | some i ↦ owns_or_reads u i resource_type
      ]

  -- Casbin is on, and the query names two resources by well-formed ids. Then the verdict on the one is
  -- the verdict on the other: who may read the resources of a type passes as the owner of each of them.
  pub ownership_ignores_resource :
      (u : User) (i : ℕ) (resource_type : String) (a b path : Bytes)
      → c.enabled ≡ true
      → is_uuid a ≡ true
      → is_uuid b ≡ true
      → a ≢ []
      → b ≢ []
      → parse u.id ≡ some i
      → (require_resource_ownership resource_type a path (some u)
          ≡ require_resource_ownership resource_type b path (some u))
        × ((require_resource_ownership resource_type a path (some u) ≡ proceeds tt) ↔ (
            (casbin_check c (some u) i resource_type "own" ≡ ok true)
            ⊎ ((casbin_check c (some u) i resource_type "own" ≡ ok false)
                × (casbin_check c (some u) i resource_type "read" ≡ ok true))))
  unfolding require_resource_ownership owns_or_reads
  ownership_ignores_resource u i resource_type a b path on v w m n p = (same, passes)
    where
      named :
          (x : Bytes)
          → x ≢ []
          → is_uuid x ≡ true
          → require_resource_ownership resource_type x path (some u)
            ≡ owns_or_reads u i resource_type
      named [] h k = absurd (h refl)
      named (y ∷ ys) h k = ground arith

      same :
          require_resource_ownership resource_type a path (some u)
          ≡ require_resource_ownership resource_type b path (some u)
      same = named a m v ∙ sym (named b n w)

      passes : (require_resource_ownership resource_type a path (some u) ≡ proceeds tt) ↔ (
          (casbin_check c (some u) i resource_type "own" ≡ ok true)
          ⊎ ((casbin_check c (some u) i resource_type "own" ≡ ok false)
              × (casbin_check c (some u) i resource_type "read" ≡ ok true)))
      passes = rw (named a m v) (ground arith)
