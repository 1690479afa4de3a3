-- ===== src/Redis/Laws.antt =====
-- What the manager leaves in the cache (Redis), with a client that keeps the promises of Redis.
use mckmt.Base.{
  ℕ, ◌≡◌, refl, ap, ◌∙◌, subst, ◌≢◌, ◌↔◌, inl, inr, true, false, Option, none, some, List, [], ◌∷◌,
  ◌++◌, Result, ok, err, All, codes, arith, if◌then◌else◌, Bool-cases, Option-cases, ==_refl,
}
use mckmt.Auth.Middleware.{Bytes, bytes_eq}
use mckmt.Auth.Oidc.{has_prefix}
use mckmt.Auth.Policies.Members.{IsMember}
use mckmt.Redis.{
  Client, Json, set, get, invalidate_cluster_resources, cluster_resources_key, cluster_resource_key,
  resources_prefix, resources_pattern,
}

-- A text in which a pattern of Redis has no special character: * ? [ and the backslash.
abbrev pub IsLiteral : Bytes → Type 0
IsLiteral = All (λ c. (c ≢ 42) × (c ≢ 63) × (c ≢ 91) × (c ≢ 92))

-- Commands that go through, while no entry reaches its time: `value` is what a key holds.
pub record IsRedis {S : Type 0} (client : Client S) (value : S → Bytes → Option Bytes)
    : Type 0 where
  pub get_lem :
      (k : Bytes) (o : Option Bytes) (s s' : S)
      → client.get k s ≡ (ok o, s')
      → (o ≡ value s k) × ((j : Bytes) → value s' j ≡ value s j)
  pub set_self :
      (k b : Bytes) (e : ℕ) (s s' : S) → client.set k b e s ≡ (ok tt, s') → value s' k ≡ some b
  pub del_member :
      (k : Bytes) (ks : List Bytes) (s s' : S)
      → client.del ks s ≡ (ok tt, s')
      → IsMember k ks
      → value s' k ≡ none
  pub del_other :
      (k : Bytes) (ks : List Bytes) (s s' : S)
      → client.del ks s ≡ (ok tt, s')
      → (IsMember k ks → ⊥)
      → value s' k ≡ value s k
  pub keys_lem :
      (p : Bytes) (ks : List Bytes) (s s' : S)
      → IsLiteral p
      → client.keys (p ++ codes "*") s ≡ (ok ks, s')
      → (j : Bytes)
      → (IsMember j ks ↔ ((value s j ≢ none) × (has_prefix j p ≡ true))) × (value s' j ≡ value s j)

has_prefix-append : (p x y : Bytes) → has_prefix (p ++ x) (p ++ y) ≡ has_prefix x y
has_prefix-append [] x y = refl
has_prefix-append (c ∷ p) x y = ground (arith, has_prefix-append p x y, ==_refl c)

listed :
    (i kind namespace : Bytes)
    → has_prefix (cluster_resources_key i kind namespace) (resources_prefix i) ≡ true
unfolding cluster_resources_key
listed i kind [] = has_prefix-append i (codes ":resources:" ++ kind) (codes ":resources:")
listed i kind (n ∷ ns) =
    has_prefix-append i (codes ":resources:" ++ (kind ++ (codes ":" ++ n ∷ ns)))
      (codes ":resources:")

module _ {S : Type 0} (client : Client S) (value : S → Bytes → Option Bytes)
    (redis : IsRedis client value) where
  module _ {A : Type 0} (json : Json A) where
    -- The JSON of the value is read back as the value. A Get of the key that a Set has just written
    -- returns the value, where both calls go through.
    pub get-set :
        (key : Bytes) (v : A) (b : Bytes) (e : ℕ) (o : Option Bytes) (s s₁ s₂ : S)
        → json.marshal v ≡ ok b
        → json.unmarshal b ≡ ok v
        → set client json key v e s ≡ (ok tt, s₁)
        → client.get key s₁ ≡ (ok o, s₂)
        → get client json key s₁ ≡ (ok v, s₂)
    unfolding set get
    get-set key v b e o s s₁ s₂ m u w r =
        let stored : client.set key b e s ≡ (ok tt, s₁) = ground arith in
        let held = redis.set_self key b e s s₁ stored in
        let found : o ≡ some b = (redis.get_lem key o s₁ s₂ r).0 ∙ held in ground arith

  -- DEL of the keys that KEYS has found.
  swept :
      (p j : Bytes) (ks : List Bytes) (s s₁ s₂ : S)
      → IsLiteral p
      → client.keys (p ++ codes "*") s ≡ (ok ks, s₁)
      → client.del ks s₁ ≡ (ok tt, s₂)
      → value s₂ j ≡ (if has_prefix j p then none else value s j)
  swept p j ks s s₁ s₂ l k d =
      let (m, same) = redis.keys_lem p ks s s₁ l k j in
      elim (Bool-cases (has_prefix j p)) [
        | inr e ↦
            let other = redis.del_other j ks s₁ s₂ d (λ x. ground (arith, m.0 x)) in
            rw e (other ∙ same)
        | inl e ↦ elim (Option-cases (value s j)) [
          | inl n ↦
              let other = redis.del_other j ks s₁ s₂ d (λ x. (m.0 x).0 n) in rw e (other ∙ same ∙ n)
          | inr (b, n) ↦ rw e (redis.del_member j ks s₁ s₂ d (m.1 ((λ q. ground arith), e)))
        ]
      ]

  -- KEYS has found nothing.
  unswept :
      (p j : Bytes) (s s₁ : S)
      → IsLiteral p
      → client.keys (p ++ codes "*") s ≡ (ok [], s₁)
      → value s₁ j ≡ (if has_prefix j p then none else value s j)
  unswept p j s s₁ l k =
      let (m, same) = redis.keys_lem p [] s s₁ l k j in
      elim (Bool-cases (has_prefix j p)) [
        | inr e ↦ rw e same
        | inl e ↦ elim (Option-cases (value s j)) [
          | inl n ↦ rw e (same ∙ n)
          | inr (b, n) ↦ absurd (m.1 ((λ q. ground arith), e))
        ]
      ]

  invalidated :
      (i j : Bytes) (s s' : S)
      → IsLiteral (resources_prefix i)
      → invalidate_cluster_resources client i s ≡ (ok tt, s')
      → value s' j ≡ (if has_prefix j (resources_prefix i) then none else value s j)
  unfolding invalidate_cluster_resources
  invalidated i j s s' l h = go (client.keys (resources_pattern i) s).0 refl
    where
      p : Bytes
      p = resources_prefix i

      s₁ : S
      s₁ = (client.keys (resources_pattern i) s).1

      go :
          (r : Result (List Bytes))
          → (client.keys (resources_pattern i) s).0 ≡ r
          → value s' j ≡ (if has_prefix j (resources_prefix i) then none else value s j)
      go (err e) f = absurd (ground arith)
      go (ok []) f =
          let k : client.keys (p ++ codes "*") s ≡ (ok [], s₁) = ground arith in
          let same : s₁ ≡ s' = ground arith in
          subst (λ x. value x j ≡ (if has_prefix j p then none else value s j)) same
            (unswept p j s s₁ l k)
      go (ok (x ∷ xs)) f =
          let k : client.keys (p ++ codes "*") s ≡ (ok (x ∷ xs), s₁) = ground arith in
          swept p j (x ∷ xs) s s₁ s' l k (ground arith)

  -- The id has no character that a pattern reads otherwise, and no entry reaches its time meanwhile.
  -- When InvalidateClusterResources has gone through, no list of resources of the cluster is cached,
  -- of whatever kind and namespace; each single resource of the cluster is cached as before, and so is
  -- every key outside "cluster:<id>:resources:".
  pub invalidate_cluster_resources_keeps :
      (i kind namespace name j : Bytes) (s s' : S)
      → IsLiteral (resources_prefix i)
      → has_prefix j (resources_prefix i) ≡ false
      → invalidate_cluster_resources client i s ≡ (ok tt, s')
      → (value s' (cluster_resources_key i kind namespace) ≡ none)
        × (value s' (cluster_resource_key i kind namespace name)
            ≡ value s (cluster_resource_key i kind namespace name))
        × (value s' j ≡ value s j)
  unfolding cluster_resource_key
  invalidate_cluster_resources_keeps i kind namespace name j s s' l o h =
      let lists = cluster_resources_key i kind namespace in
      let single = cluster_resource_key i kind namespace name in
      let named : Bytes =
        kind
        ++ (codes ":"
            ++ (if bytes_eq namespace [] then name else namespace ++ (codes ":" ++ name))) in
      let b : has_prefix single (resources_prefix i) ≡ false =
        has_prefix-append i (codes ":resource:" ++ named) (codes ":resources:") in
      (
        invalidated i lists s s' l h
            ∙ ap (λ c. if c then none else value s lists) (listed i kind namespace),
        invalidated i single s s' l h ∙ ap (λ c. if c then none else value s single) b,
        invalidated i j s s' l h ∙ ap (λ c. if c then none else value s j) o,
      )
