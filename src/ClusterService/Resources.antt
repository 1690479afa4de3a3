-- ===== src/ClusterService/Resources.antt =====
-- GetClusterResources of internal/cluster/service.go, over the cache (Redis).
use mckmt.Base.{ℕ, ◌-◌, ◌≡◌, Option, none, List, [], ◌∷◌, Result, ok, err, arith}
use mckmt.Repo.{Payload, text, stamp}
use mckmt.Auth.Middleware.{Bytes}
use mckmt.Redis.{Client, Json, set, get, cluster_resources_key}
use mckmt.Redis.Laws.{IsRedis, get-set}

-- 5*time.Minute
abbrev pub resources_ttl : ℕ
resources_ttl = 300

-- What is returned where nothing is cached.
abbrev pub example_resources : ℕ → List Payload
example_resources now =
    (("kind", text "Pod")
      ∷ ("name", text "example-pod")
      ∷ ("namespace", text "default")
      ∷ ("status", text "Running")
      ∷ ("created_at", stamp (now - 3600))
      ∷ [])
    ∷ (("kind", text "Service")
        ∷ ("name", text "example-service")
        ∷ ("namespace", text "default")
        ∷ ("type", text "ClusterIP")
        ∷ ("created_at", stamp (now - 7200))
        ∷ [])
    ∷ []

module _ {S : Type 0} (client : Client S) (json : Json (List Payload)) where
  -- The errors of the cache are logged.
  unfoldable pub get_cluster_resources : ℕ → Bytes → Bytes → Bytes → S → Result (List Payload) × S
  get_cluster_resources now i kind namespace s =
      let (r, s₁) = get client json (cluster_resources_key i kind namespace) s in
      elim r [
        | ok resources ↦ (ok resources, s₁)
        | err _ ↦ (
          ok (example_resources now),
          (set client json (cluster_resources_key i kind namespace) (example_resources now)
              resources_ttl s₁).1,
        )
      ]

  -- The JSON of a list is read back as the list. A first GetClusterResources that finds nothing in the
  -- cache returns the two examples, whatever the cluster, kind and namespace are; one for the same
  -- three, at any later time at which the entry is still there, returns those of the first.
  pub get_cluster_resources_twice :
      (value : S → Bytes → Option Bytes) (now now' : ℕ) (i kind namespace b : Bytes)
      (o : Option Bytes) (s s₁ s₂ s₃ : S)
      → IsRedis client value
      → json.marshal (example_resources now) ≡ ok b
      → json.unmarshal b ≡ ok (example_resources now)
      → client.get (cluster_resources_key i kind namespace) s ≡ (ok none, s₁)
      → client.set (cluster_resources_key i kind namespace) b resources_ttl s₁ ≡ (ok tt, s₂)
      → client.get (cluster_resources_key i kind namespace) s₂ ≡ (ok o, s₃)
      → (get_cluster_resources now i kind namespace s ≡ (ok (example_resources now), s₂))
        × (get_cluster_resources now' i kind namespace s₂ ≡ (ok (example_resources now), s₃))
  unfolding get_cluster_resources get set
  get_cluster_resources_twice value now now' i kind namespace b o s s₁ s₂ s₃ redis m u g w r =
      let key = cluster_resources_key i kind namespace in
      let stored : set client json key (example_resources now) resources_ttl s₁ ≡ (ok tt, s₂) =
        ground arith in
      let again =
        get-set client value redis json key (example_resources now) b resources_ttl o s₁ s₂ s₃ m u
          stored r in
      (ground arith, ground arith)
