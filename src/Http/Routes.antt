-- ===== src/Http/Routes.antt =====
-- registerProtectedRoutes of internal/api/http/router.go, for the routes that write: RequireAuth and
-- RequirePermission (Auth/Middleware) stand before a handler.
use mckmt.Base.{
  ℕ, ◌≡◌, refl, ◌++◌, ◌⊎◌, inl, inr, false, String, Option, some, List, [], Result, ok, Error,
  codes,
}
use mckmt.Repo.{Operation}
use mckmt.Repo.Store.{World, Env}
use mckmt.Repo.Interfaces.{OperationRepository, ClusterRepository}
use mckmt.Auth.{User}
use mckmt.Auth.Permissions.{Grants, IsGranted, check_user_permission}
use mckmt.Auth.Strategies.{Strategy, database_rbac}
use mckmt.Auth.Middleware.{
  Bytes, Verdict, proceeds, refuses, panics, bearer_prefix, protected_route,
}
use mckmt.Auth.Guards.{protected_route_iff}
use mckmt.Http.{rejects, Handler}
use mckmt.Http.Clusters
use mckmt.Http.Clusters.{ClusterRequest, Upload}
use mckmt.Http.Operations

module _ (parse : String → Option ℕ) (validate_token : Bytes → Result User) (authz : Strategy)
    (header : Bytes) where
  -- A handler behind the two of them; the Recoverer answers a panic with 500.
  unfoldable pub guarded : {A : Type 0} → String → String → Handler World A → Handler World A
  guarded resource action handler w =
      elim (protected_route parse validate_token authz resource action header) [
        | proceeds _ ↦ handler w
        | refuses code m ↦ (rejects code (codes m), w)
        | panics ↦ (rejects 500 [], w)
      ]

  module _ (env : Env) (clusters : ClusterRepository) (operations : OperationRepository) where
    unfoldable pub update_cluster_route :
        String → Option ClusterRequest → Handler World ClusterRequest
    unfolding guarded
    update_cluster_route key body =
        guarded "clusters" "write" (Clusters.update_cluster env clusters operations parse key body)

    unfoldable pub delete_cluster_route : String → Handler World (Unit {0})
    unfolding guarded
    delete_cluster_route key =
        guarded "clusters" "delete" (Clusters.delete_cluster env clusters operations parse key)

    unfoldable pub apply_manifests_route : ℕ → String → Upload → Handler World Operation
    unfolding guarded
    apply_manifests_route i key body =
        guarded "clusters" "manage"
          (Clusters.apply_manifests env clusters operations parse i key body)

    unfoldable pub cancel_operation_route :
        (Error → List ℕ) → String → Option String → Handler World ℕ
    unfolding guarded
    cancel_operation_route driver key body =
        guarded "operations" "cancel"
          (Operations.cancel_operation env operations parse driver key body)

module _ (parse : String → Option ℕ) (validate_token : Bytes → Result User) (g : Grants)
    (header : Bytes) where
  abbrev strategy : Strategy
  strategy = database_rbac (check_user_permission false g)

  -- The header carries a valid token of a user to whom the action is granted.
  abbrev pub IsAuthorized : String → String → Type 0
  IsAuthorized resource action =
      (t : Bytes) × (u : User) × (i : ℕ) × (header ≡ bearer_prefix ++ t)
      × (validate_token t ≡ ok u)
      × (parse u.id ≡ some i)
      × IsGranted g i resource action

  guarded-IsAuthorized :
      {A : Type 0} (resource action : String) (handler : Handler World A) (w : World)
      → ((guarded parse validate_token strategy header resource action handler w).1 ≡ w)
        ⊎ IsAuthorized resource action
  unfolding guarded
  guarded-IsAuthorized resource action handler w =
      checked (protected_route parse validate_token strategy resource action header) refl
    where
      checked :
          (v : Verdict (Unit {0}))
          → protected_route parse validate_token strategy resource action header ≡ v
          → ((guarded parse validate_token strategy header resource action handler w).1 ≡ w)
            ⊎ IsAuthorized resource action
      checked (proceeds _) e =
          inr ((protected_route_iff validate_token header parse g resource action).0 e)
      checked (refuses code m) e = inl (rw (e, guarded) refl)
      checked panics e = inl (rw (e, guarded) refl)

  -- Under the database strategy, with the query going through, each of the four routes that write
  -- leaves the tables, the cache and the queues as they are, unless the header has a valid token of a
  -- user to whom the route's action is granted; over any repositories.
  pub routes-IsAuthorized :
      (env : Env) (clusters : ClusterRepository) (operations : OperationRepository) (i : ℕ)
      (key : String) (request : Option ClusterRequest) (upload : Upload) (driver : Error → List ℕ)
      (reason : Option String) (w : World)
      → (((update_cluster_route parse validate_token strategy header env clusters operations key
              request w).1
            ≡ w)
          ⊎ IsAuthorized "clusters" "write")
        × (((delete_cluster_route parse validate_token strategy header env clusters operations key
                w).1
              ≡ w)
            ⊎ IsAuthorized "clusters" "delete")
        × (((apply_manifests_route parse validate_token strategy header env clusters operations i
                key upload w).1
              ≡ w)
            ⊎ IsAuthorized "clusters" "manage")
        × (((cancel_operation_route parse validate_token strategy header env clusters operations
                driver key reason w).1
              ≡ w)
            ⊎ IsAuthorized "operations" "cancel")
  unfolding update_cluster_route delete_cluster_route apply_manifests_route cancel_operation_route
  routes-IsAuthorized env clusters operations i key request upload driver reason w = (
    guarded-IsAuthorized "clusters" "write"
        (Clusters.update_cluster env clusters operations parse key request) w,
    guarded-IsAuthorized "clusters" "delete"
        (Clusters.delete_cluster env clusters operations parse key) w,
    guarded-IsAuthorized "clusters" "manage"
        (Clusters.apply_manifests env clusters operations parse i key upload) w,
    guarded-IsAuthorized "operations" "cancel"
        (Operations.cancel_operation env operations parse driver key reason) w,
  )
