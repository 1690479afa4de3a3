-- ===== src/Tests/Http.antt =====
-- Policies and the HTTP handlers on the samples of Tests and Tests/Setups.
use mckmt.Base.{
  ℕ, ◌≡◌, refl, ◌↔◌, ◌⊎◌, ◌≤◌, ◌<◌, ◌^◌, ◌++◌, ◌||◌, ◌&&◌, inl, inr, String, true, false, Option,
  none, some, List, [], ◌∷◌, Result, ok, err, failed, arith, latest_first, insert_latest, any,
  str_eq, str_eq_iff, codes, length, if◌then◌else◌, ltb, ℕ,
}
use mckmt.Repo.{op_id}
use mckmt.Repo.Store.{find}
use mckmt.Repo.ClusterTable
use mckmt.Repo.Interfaces.{table, cluster_table}
use mckmt.Accounts.{Directory}
use mckmt.Accounts.UserTable
use mckmt.Accounts.UserTable.{by_username}
use mckmt.Accounts.RoleTable.{joined}
use mckmt.Auth.{User}
use mckmt.Auth.Middleware.{Bytes, bytes_eq, bearer_prefix}
use mckmt.Auth.Permissions.{check_user_permission}
use mckmt.Auth.Strategies.{Strategy, database_rbac}
use mckmt.Auth.Policies.{Policy, HasLink, enforce, load_policy}
use mckmt.Auth.Policies.Members.{IsMember}
use mckmt.Auth.Policies.Loading.{IsRoleManager, load_policy-Covers}
use mckmt.AuthService.Logins.{IsAdmitted, IsStored}
use mckmt.ClusterService
use mckmt.Orchestrator.{queue_capacity}
use mckmt.Http.{rejects, status}
use mckmt.Http.Numbers.{atoi, parse_digits}
use mckmt.Http.Accounts.{LoginRequest, validate_login, login}
use mckmt.Http.Accounts.Statuses.{login_status}
use mckmt.Http.Clusters.{
  Page, file, apply_manifests, apply_operation, list_clusters, read_limit, read_offset,
}
use mckmt.Http.Clusters.Lists.{list_clusters-bounds}
use mckmt.Http.Clusters.Manifests.{apply_manifests_stores}
use mckmt.Http.Routes.{
  IsAuthorized, update_cluster_route, delete_cluster_route, apply_manifests_route,
  cancel_operation_route, routes-IsAuthorized,
}
use mckmt.Tests.{env, w}
use mckmt.Tests.Setups.{ada, codec, signing, password, ada_row, ada_account, directory, hash}

abbrev parse : String → Option ℕ
parse s = if str_eq s "7" then some 7 else none

abbrev request : LoginRequest
request = record { username = "ada"; password = password }

abbrev d : Directory
d = directory (ada_row hash ∷ []) 0

stored : IsStored signing "ada" (ada_account hash) d
unfolding by_username
stored = (ada_row hash, refl, refl)

login_status_example :
    ((status (login signing (λ _. []) "ip" "agent" (some request) d).0 ≡ 200)
      ↔ IsAdmitted signing password (ada_account hash))
    × ((status (login signing (λ _. []) "ip" "agent" (some request) d).0 ≡ 200)
        ⊎ (status (login signing (λ _. []) "ip" "agent" (some request) d).0 ≡ 401))
    × ((true ≡ true)
        ⊎ ((login signing (λ _. []) "ip" "agent" (some request) d).0
            ≡ rejects 401 (codes "Login failed")))
unfolding validate_login
login_status_example =
    login_status signing (λ _. []) "ip" "agent" request d (ada_account hash) refl refl stored
      (λ c e. ground arith)

apply_manifests_stores_example :
    (find op_id 4
        (apply_manifests env
          (cluster_table env)
          (table env)
          parse
          4
          "7"
          (file "pod")
          w).1.operations
      ≡ some (record (apply_operation env (cluster_table env) (table env) parse 4 7 "pod") {
        created_at = 1000;
        updated_at = 1000;
      }))
    × ((status (apply_manifests env (cluster_table env) (table env) parse 4 "7" (file "pod") w).0
          ≡ 202)
        ↔ (length w.queue < queue_capacity))
    × ((apply_manifests env (cluster_table env) (table env) parse 4 "7" (file "pod") w).1.queue ≡ (
        if ltb (length w.queue) queue_capacity
        then w.queue ++ apply_operation env (cluster_table env) (table env) parse 4 7 "pod" ∷ []
        else w.queue))
unfolding find
apply_manifests_stores_example =
    apply_manifests_stores env (cluster_table env) parse 4 7 "7" "pod" w refl refl
      (λ e. ground arith) refl

-- "2", and no offset
abbrev page : Page
page = record { clusters = w.clusters; total_count = 2; limit = 2; offset = 0 }

list_clusters-bounds_example :
    (0 < 2) × (2 < 2 ^ 63) × (0 < 2 ^ 63) × (length w.clusters ≤ 2) × (2 ≡ length w.clusters)
unfolding list_clusters read_limit read_offset atoi parse_digits ClusterService.list_clusters
    ClusterTable.list ClusterTable.sorted ClusterTable.newest_first
list_clusters-bounds_example = list_clusters-bounds env (table env) parse (50 ∷ []) [] w page refl

abbrev validate : Bytes → Result User
validate t = if bytes_eq t (111 ∷ 107 ∷ []) then ok ada else err (failed "invalid token")

abbrev header : Bytes
header = bearer_prefix ++ 111 ∷ 107 ∷ []

abbrev authz : Strategy
authz = database_rbac (check_user_permission false d.grants)

-- Ada may read clusters, and do nothing else.
routes-IsAuthorized_example :
    (((update_cluster_route parse validate authz header env
          (cluster_table env)
          (table env)
          "7"
          none
          w).1
        ≡ w)
      ⊎ IsAuthorized parse validate d.grants header "clusters" "write")
    × (((delete_cluster_route parse validate authz header env
            (cluster_table env)
            (table env)
            "7"
            w).1
          ≡ w)
        ⊎ IsAuthorized parse validate d.grants header "clusters" "delete")
    × (((apply_manifests_route parse validate authz header env
            (cluster_table env)
            (table env)
            4
            "7"
            (file "pod")
            w).1
          ≡ w)
        ⊎ IsAuthorized parse validate d.grants header "clusters" "manage")
    × (((cancel_operation_route parse validate authz header env
            (cluster_table env)
            (table env)
            (λ _. [])
            "7"
            none
            w).1
          ≡ w)
        ⊎ IsAuthorized parse validate d.grants header "operations" "cancel")
routes-IsAuthorized_example =
    routes-IsAuthorized parse validate d.grants header env (cluster_table env) (table env) 4 "7"
      none (file "pod") (λ _. []) none w

-- A role manager without chains of roles.
abbrev has_link : HasLink
has_link gs a b = str_eq a b || any (λ g. str_eq g.0 a && str_eq g.1 b) gs

link_given :
    (gs : List (String × String)) (a b : String)
    → IsMember (a, b) gs
    → any (λ g. str_eq g.0 a && str_eq g.1 b) gs ≡ true
link_given [] a b h = absurd h
link_given (g ∷ gs) a b (inl h) = ground (arith, str_eq_iff g.0 a, str_eq_iff g.1 b)
link_given (g ∷ gs) a b (inr h) = ground (arith, link_given gs a b h)

has_link-IsRoleManager : IsRoleManager has_link
has_link-IsRoleManager gs a b (inl h) = ground (arith, str_eq_iff a b)
has_link-IsRoleManager gs a b (inr h) = ground (arith, link_given gs a b h)

-- Someone whose username is "viewer" may read clusters, with no role.
load_policy-Covers_example :
    (policy : Policy) × ((load_policy env codec (λ rs. rs) d).0 ≡ ok policy)
    × (enforce has_link policy "viewer" "clusters" "read" ≡ true)
unfolding UserTable.list UserTable.scan_users latest_first insert_latest joined find
load_policy-Covers_example =
    load_policy-Covers env (λ _. refl) codec (λ rs. rs) has_link d (ada_account hash ∷ [])
      (ada_account hash) record { id = 20; name = "viewer" }
      record { id = 1; name = "clusters"; resource = "clusters"; action = "read" } "viewer"
      "clusters" "read" has_link-IsRoleManager refl (inl refl) (inl refl) (inl refl)
      (inr refl, inr refl) (inr refl)
