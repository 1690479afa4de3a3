-- ===== src/Http/Clusters.antt =====
-- internal/api/http/cluster_handler.go.
pub mod Lists
pub mod Manifests
pub mod Resources
use mckmt.Base.{
  ℕ, String, Bool, true, false, Option, none, some, List, [], ◌∷◌, Result, ok, err, Error, codes,
  list_eq, if◌then◌else◌, zero, suc, length, not,
}
use mckmt.Repo.{OperationType, Status, text, Labels, Cluster, Operation}
use mckmt.Repo.Store.{World, Env}
use mckmt.Repo.Interfaces.{OperationRepository, ClusterRepository}
use mckmt.ClusterService
use mckmt.Orchestrator
use mckmt.Http.{Reply, replies, rejects, Handler, error_text, answer}
use mckmt.Http.Numbers.{ℤ, pos, negsuc, atoi}

-- The bodies of the answers.
pub record Page : Type 0 where
  pub clusters : List Cluster
  pub total_count : ℕ
  pub limit : ℕ
  pub offset : ℕ

pub record ClusterRequest : Type 0 where
  pub name : String
  pub description : String
  pub labels : Labels
  pub status : String

-- What ParseMultipartForm, FormFile and ReadAll make of the body.
pub data Upload : Type 0 where
  no_form no_file unread : Upload
  file : String → Upload

-- A query parameter of ListClusters, or the message that it is answered with.
pub data Parameter : Type 0 where
  reads : ℕ → Parameter
  refused : List ℕ → Parameter

abbrev pub limit_of : ℤ × Bool → Parameter
limit_of (_, false) = refused (codes "Invalid limit parameter")
limit_of (pos zero, true) = refused (codes "Limit must be positive")
limit_of (pos (suc n), true) = reads (suc n)
limit_of (negsuc _, true) = refused (codes "Limit must be positive")

abbrev pub offset_of : ℤ × Bool → Parameter
offset_of (_, false) = refused (codes "Invalid offset parameter")
offset_of (pos n, true) = reads n
offset_of (negsuc _, true) = refused (codes "Offset must be non-negative")

unfoldable pub read_limit : List ℕ → Parameter
read_limit [] = reads 10
read_limit (c ∷ cs) = limit_of (atoi (c ∷ cs))

unfoldable pub read_offset : List ℕ → Parameter
read_offset [] = reads 0
read_offset (c ∷ cs) = offset_of (atoi (c ∷ cs))

module _ (env : Env) (clusters : ClusterRepository) (operations : OperationRepository)
    (parse : String → Option ℕ) where
  unfoldable pub list_clusters : List ℕ → List ℕ → Handler World Page
  unfolding read_limit read_offset
  list_clusters limit_text offset_text w = elim (read_limit limit_text) [
    | refused m ↦ (rejects 400 m, w)
    | reads limit ↦ elim (read_offset offset_text) [
      | refused m ↦ (rejects 400 m, w)
      | reads offset ↦
          let (r, w') = ClusterService.list_clusters env clusters limit offset w in
          elim r [
            | err _ ↦ (rejects 500 (codes "Failed to list clusters"), w')
            | ok found ↦ (
              replies 200 record {
                clusters = found;
                total_count = length found;
                limit = limit;
                offset = offset;
              },
              w',
            )
          ]
    ]
  ]

  unfoldable pub get_cluster : (Error → List ℕ) → String → Handler World Cluster
  unfolding error_text
  get_cluster driver key w = elim (parse key) [
    | none ↦ (rejects 400 (codes "Invalid cluster ID"), w)
    | some i ↦
        let (r, w') = ClusterService.get_cluster env clusters i w in
        elim r [
          | err e ↦ (
            if list_eq (error_text driver e) (codes "not found")
                then rejects 404 (codes "Cluster not found")
                else rejects 500 (codes "Internal server error"),
            w',
          )
          | ok c ↦ (replies 200 c, w')
        ]
  ]

  -- The answer repeats the request; its status is not passed on to the service.
  unfoldable pub update_cluster : String → Option ClusterRequest → Handler World ClusterRequest
  update_cluster key body w = elim (parse key) [
    | none ↦ (rejects 400 (codes "Invalid cluster ID"), w)
    | some i ↦ elim body [
      | none ↦ (rejects 400 (codes "Invalid request body"), w)
      | some req ↦
          let (r, w') =
            ClusterService.update_cluster env clusters i req.name req.description req.labels w in
          elim r [
            | err _ ↦ (rejects 500 (codes "Failed to update cluster"), w')
            | ok _ ↦ (replies 200 req, w')
          ]
    ]
  ]

  unfoldable pub delete_cluster : String → Handler World (Unit {0})
  delete_cluster key w = elim (parse key) [
    | none ↦ (rejects 400 (codes "Invalid cluster ID"), w)
    | some i ↦
        answer 204 500 (codes "Failed to delete cluster")
          (ClusterService.delete_cluster env clusters i w)
  ]

  -- The operation of ApplyManifests; `i` is the new id.
  abbrev pub apply_operation : ℕ → ℕ → String → Operation
  apply_operation i c manifests = record {
    id = i;
    cluster_id = c;
    op_type = OperationType.apply;
    status = Status.queued;
    payload = ("manifests", text manifests) ∷ ("source", text "http_api") ∷ [];
    result = none;
    started_at = none;
    finished_at = none;
    created_at = 0;
    updated_at = 0;
  }

  -- The two calls to the service; the orchestrator's queue is in the same state.
  unfoldable pub create_and_queue : Operation → Handler World Operation
  create_and_queue op w =
      let (r, w₁) = ClusterService.create_operation operations op w in
      elim r [
        | err _ ↦ (rejects 500 (codes "Failed to create operation"), w₁)
        | ok _ ↦
            let (q, w₂) = ClusterService.queue_operation Orchestrator.queue_operation op w₁ in
            elim q [
              | err _ ↦ (rejects 500 (codes "Failed to queue operation"), w₂)
              | ok _ ↦ (replies 202 op, w₂)
            ]
      ]

  unfoldable pub apply_manifests : ℕ → String → Upload → Handler World Operation
  unfolding create_and_queue
  apply_manifests i key body w = elim (parse key) [
    | none ↦ (rejects 400 (codes "Invalid cluster ID"), w)
    | some c ↦ elim body [
      | no_form ↦ (rejects 400 (codes "Failed to parse multipart form"), w)
      | no_file ↦ (rejects 400 (codes "No manifests file provided"), w)
      | unread ↦ (rejects 500 (codes "Failed to read manifests file"), w)
      | file manifests ↦ create_and_queue (apply_operation i c manifests) w
    ]
  ]
