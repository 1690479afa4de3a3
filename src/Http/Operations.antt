-- ===== src/Http/Operations.antt =====
-- internal/api/http/operation_handler.go.
use mckmt.Base.{ℕ, zero, suc, String, Option, none, some, List, length, ok, err, Error, codes}
use mckmt.Repo.{Operation}
use mckmt.Repo.Store.{World, Env}
use mckmt.Repo.Interfaces.{OperationRepository}
use mckmt.OperationService
use mckmt.Orchestrator
use mckmt.Http.{replies, rejects, Handler, error_text, answer}
use mckmt.Http.Numbers.{ℤ, pos, negsuc, atoi}

pub record Page : Type 0 where
  pub operations : List Operation
  pub total_count : ℕ
  pub cluster_id : ℕ
  pub limit : ℕ
  pub offset : ℕ

-- The errors of Atoi are passed over.
abbrev pub limit_or_default : ℤ → ℕ
limit_or_default (pos zero) = 10
limit_or_default (pos (suc n)) = suc n
limit_or_default (negsuc _) = 10

abbrev pub offset_or_default : ℤ → ℕ
offset_or_default (pos n) = n
offset_or_default (negsuc _) = 0

module _ (env : Env) (operations : OperationRepository) (parse : String → Option ℕ) where
  unfoldable pub get_operation : String → Handler World Operation
  get_operation key w = elim (parse key) [
    | none ↦ (rejects 400 (codes "Invalid operation ID"), w)
    | some i ↦
        answer 200 404 (codes "Operation not found")
          (OperationService.get_operation env operations i w)
  ]

  unfoldable pub list_operations_by_cluster : String → List ℕ → List ℕ → Handler World Page
  list_operations_by_cluster key limit_text offset_text w = elim (parse key) [
    | none ↦ (rejects 400 (codes "Invalid cluster ID"), w)
    | some c ↦
        let limit = limit_or_default (atoi limit_text).0 in
        let offset = offset_or_default (atoi offset_text).0 in
        let (r, w') = OperationService.list_operations_by_cluster env operations c limit offset w in
        elim r [
          | err _ ↦ (rejects 500 (codes "Failed to list operations"), w')
          | ok found ↦ (
            replies 200 record {
              operations = found;
              total_count = length found;
              cluster_id = c;
              limit = limit;
              offset = offset;
            },
            w',
          )
        ]
  ]

  -- The body is decoded to the reason, which is only logged; the answer gives the id.
  unfoldable pub cancel_operation : (Error → List ℕ) → String → Option String → Handler World ℕ
  cancel_operation driver key body w = elim (parse key) [
    | none ↦ (rejects 400 (codes "Invalid operation ID"), w)
    | some i ↦ elim body [
      | none ↦ (rejects 400 (codes "Invalid request body"), w)
      | some _ ↦
          let (r, w') =
            OperationService.cancel_operation env operations Orchestrator.cancel_operation i w in
          elim r [ err e ↦ (rejects 400 (error_text driver e), w') | ok _ ↦ (replies 200 i, w') ]
    ]
  ]
