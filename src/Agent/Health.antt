-- ===== src/Agent/Health.antt =====
-- The status that an agent reports (Agent/Status).
use mckmt.Base.{
  ℕ, ◌≤◌, String, ◌≡◌, refl, ap, sym, subst, ◌≢◌, ◌↔◌, Bool, true, false, List, [], ◌∷◌, Result, ok,
  err, Error, ltb, if◌then◌else◌, length, any, All, str_eq_iff, arith,
}
use mckmt.Agent.Status.{
  Conditions, is_ready_condition, count_ready, get_cluster_info, get_cluster_status,
}

abbrev pub IsReadyNode : Conditions → Type 0
IsReadyNode n = any is_ready_condition n ≡ true

count_ready-bounds : (nodes : List Conditions) → count_ready nodes ≤ length nodes
unfolding count_ready
count_ready-bounds [] = omega arith
count_ready-bounds (n ∷ nodes) = ground (arith, count_ready-bounds nodes)

All-IsReadyNode :
    (nodes : List Conditions)
    → (ltb (count_ready nodes) (length nodes) ≡ false) ↔ All IsReadyNode nodes
unfolding count_ready
All-IsReadyNode [] = ground arith
All-IsReadyNode (n ∷ nodes) = ground (arith, All-IsReadyNode nodes, count_ready-bounds nodes)

degraded_ne : ◌≢◌ {A = String} "degraded" "healthy"
degraded_ne e = never ((str_eq_iff "degraded" "healthy").1 e)
  where
    never : false ≡ true → ⊥
    never h = ground arith

unhealthy_ne : ◌≢◌ {A = String} "unhealthy" "healthy"
unhealthy_ne e = never ((str_eq_iff "unhealthy" "healthy").1 e)
  where
    never : false ≡ true → ⊥
    never h = ground arith

chosen : (b : Bool) → ◌≡◌ {A = String} (if b then "degraded" else "healthy") "healthy" → b ≡ false
chosen true h = absurd (degraded_ne h)
chosen false h = refl

-- An agent reports "healthy" exactly if its health check and both queries of the Kubernetes API went
-- through and every node has a condition `Ready` that is `True`.
pub get_cluster_status_healthy_iff :
    (error_text : Error → String) (health : Result (Unit {0})) (version : Result (String × String))
    (nodes : Result (List Conditions)) (now : ℕ)
    → ((get_cluster_status error_text health (get_cluster_info version nodes) now).status
        ≡ "healthy")
      ↔ ((health ≡ ok tt)
          × ((v : String × String) × (version ≡ ok v))
          × ((items : List Conditions) × (nodes ≡ ok items) × All IsReadyNode items))
unfolding get_cluster_status get_cluster_info
get_cluster_status_healthy_iff error_text (err e) version nodes now =
    (λ h. absurd (unhealthy_ne h), λ (h, k, l). absurd (ground (arith, h)))
get_cluster_status_healthy_iff error_text (ok u) (err e) nodes now =
    (λ h. absurd (degraded_ne h), λ (h, (v, k), l). absurd (ground (arith, k)))
get_cluster_status_healthy_iff error_text (ok u) (ok v) (err e) now =
    (λ h. absurd (degraded_ne h), λ (h, k, (items, l, r)). absurd (ground (arith, l)))
get_cluster_status_healthy_iff error_text (ok u) (ok v) (ok items) now =
    let b = ltb (count_ready items) (length items) in
    (
      λ h. (refl, (v, refl), (items, refl, (All-IsReadyNode items).0 (chosen b h))),
      λ (h, k, (others, l, r)).
          let e : items ≡ others = ground arith in
          ap (λ c. if c then "degraded" else "healthy")
            ((All-IsReadyNode items).1 (subst (All IsReadyNode) (sym e) r)),
    )
