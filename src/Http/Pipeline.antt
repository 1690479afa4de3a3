-- ===== src/Http/Pipeline.antt =====
-- The middleware that every request passes: corsMiddleware and metricsMiddleware of
-- internal/api/http/router.go, HTTPMiddlewareFactory of internal/metrics/middleware.go, and chi's
-- Recoverer outside of them; and RequireAuth, which SetupRoutes puts before the protected group.
use mckmt.Base.{
  ℕ, ◌+◌, ◌-◌, ◌<◌, ◌≡◌, refl, ◌≢◌, ◌↔◌, String, Bool, true, false, not, ◌&&◌, List, [], ◌∷◌, ◌++◌,
  Result, err, Error, if◌then◌else◌, str_eq, str_eq_iff, length, filter, arith, Bool-cases, inl,
  inr,
}
use mckmt.Auth.{User}
use mckmt.Auth.Middleware.{Bytes, Verdict, proceeds, refuses, panics, bearer_prefix, require_auth}
use mckmt.Auth.Guards.{require_auth_panics}

-- How a handler ends: with the status that it has written, or in a panic.
pub data Ended : Type 0 where
  answered : ℕ → Ended
  panicked : Ended

-- HTTPRequestsInFlight, and the statuses that HTTPRequestsTotal has counted, the last first.
pub record Meters : Type 0 where
  pub in_flight : ℕ
  pub totals : List ℕ

-- The Dec stands behind the handler and is not deferred.
unfoldable pub http_middleware : Bool → Ended → Meters → Ended × Meters
http_middleware false e m = (e, m)
http_middleware true (answered code) m =
    let m₁ = record m { in_flight = m.in_flight + 1 } in
    (answered code, record { in_flight = m₁.in_flight - 1; totals = code ∷ m₁.totals })
http_middleware true panicked m = (panicked, record m { in_flight = m.in_flight + 1 })

-- A preflight request goes no further.
unfoldable pub cors_middleware : String → (Meters → Ended × Meters) → Meters → Ended × Meters
cors_middleware method next m = if str_eq method "OPTIONS" then (answered 200, m) else next m

abbrev recovered : Ended → ℕ
recovered (answered code) = code
recovered panicked = 500

pub record Request : Type 0 where
  pub is_protected : Bool
  pub method : String
  pub authorization : Bytes

module _ (has_metrics : Bool) (validate_token : Bytes → Result User) (public : Request → Ended)
    (handler : User → Ended) where
  -- SetupRoutes: RequireAuth stands before the handlers of the protected group only.
  unfoldable pub routed : Request → Ended
  routed r =
      if r.is_protected
      then elim (require_auth validate_token r.authorization) [
        | proceeds u ↦ handler u
        | refuses code _ ↦ answered code
        | panics ↦ panicked
      ]
      else public r

  -- The status that the client sees, and the meters.
  unfoldable pub serve : Request → Meters → ℕ × Meters
  unfolding http_middleware cors_middleware routed
  serve r m =
      let (e, m') = cors_middleware r.method (http_middleware has_metrics (routed r)) m in
      (recovered e, m')

  unfoldable pub serve_all : List Request → Meters → Meters
  unfolding serve
  serve_all [] m = m
  serve_all (r ∷ rs) m = serve_all rs (serve r m).1

abbrev is_panicked : Ended → Bool
is_panicked (answered _) = false
is_panicked panicked = true

middleware-in_flight :
    (e : Ended) (m : Meters)
    → (http_middleware true e m).1.in_flight ≡ m.in_flight + (if is_panicked e then 1 else 0)
unfolding http_middleware
middleware-in_flight (answered code) m = omega arith
middleware-in_flight panicked m = refl

module _ (validate_token : Bytes → Result User) (public : Request → Ended)
    (handler : User → Ended) where
  -- A request that ends in a panic behind corsMiddleware.
  abbrev pub leaks : Request → Bool
  leaks r =
      not (str_eq r.method "OPTIONS") && is_panicked (routed true validate_token public handler r)

  serve-in_flight :
      (r : Request) (m : Meters)
      → (serve true validate_token public handler r m).1.in_flight
        ≡ m.in_flight + (if leaks r then 1 else 0)
  unfolding serve cors_middleware http_middleware
  serve-in_flight r m = elim (Bool-cases (str_eq r.method "OPTIONS")) [
    | inl e ↦ ground arith
    | inr e ↦ ground (arith, middleware-in_flight (routed true validate_token public handler r) m)
  ]

  serve_all-in_flight :
      (rs : List Request) (m : Meters)
      → (serve_all true validate_token public handler rs m).in_flight
        ≡ m.in_flight + length (filter leaks rs)
  unfolding serve_all
  serve_all-in_flight [] m = omega arith
  serve_all-in_flight (r ∷ rs) m = ground (
    arith,
    serve_all-in_flight rs (serve true validate_token public handler r m).1,
    serve-in_flight r m,
  )

  ended_lem : (e : Ended) → is_panicked e ≡ true → e ≡ panicked
  ended_lem (answered code) h = absurd (ground arith)
  ended_lem panicked h = refl

  verdict_iff :
      (v : Verdict User)
      → ((u : User) → handler u ≢ panicked)
      → (is_panicked
            (elim v [ proceeds u ↦ handler u | refuses code _ ↦ answered code | panics ↦ panicked ])
          ≡ true)
        ↔ (v ≡ panics)
  verdict_iff (proceeds u) calm =
      (λ h. absurd (calm u (ended_lem (handler u) h)), λ h. absurd (ground arith))
  verdict_iff (refuses code s) calm = (λ h. absurd (ground arith), λ h. absurd (ground arith))
  verdict_iff panics calm = (λ h. refl, λ h. refl)

  leaks_iff :
      (r : Request)
      → ((q : Request) → public q ≢ panicked)
      → ((u : User) → handler u ≢ panicked)
      → (leaks r ≡ true) ↔ (
          (r.method ≢ "OPTIONS")
          × (r.is_protected ≡ true)
          × (require_auth validate_token r.authorization ≡ panics))
  unfolding routed
  leaks_iff r steady calm = ground (
    arith,
    str_eq_iff r.method "OPTIONS",
    verdict_iff (require_auth validate_token r.authorization) calm,
    steady r,
    ended_lem (public r),
  )

  -- No handler panics itself. With metrics on, the gauge of the requests in flight is, when all
  -- requests have been answered, higher by the number of those that were no preflight, went to a
  -- protected route, and had a token that is not valid and shorter than 50 bytes: each of them stays
  -- counted for ever.
  pub in_flight_leaks :
      (rs : List Request) (m : Meters) (r : Request)
      → ((q : Request) → public q ≢ panicked)
      → ((u : User) → handler u ≢ panicked)
      → ((serve_all true validate_token public handler rs m).in_flight
          ≡ m.in_flight + length (filter leaks rs))
        × ((leaks r ≡ true) ↔ (
            (r.method ≢ "OPTIONS")
            × (r.is_protected ≡ true)
            × ((t : Bytes) × (e : Error) × (r.authorization ≡ bearer_prefix ++ t)
                × (validate_token t ≡ err e)
                × (length t < 50))))
  in_flight_leaks rs m r steady calm =
      let (f, g) = leaks_iff r steady calm in
      let (a, b) = require_auth_panics validate_token r.authorization in
      (
        serve_all-in_flight rs m,
        (λ x. let (n, p, v) = f x in (n, p, a v), λ (n, p, y). g (n, p, b y)),
      )
