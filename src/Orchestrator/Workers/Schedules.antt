-- ===== src/Orchestrator/Workers/Schedules.antt =====
-- What the goroutines may do next, and in what order (Orchestrator/Workers).
use mckmt.Base.{ℕ, ◌<◌, ◌≡◌, refl, ◌≢◌, true, false, [], ◌==◌}
use mckmt.Repo.{Operation}
use mckmt.Repo.Store.{Env}
use mckmt.Repo.Interfaces.{table}
use mckmt.Orchestrator.{queue_operation, cancel_operation}
use mckmt.Orchestrator.Workers.{Worker, Pool, place, advance, receive_request, is_ready, is_idle}

-- What may happen next with `n` goroutines: one of them goes on, processOperations receives a request,
-- or a service puts an operation or a request into its channel.
pub data Step (env : Env) (n : ℕ) : Pool → Pool → Type 0 where
  work :
      (p : Pool) (k : ℕ)
      → k < n
      → is_ready (p.workers k).phase p.world.queue ≡ true
      → Step env n p (advance (table env) k p)
  request :
      (p : Pool)
      → is_idle (p.workers 0).phase ≡ true
      → p.world.cancel_ch ≢ []
      → Step env n p (receive_request (table env) p)

pub data Event (env : Env) (n : ℕ) : Pool → Pool → Type 0 where
  step : {p q : Pool} → Step env n p q → Event env n p q
  queue :
      (p : Pool) (op : Operation)
      → Event env n p (record p { world = (queue_operation op p.world).1 })
  cancel : (p : Pool) (i : ℕ) → Event env n p (record p { world = (cancel_operation i p.world).1 })

pub data Reach (env : Env) (n : ℕ) (p : Pool) : Pool → Type 0 where
  here : Reach env n p p
  next : {q r : Pool} → Reach env n p q → Event env n q r → Reach env n p r

module _ (k j : ℕ) (v : Worker) (ws : ℕ → Worker) where
  pub place_here : (k == j) ≡ true → place k v ws j ≡ v
  place_here c = rw c refl

  pub place_there : (k == j) ≡ false → place k v ws j ≡ ws j
  place_there c = rw c refl
