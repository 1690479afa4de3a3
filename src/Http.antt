-- ===== src/Http.antt =====
-- The HTTP handlers of internal/api/http. The decoding of a body and of a form, and the texts of the
-- errors of the drivers, are parameters or arguments; metrics and logs are left out. The text of an
-- error of the services is its fixed part, without the values that it quotes.
pub mod Numbers
pub mod Clusters
pub mod Operations
pub mod Accounts
pub mod Routes
pub mod Pipeline
use mckmt.Base.{
  ℕ, String, Bool, true, false, Option, none, some, List, [], ◌∷◌, ◌++◌, Result, ok, err, Error,
  not_found, cache_miss, failed, wrapped, codes,
}

-- What is written to the client: a status with a body, or WriteErrorResponse's status and message.
pub data Reply (A : Type 0) : Type 0 where
  replies : ℕ → A → Reply A
  rejects : ℕ → List ℕ → Reply A

-- The status of a reply.
abbrev pub status : {A : Type 0} → Reply A → ℕ
status (replies code _) = code
status (rejects code _) = code

-- A handler reads and changes a state.
abbrev pub Handler : Type 0 → Type 0 → Type 0
Handler S A = S → Reply A × S

-- err.Error(): the text of an error, for what the drivers say.
unfoldable pub error_text : (Error → List ℕ) → Error → List ℕ
error_text driver not_found = codes "not found"
error_text driver cache_miss = codes "cache miss"
error_text driver (failed s) = codes s
error_text driver (wrapped s e) = codes s ++ (codes ": " ++ error_text driver e)
error_text driver e = driver e

-- A handler that passes the error of a service on under one status and message.
abbrev pub answer : {S A : Type 0} → ℕ → ℕ → List ℕ → Result A × S → Reply A × S
answer good bad message (ok a, s) = (replies good a, s)
answer good bad message (err _, s) = (rejects bad message, s)
