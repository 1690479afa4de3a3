-- ===== src/Base/Results.antt =====
-- Go's `(value, error)` pairs. The errors are those that some caller tells apart, by identity
-- (repo/interfaces.go, repo/redis/manager.go) or by the message that it passes on.
use Prim.Native.String.{String}

pub data Error : Type 0 where
  -- repo.ErrNotFound, repo.ErrCacheMiss, and the driver's error for a query without a row
  not_found cache_miss no_rows : Error
  -- the connection failed, a constraint of the schema refused the write, a column was not scanned
  db_failed cache_failed constraint_violated scan_failed : Error
  -- `fmt.Errorf`, with its text
  failed : String → Error
  -- `fmt.Errorf` with `%w`
  wrapped : String → Error → Error

pub data Result {ℓ} (A : Type ℓ) : Type ℓ where
  ok : A → Result A
  err : Error → Result A
