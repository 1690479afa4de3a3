-- ===== src/Accounts/AuditTable.antt =====
-- internal/repo/postgres/audit_log_repository.go. The payloads of a log are left out.
use mckmt.Base.{
  ℕ, ◌+◌, ◌≡◌, String, Bool, true, false, ◌&&◌, List, ◌∷◌, ◌++◌, ok, leb, str_eq, filter, page,
  append-page, latest_first, IsLatestFirst, latest_first-IsLatestFirst, length-latest_first, length,
  arith,
}
use mckmt.Repo.Store.{Env}
use mckmt.Accounts.{AuditLog, Directory, D, call}

abbrev pub log_time : AuditLog → ℕ
log_time l = l.created_at

-- The WHERE of the five List methods.
abbrev pub of_user : String → AuditLog → Bool
of_user u l = str_eq l.user_id u

abbrev pub of_resource : String → String → AuditLog → Bool
of_resource t i l = str_eq l.resource_type t && str_eq l.resource_id i

abbrev pub of_action : String → AuditLog → Bool
of_action a l = str_eq l.action a

abbrev pub in_range : ℕ → ℕ → AuditLog → Bool
in_range start end l = leb start l.created_at && leb l.created_at end

module _ (env : Env) where
  unfoldable pub create : AuditLog → D (Unit {0})
  create l = call env λ d. (ok tt, record d { audit_logs = l ∷ d.audit_logs })

  -- The rows that match, the latest first.
  abbrev pub select : (AuditLog → Bool) → Directory → List AuditLog
  select p d = latest_first log_time (filter p d.audit_logs)

  abbrev pub list_where : (AuditLog → Bool) → ℕ → ℕ → D (List AuditLog)
  list_where p limit offset = call env λ d. (ok (page limit offset (select p d)), d)

  unfoldable pub list : String → ℕ → ℕ → D (List AuditLog)
  list user = list_where (of_user user)

  unfoldable pub list_by_resource : String → String → ℕ → ℕ → D (List AuditLog)
  list_by_resource t i = list_where (of_resource t i)

  unfoldable pub list_all : ℕ → ℕ → D (List AuditLog)
  list_all = list_where (λ _. true)

  unfoldable pub list_by_action : String → ℕ → ℕ → D (List AuditLog)
  list_by_action a = list_where (of_action a)

  unfoldable pub list_by_date_range : ℕ → ℕ → ℕ → ℕ → D (List AuditLog)
  list_by_date_range start end = list_where (in_range start end)

  unfoldable pub count : D ℕ
  count = call env λ d. (ok (length d.audit_logs), d)

  unfoldable pub count_by_user : String → D ℕ
  count_by_user u = call env λ d. (ok (length (filter (of_user u) d.audit_logs)), d)

-- Two pages of a user's logs that were read one behind the other are one page, and the whole list
-- is in the order of its times, with as many logs as CountByUser says, where no call fails.
pub list_pages :
    (env : Env) (user : String) (m n offset : ℕ) (d : Directory)
    → ((k : ℕ) → env.fails k ≡ false)
    → let logs = select env (of_user user) d in
      ((list env user m offset d).0 ≡ ok (page m offset logs))
      × ((list env user n (offset + m) d).0 ≡ ok (page n (offset + m) logs))
      × (page m offset logs ++ page n (offset + m) logs ≡ page (m + n) offset logs)
      × IsLatestFirst log_time logs
      × ((count_by_user env user d).0 ≡ ok (length logs))
unfolding list count_by_user
list_pages env user m n offset d healthy =
    let logs = filter (of_user user) d.audit_logs in
    (
      ground (arith, healthy d.calls),
      ground (arith, healthy d.calls),
      append-page m n offset (latest_first log_time logs),
      latest_first-IsLatestFirst log_time logs,
      ground (arith, healthy d.calls, length-latest_first log_time logs),
    )
