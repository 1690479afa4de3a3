-- ===== src/AuthService/Sessions.antt =====
-- RefreshToken, Logout and ChangePassword of the service of the accounts (AuthService).
use mckmt.Base.{
  ℕ, ◌+◌, ◌≡◌, refl, String, true, some, List, Result, ok, err, Option-cases, arith, inl, inr,
}
use mckmt.Repo.Store.{find}
use mckmt.Accounts.{Account, UserRow, Directory, user_key}
use mckmt.Accounts.AuditTable
use mckmt.Accounts.UserTable.{scan_user, get_by_id}
use mckmt.Auth.{User}
use mckmt.Auth.Tokens.{IsJwt, validate_token}
use mckmt.AuthService.{Setup, two_tokens, log_audit_event, login}
use mckmt.AuthService.Refresh.{find_account, refresh_tokens, logout, change_password}
use mckmt.AuthService.Logins.{IsIdentified, identified, read_users}

module _ (setup : Setup) where
  find_account-users :
      (invalid key : String) (d : Directory) → (find_account setup invalid key d).1.users ≡ d.users
  unfolding find_account get_by_id
  find_account-users invalid key d = ground arith

  find_account-calls :
      (invalid key : String) (d : Directory) (u : Account)
      → (find_account setup invalid key d).0 ≡ ok u
      → (find_account setup invalid key d).1.calls ≡ d.calls + 1
  unfolding find_account get_by_id
  find_account-calls invalid key d u h = ground arith

  -- The account with the id that a text stands for, as the repository reads it.
  abbrev pub IsRegistered : String → Account → Directory → Type 0
  IsRegistered key u d =
      (i : ℕ) × (r : UserRow) × (setup.uuid.parse key ≡ some i)
      × (find user_key i d.users ≡ some r)
      × (scan_user setup.env setup.codec r ≡ ok u)

  found :
      (invalid key : String) (d : Directory) (u : Account)
      → (find_account setup invalid key d).0 ≡ ok u
      → IsRegistered key u d
  unfolding find_account get_by_id
  found invalid key d u h = elim (Option-cases (setup.uuid.parse key)) [
    | inl e ↦ ground arith
    | inr (i, e) ↦ elim (Option-cases (find user_key i d.users)) [
      | inl f ↦ ground arith
      | inr (r, f) ↦ (i, r, e, f, ground arith)
    ]
  ]

  abbrev find_claimed : User → Directory → Result Account
  find_claimed claims d = (find_account setup "invalid newUser ID in token" claims.id d).0

  refreshed :
      (token ip agent : String) (d : Directory) (access refresh : String) (claims : User)
      (u : Account)
      → validate_token setup.jwt setup.manager (setup.env.now d.calls) token ≡ ok claims
      → find_claimed claims d ≡ ok u
      → (refresh_tokens setup token ip agent d).0 ≡ ok (access, refresh)
      → (u.active ≡ true) × (two_tokens setup u (d.calls + 1) ≡ ok (access, refresh))
  unfolding refresh_tokens
  refreshed token ip agent d access refresh claims u v g h =
      ground (arith, find_account-calls "invalid newUser ID in token" claims.id d u)

  claimed :
      (token ip agent : String) (d : Directory) (p : String × String)
      → (refresh_tokens setup token ip agent d).0 ≡ ok p
      → (claims : User) × (validate_token setup.jwt setup.manager (setup.env.now d.calls) token
          ≡ ok claims)
  unfolding refresh_tokens
  claimed token ip agent d p h =
      got (validate_token setup.jwt setup.manager (setup.env.now d.calls) token) refl
    where
      got :
          (r : Result User)
          → validate_token setup.jwt setup.manager (setup.env.now d.calls) token ≡ r
          → (claims : User) × (validate_token setup.jwt setup.manager (setup.env.now d.calls) token
              ≡ ok claims)
      got (ok claims) e = (claims, e)
      got (err k) e = ground arith

  claimed_found :
      (token ip agent : String) (d : Directory) (p : String × String) (claims : User)
      → validate_token setup.jwt setup.manager (setup.env.now d.calls) token ≡ ok claims
      → (refresh_tokens setup token ip agent d).0 ≡ ok p
      → (u : Account) × (find_claimed claims d ≡ ok u)
  unfolding refresh_tokens
  claimed_found token ip agent d p claims v h = got (find_claimed claims d) refl
    where
      got :
          (r : Result Account)
          → find_claimed claims d ≡ r
          → (u : Account) × (find_claimed claims d ≡ ok u)
      got (ok u) e = (u, e)
      got (err k) e = ground arith

  -- For a JWT library that does what it documents: a refresh that succeeds was given a token that is
  -- still valid, whose user is the id of an account that is in the table now and is active; and the new
  -- tokens give what the table says of that account, not what the old token said.
  pub refresh_tokens-IsRegistered :
      (token ip agent : String) (d : Directory) (access refresh : String)
      → IsJwt setup.jwt
      → (refresh_tokens setup token ip agent d).0 ≡ ok (access, refresh)
      → (claims : User) × (u : Account) × (validate_token setup.jwt setup.manager
            (setup.env.now d.calls)
            token
          ≡ ok claims)
        × IsRegistered claims.id u d
        × (u.active ≡ true)
        × IsIdentified setup u (setup.env.now (d.calls + 1)) access
        × IsIdentified setup u (setup.env.now (d.calls + 1)) refresh
  refresh_tokens-IsRegistered token ip agent d access refresh doc h =
      let (claims, v) = claimed token ip agent d (access, refresh) h in
      let (u, g) = claimed_found token ip agent d (access, refresh) claims v h in
      let (active, tokens) = refreshed token ip agent d access refresh claims u v g h in
      let (i, j) = identified setup u (d.calls + 1) access refresh doc tokens in
      (claims, u, v, found "invalid newUser ID in token" claims.id d u g, active, i, j)

  refresh_users :
      (token ip agent : String) (d : Directory)
      → (refresh_tokens setup token ip agent d).1.users ≡ d.users
  unfolding refresh_tokens log_audit_event AuditTable.create
  refresh_users token ip agent d =
      got (validate_token setup.jwt setup.manager (setup.env.now d.calls) token) refl
    where
      got :
          (r : Result User)
          → validate_token setup.jwt setup.manager (setup.env.now d.calls) token ≡ r
          → (refresh_tokens setup token ip agent d).1.users ≡ d.users
      got (ok claims) e =
          ground (arith, find_account-users "invalid newUser ID in token" claims.id d)
      got (err k) e = ground arith

  -- No login, refresh, logout or change of a password writes to the users, and a change of a password
  -- is answered in the same way whatever the current password is said to be.
  sessions_keep_users :
      (name token key ip agent : String) (current other new : List ℕ) (d : Directory)
      → ((login setup name current ip agent d).1.users ≡ d.users)
        × ((refresh_tokens setup token ip agent d).1.users ≡ d.users)
        × ((logout setup key ip agent d).1.users ≡ d.users)
        × ((change_password setup key current new ip agent d).1.users ≡ d.users)
        × (change_password setup key current new ip agent d
            ≡ change_password setup key other new ip agent d)
  unfolding login refresh_tokens logout change_password log_audit_event AuditTable.create
  sessions_keep_users name token key ip agent current other new d = (
    ground (arith, read_users setup name d),
    refresh_users token ip agent d,
    ground arith,
    ground (arith, find_account-users "invalid newUser ID" key d),
    refl,
  )
