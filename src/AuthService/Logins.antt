-- ===== src/AuthService/Logins.antt =====
-- Login, RefreshToken and ChangePassword of the service of the accounts (AuthService).
use mckmt.Base.{
  ℕ, ◌+◌, ◌≤◌, ◌<◌, ◌≡◌, refl, ◌≢◌, ◌↔◌, String, true, false, none, some, List, [], Result, ok, err,
  Option-cases, list_eq_iff, arith, inl, inr,
}
use mckmt.Accounts.{AuthSource, Account, UserRow, Directory}
use mckmt.Accounts.AuditTable
use mckmt.Accounts.UserTable.{by_username, scan_user, get_by_username}
use mckmt.Auth.Password.Hash.{verify_password}
use mckmt.Auth.Tokens.{IsJwt, generate_token, validate_token, fresh_token, Claims, new_claims}
use mckmt.AuthService.{
  Setup, LoginResponse, identity, two_tokens, log_audit_event, check_login, login,
}

module _ (setup : Setup) where
  -- The accounts that may log in with a password.
  abbrev pub IsAdmitted : List ℕ → Account → Type 0
  IsAdmitted password u =
      (u.active ≡ true)
      × (u.auth_source ≢ AuthSource.oidc)
      × (u.password_hash ≢ [])
      × (verify_password setup.crypto setup.password_config password u.password_hash ≡ ok true)

  -- An account under a username, as the repository reads it.
  abbrev pub IsStored : String → Account → Directory → Type 0
  IsStored username u d =
      (r : UserRow) × (by_username username d.users ≡ some r)
      × (scan_user setup.env setup.codec r ≡ ok u)

  pub check_login_iff :
      (password : List ℕ) (u : Account)
      → (check_login setup password u ≡ ok tt) ↔ IsAdmitted password u
  unfolding check_login
  check_login_iff password u = ground (arith, list_eq_iff u.password_hash [])

  -- What the repository answers, from the table.
  read-IsStored :
      (username : String) (u : Account) (d : Directory)
      → (get_by_username setup.env setup.codec username d).0 ≡ ok u
      → IsStored username u d
  unfolding get_by_username
  read-IsStored username u d h = elim (Option-cases (by_username username d.users)) [
    | inl e ↦ ground arith
    | inr (r, e) ↦ (r, e, ground arith)
  ]

  pub IsStored-read :
      (username : String) (u : Account) (d : Directory)
      → setup.env.fails d.calls ≡ false
      → IsStored username u d
      → (get_by_username setup.env setup.codec username d).0 ≡ ok u
  unfolding get_by_username
  IsStored-read username u d f (r, e, h) = ground arith

  pub read_users :
      (username : String) (d : Directory)
      → (get_by_username setup.env setup.codec username d).1.users ≡ d.users
  unfolding get_by_username
  read_users username d = ground arith

  pub read_calls :
      (username : String) (d : Directory)
      → (get_by_username setup.env setup.codec username d).1.calls ≡ d.calls + 1
  unfolding get_by_username
  read_calls username d = ground arith

  pub log-users :
      (u a k i ip agent : String) (d : Directory)
      → (log_audit_event setup u a k i ip agent d).users ≡ d.users
  unfolding log_audit_event AuditTable.create
  log-users u a k i ip agent d = ground arith

  -- What two tokens stand for.
  abbrev pub IsIdentified : Account → ℕ → String → Type 0
  IsIdentified u made token =
      (m : ℕ)
      → made ≤ m
      → m < made + setup.manager.token_duration
      → validate_token setup.jwt setup.manager m token ≡ ok (identity setup u)

  pub identified :
      (u : Account) (n : ℕ) (access refresh : String)
      → IsJwt setup.jwt
      → two_tokens setup u n ≡ ok (access, refresh)
      → IsIdentified u (setup.env.now n) access × IsIdentified u (setup.env.now n) refresh
  identified u n access refresh doc h =
      let (i, j) = setup.token_ids n in
      let fresh = λ (k : ℕ).
        fresh_token setup.jwt setup.manager doc (setup.uuid.to_string k) (identity setup u)
          (setup.env.now n) in
      (λ m a b. fresh i access m (ground arith) a b, λ m a b. fresh j refresh m (ground arith) a b)

  -- Login behind the query.
  login_checked :
      (username : String) (password : List ℕ) (ip agent : String) (d : Directory) (u : Account)
      (a : LoginResponse)
      → (get_by_username setup.env setup.codec username d).0 ≡ ok u
      → (login setup username password ip agent d).0 ≡ ok a
      → IsAdmitted password u
        × (two_tokens setup u (d.calls + 1) ≡ ok (a.access_token, a.refresh_token))
  unfolding login
  login_checked username password ip agent d u a g h =
      ground (arith, check_login_iff password u, read_calls username d)

  login_read :
      (username : String) (password : List ℕ) (ip agent : String) (d : Directory)
      (a : LoginResponse)
      → (login setup username password ip agent d).0 ≡ ok a
      → (u : Account) × ((get_by_username setup.env setup.codec username d).0 ≡ ok u)
  unfolding login
  login_read username password ip agent d a h =
      got (get_by_username setup.env setup.codec username d).0 refl
    where
      got :
          (r : Result Account)
          → (get_by_username setup.env setup.codec username d).0 ≡ r
          → (u : Account) × ((get_by_username setup.env setup.codec username d).0 ≡ ok u)
      got (ok u) e = (u, e)
      got (err x) e = ground arith

  -- For a JWT library that does what it documents: a login with a password that succeeds found an
  -- account under the username that is active, is not one of OIDC, and has a hash that the password
  -- verifies against; and both its tokens give the id, names and roles of that account until their
  -- duration is over.
  pub login-IsAdmitted :
      (username : String) (password : List ℕ) (ip agent : String) (d : Directory)
      (a : LoginResponse)
      → IsJwt setup.jwt
      → (login setup username password ip agent d).0 ≡ ok a
      → (u : Account) × IsStored username u d
        × IsAdmitted password u
        × IsIdentified u (setup.env.now (d.calls + 1)) a.access_token
        × IsIdentified u (setup.env.now (d.calls + 1)) a.refresh_token
  login-IsAdmitted username password ip agent d a doc h =
      let (u, g) = login_read username password ip agent d a h in
      let (admitted, tokens) = login_checked username password ip agent d u a g h in
      let (access, refresh) =
        identified u (d.calls + 1) a.access_token a.refresh_token doc tokens in
      (u, read-IsStored username u d g, admitted, access, refresh)

  signed :
      (i : ℕ) (u : Account) (now : ℕ)
      → ((c : Claims) → setup.jwt.sign setup.manager.secret_key c ≢ none)
      → (t : String) × (generate_token setup.jwt setup.manager
            (setup.uuid.to_string i)
            (identity setup u)
            now
          ≡ ok t)
  unfolding generate_token
  signed i u now s =
      let c = new_claims setup.jwt setup.manager (setup.uuid.to_string i) (identity setup u) now in
      elim (Option-cases (setup.jwt.sign setup.manager.secret_key c)) [
        | inl e ↦ absurd (s c e)
        | inr (t, e) ↦ (t, ground arith)
      ]

  signs :
      (u : Account) (n : ℕ)
      → ((c : Claims) → setup.jwt.sign setup.manager.secret_key c ≢ none)
      → (p : String × String) × (two_tokens setup u n ≡ ok p)
  signs u n s =
      let (x, a) = signed (setup.token_ids n).0 u (setup.env.now n) s in
      let (y, b) = signed (setup.token_ids n).1 u (setup.env.now n) s in ((x, y), ground arith)

  pub login_accepts :
      (username : String) (password : List ℕ) (ip agent : String) (d : Directory) (u : Account)
      (x y : String)
      → (get_by_username setup.env setup.codec username d).0 ≡ ok u
      → IsAdmitted password u
      → two_tokens setup u (d.calls + 1) ≡ ok (x, y)
      → (a : LoginResponse) × ((login setup username password ip agent d).0 ≡ ok a)
  unfolding login
  login_accepts username password ip agent d u x y g v h =
      got (login setup username password ip agent d).0 refl
    where
      got :
          (r : Result LoginResponse)
          → (login setup username password ip agent d).0 ≡ r
          → (a : LoginResponse) × ((login setup username password ip agent d).0 ≡ ok a)
      got (ok a) e = (a, e)
      got (err k) e = ground (arith, check_login_iff password u, read_calls username d)

  -- Where the query does not fail and the library signs, a login succeeds for exactly the stored
  -- accounts that may log in.
  pub login_iff :
      (username : String) (password : List ℕ) (ip agent : String) (d : Directory) (u : Account)
      → setup.env.fails d.calls ≡ false
      → IsStored username u d
      → ((c : Claims) → setup.jwt.sign setup.manager.secret_key c ≢ none)
      → ((a : LoginResponse) × ((login setup username password ip agent d).0 ≡ ok a))
        ↔ IsAdmitted password u
  login_iff username password ip agent d u f v s =
      let g = IsStored-read username u d f v in
      let ((x, y), h) = signs u (d.calls + 1) s in
      (
        λ (a, e). (login_checked username password ip agent d u a g e).0,
        λ w. login_accepts username password ip agent d u x y g w h,
      )
