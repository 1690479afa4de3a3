-- ===== src/Http/Accounts/Statuses.antt =====
-- The statuses of the replies to a login (Http/Accounts, AuthService/Logins).
use mckmt.Base.{
  ℕ, ◌≡◌, refl, ap, ◌∙◌, ◌≢◌, ◌↔◌, ◌⊎◌, String, true, false, none, some, List, Result, ok, err,
  Error, failed, codes, arith, inl, inr,
}
use mckmt.Accounts.{Account, Directory}
use mckmt.Accounts.UserTable.{get_by_username}
use mckmt.Auth.RoleMapper.{contains, contains_substring, contains_from}
use mckmt.Auth.Tokens.{Claims}
use mckmt.AuthService
use mckmt.AuthService.{Setup, LoginResponse, check_login}
use mckmt.AuthService.Logins.{IsAdmitted, IsStored, login_iff, IsStored-read, check_login_iff}
use mckmt.Http.{Reply, replies, rejects, status, error_text}
use mckmt.Http.Accounts.{LoginRequest, validate_login, login_refusal, login}

disabled :
    {A : Type 0}
    → login_refusal {A = A} (codes "account is disabled") ≡ rejects 401 (codes "Login failed")
unfolding login_refusal contains contains_substring contains_from
disabled = refl

of_oidc :
    {A : Type 0}
    → login_refusal {A = A} (codes "this user must authenticate via OIDC")
      ≡ rejects 401 (codes "Login failed")
unfolding login_refusal contains contains_substring contains_from
of_oidc = refl

no_password :
    {A : Type 0}
    → login_refusal {A = A} (codes "password authentication not available for this user")
      ≡ rejects 401 (codes "Login failed")
unfolding login_refusal contains contains_substring contains_from
no_password = refl

not_verified :
    {A : Type 0}
    → login_refusal {A = A} (codes "password verification failed")
      ≡ rejects 401 (codes "Login failed")
unfolding login_refusal contains contains_substring contains_from
not_verified = refl

not_valid :
    {A : Type 0}
    → login_refusal {A = A} (codes "invalid credentials")
      ≡ rejects 401 (codes "Invalid credentials")
unfolding login_refusal contains contains_substring contains_from
not_valid = refl

-- The texts of check_login.
abbrev IsRefusal : Error → Type 0
IsRefusal e =
    (e ≡ failed "account is disabled")
    ⊎ ((e ≡ failed "this user must authenticate via OIDC")
        ⊎ ((e ≡ failed "password authentication not available for this user")
            ⊎ ((e ≡ failed "password verification failed") ⊎ (e ≡ failed "invalid credentials"))))

module _ (setup : Setup) (driver : Error → List ℕ) (ip agent : String) where
  check_login-IsRefusal :
      (password : List ℕ) (u : Account) (e : Error)
      → check_login setup password u ≡ err e
      → IsRefusal e
  unfolding check_login
  check_login-IsRefusal password u e h = ground arith

  refused_status :
      (e : Error)
      → IsRefusal e
      → status (login_refusal {A = LoginResponse} (error_text driver e)) ≡ 401
  unfolding error_text
  refused_status e (inl h) = rw (h, disabled {A = LoginResponse}) refl
  refused_status e (inr (inl h)) = rw (h, of_oidc {A = LoginResponse}) refl
  refused_status e (inr (inr (inl h))) = rw (h, no_password {A = LoginResponse}) refl
  refused_status e (inr (inr (inr (inl h)))) = rw (h, not_verified {A = LoginResponse}) refl
  refused_status e (inr (inr (inr (inr h)))) = rw (h, not_valid {A = LoginResponse}) refl

  accepted_reply :
      (req : LoginRequest) (d : Directory) (a : LoginResponse)
      → validate_login req ≡ none
      → (AuthService.login setup req.username req.password ip agent d).0 ≡ ok a
      → (login setup driver ip agent (some req) d).0 ≡ replies 200 a
  unfolding login
  accepted_reply req d a v h = ground arith

  refused_reply :
      (req : LoginRequest) (d : Directory) (u : Account) (e : Error)
      → validate_login req ≡ none
      → (get_by_username setup.env setup.codec req.username d).0 ≡ ok u
      → check_login setup req.password u ≡ err e
      → (login setup driver ip agent (some req) d).0 ≡ login_refusal (error_text driver e)
  unfolding login AuthService.login
  refused_reply req d u e v g h = ground arith

  disabled_error :
      (password : List ℕ) (u : Account) (e : Error)
      → check_login setup password u ≡ err e
      → (u.active ≡ true) ⊎ (e ≡ failed "account is disabled")
  unfolding check_login
  disabled_error password u e h = ground arith

  disabled_reply :
      (e : Error) (r : Reply LoginResponse)
      → e ≡ failed "account is disabled"
      → r ≡ login_refusal (error_text driver e)
      → r ≡ rejects 401 (codes "Login failed")
  unfolding error_text
  disabled_reply e r h k =
      k ∙ ap (λ x. login_refusal (error_text driver x)) h ∙ disabled {A = LoginResponse}

  -- For a request that is well formed, an account that is stored under its username, a database that
  -- answers and a library that signs: the status is 200 exactly if the account may log in, and 401
  -- otherwise, never 403; a disabled account is answered "Login failed".
  pub login_status :
      (req : LoginRequest) (d : Directory) (u : Account)
      → validate_login req ≡ none
      → setup.env.fails d.calls ≡ false
      → IsStored setup req.username u d
      → ((c : Claims) → setup.jwt.sign setup.manager.secret_key c ≢ none)
      → ((status (login setup driver ip agent (some req) d).0 ≡ 200)
          ↔ IsAdmitted setup req.password u)
        × ((status (login setup driver ip agent (some req) d).0 ≡ 200)
            ⊎ (status (login setup driver ip agent (some req) d).0 ≡ 401))
        × ((u.active ≡ true)
            ⊎ ((login setup driver ip agent (some req) d).0 ≡ rejects 401 (codes "Login failed")))
  login_status req d u v f s k = checked (check_login setup req.password u) refl
    where
      checked :
          (r : Result (Unit {0}))
          → check_login setup req.password u ≡ r
          → ((status (login setup driver ip agent (some req) d).0 ≡ 200)
              ↔ IsAdmitted setup req.password u)
            × ((status (login setup driver ip agent (some req) d).0 ≡ 200)
                ⊎ (status (login setup driver ip agent (some req) d).0 ≡ 401))
            × ((u.active ≡ true)
                ⊎ ((login setup driver ip agent (some req) d).0
                    ≡ rejects 401 (codes "Login failed")))
      checked (ok x) e =
          let w = (check_login_iff setup req.password u).0 e in
          let (a, h) = (login_iff setup req.username req.password ip agent d u f s k).1 w in
          let q = accepted_reply req d a v h in
          let good = ap status q in ((λ _. w, λ _. good), inl good, inl w.0)
      checked (err x) e =
          let g = IsStored-read setup req.username u d f s in
          let q = refused_reply req d u x v g e in
          let bad = ap status q ∙ refused_status x (check_login-IsRefusal req.password u x e) in
          let iff = check_login_iff setup req.password u in
          (
            (λ h. absurd (ground (arith, bad, h)), λ w. absurd (ground (arith, iff.1 w, e))),
            inr bad,
            elim (disabled_error req.password u x e) [
              | inl active ↦ inl active
              | inr h ↦ inr (disabled_reply x (login setup driver ip agent (some req) d).0 h q)
            ],
          )
