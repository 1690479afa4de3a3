-- ===== src/Http/Accounts.antt =====
-- internal/api/http/auth_handler.go, with the Validate methods of internal/auth/service.go and
-- ToUserDTO of types.go. The address and the agent of the client are arguments. strings.Contains is
-- the search of Auth/RoleMapper, and what a library says behind a message of ours is left out of it.
pub mod Statuses
use mckmt.Base.{
  ℕ, ◌+◌, String, Bool, true, false, ◌||◌, Option, none, some, List, [], ◌∷◌, Result, ok, err,
  Error, codes, list_eq, ltb, if◌then◌else◌,
}
use mckmt.Accounts.{AuthSource, Account, Directory}
use mckmt.Auth.{User}
use mckmt.Auth.RoleMapper.{contains}
use mckmt.AuthService
use mckmt.AuthService.Register
use mckmt.AuthService.Refresh
use mckmt.AuthService.{Setup, LoginResponse, roles_to_strings}
use mckmt.AuthService.Oidc
use mckmt.AuthService.Oidc.{AuthMethod}
use mckmt.Http.{Reply, replies, rejects, Handler, error_text, answer}

-- The requests. A password is given by its code points, as the functions that it is handed to take it.
pub record LoginRequest : Type 0 where
  pub username : String
  pub password : List ℕ

pub record RegisterRequest : Type 0 where
  pub username : String
  pub email : String
  pub password : List ℕ

pub record ChangePasswordRequest : Type 0 where
  pub current_password : List ℕ
  pub new_password : List ℕ

-- len of a text: the bytes of its UTF-8.
abbrev pub byte_size : ℕ → ℕ
byte_size c = if ltb c 128 then 1 else if ltb c 2048 then 2 else if ltb c 65536 then 3 else 4

unfoldable pub byte_length : List ℕ → ℕ
byte_length [] = 0
byte_length (c ∷ cs) = byte_size c + byte_length cs

abbrev pub is_empty : String → Bool
is_empty s = list_eq (codes s) []

-- The message of a request that is refused.
unfoldable pub validate_login : LoginRequest → Option String
validate_login req =
    if is_empty req.username
    then some "username is required"
    else if list_eq req.password []
    then some "password is required"
    else none

unfoldable pub validate_register_request : RegisterRequest → Option String
unfolding byte_length
validate_register_request req =
    let n = byte_length (codes req.username) in
    if is_empty req.username
    then some "username is required"
    else if ltb n 3
    then some "username must be at least 3 characters long"
    else if ltb 50 n
    then some "username must be no more than 50 characters long"
    else if is_empty req.email
    then some "email is required"
    else if list_eq req.password []
    then some "password is required"
    else none

unfoldable pub validate_change_password_request : ChangePasswordRequest → Option String
validate_change_password_request req =
    if list_eq req.current_password []
    then some "current password is required"
    else if list_eq req.new_password []
    then some "new password is required"
    else if list_eq req.current_password req.new_password
    then some "new password must be different from current password"
    else none

unfoldable pub validate_refresh_token : String → Option String
validate_refresh_token token = if is_empty token then some "refresh_token is required" else none

pub record UserDto : Type 0 where
  pub id : String
  pub username : String
  pub email : String
  pub auth_source : AuthSource
  pub roles : List String
  pub active : Bool
  pub created_at : ℕ
  pub updated_at : ℕ

-- The replies to a login and to a registration that failed, by the text of the error.
unfoldable pub login_refusal : {A : Type 0} → List ℕ → Reply A
login_refusal text =
    if contains text (codes "invalid credentials")
      || contains text (codes "user not found")
      || contains text (codes "invalid password")
    then rejects 401 (codes "Invalid credentials")
    else if contains text (codes "account disabled") || contains text (codes "account locked")
    then rejects 403 text
    else rejects 401 (codes "Login failed")

unfoldable pub register_refusal : {A : Type 0} → List ℕ → Reply A
register_refusal text =
    if contains text (codes "already exists")
    then rejects 409 text
    else if contains text (codes "password validation failed")
        || contains text (codes "password must contain")
        || contains text (codes "username")
        || contains text (codes "email")
    then rejects 400 text
    else rejects 500 (codes "Registration failed")

module _ (setup : Setup) (driver : Error → List ℕ) (ip agent : String) where
  unfoldable pub login : Option LoginRequest → Handler Directory LoginResponse
  unfolding login_refusal validate_login error_text
  login none d = (rejects 400 (codes "Invalid request body"), d)
  login (some req) d = elim (validate_login req) [
    | some m ↦ (rejects 400 (codes m), d)
    | none ↦
        let (r, d') = AuthService.login setup req.username req.password ip agent d in
        elim r [ err e ↦ (login_refusal (error_text driver e), d') | ok a ↦ (replies 200 a, d') ]
  ]

  unfoldable pub register : Option RegisterRequest → Handler Directory Account
  unfolding register_refusal validate_register_request error_text
  register none d = (rejects 400 (codes "Invalid request body"), d)
  register (some req) d = elim (validate_register_request req) [
    | some m ↦ (rejects 400 (codes m), d)
    | none ↦
        let (r, d') = Register.register setup req.username req.email req.password ip agent d in
        elim r [ err e ↦ (register_refusal (error_text driver e), d') | ok u ↦ (replies 201 u, d') ]
  ]

  unfoldable pub refresh_token : Option String → Handler Directory (String × String)
  refresh_token none d = (rejects 400 (codes "Invalid request body"), d)
  refresh_token (some token) d = elim (validate_refresh_token token) [
    | some m ↦ (rejects 400 (codes m), d)
    | none ↦
        answer 200 401 (codes "Invalid refresh token")
          (Refresh.refresh_tokens setup token ip agent d)
  ]

  -- The handlers that read the user of the context.
  unfoldable pub logout : Option User → Handler Directory (Unit {0})
  logout none d = (rejects 401 (codes "User not authenticated"), d)
  logout (some user) d =
      answer 200 500 (codes "Logout failed") (Refresh.logout setup user.id ip agent d)

  unfoldable pub change_password :
      Option User → Option ChangePasswordRequest → Handler Directory (Unit {0})
  change_password none body d = (rejects 401 (codes "User not authenticated"), d)
  change_password (some user) none d = (rejects 400 (codes "Invalid request body"), d)
  change_password (some user) (some req) d = elim (validate_change_password_request req) [
    | some m ↦ (rejects 400 (codes m), d)
    | none ↦
        let (r, d') =
          Refresh.change_password setup user.id req.current_password req.new_password ip agent d in
        elim r [ err e ↦ (rejects 400 (error_text driver e), d') | ok _ ↦ (replies 200 tt, d') ]
  ]

  abbrev pub to_user_dto : Account → UserDto
  to_user_dto u = record {
    id = setup.uuid.to_string u.id;
    username = u.username;
    email = u.email;
    auth_source = u.auth_source;
    roles = roles_to_strings u.roles;
    active = u.active;
    created_at = u.created_at;
    updated_at = u.updated_at;
  }

  unfoldable pub get_profile : Option User → Handler Directory UserDto
  get_profile none d = (rejects 401 (codes "User not authenticated"), d)
  get_profile (some user) d =
      let (r, d') = Refresh.get_user_profile setup user.id d in
      elim r [
        | err _ ↦ (rejects 500 (codes "Failed to get profile"), d')
        | ok u ↦ (replies 200 (to_user_dto u), d')
      ]

  abbrev pub get_auth_methods : Handler Directory (List AuthMethod)
  get_auth_methods d = (replies 200 (Oidc.get_available_auth_methods setup), d)

  -- The body of the redirect is its target.
  unfoldable pub oidc_login : Handler Directory String
  oidc_login d =
      answer 302 500 (codes "Failed to initiate OIDC login")
        (Oidc.oidc_initiate_login setup ip agent d)

  unfoldable pub oidc_callback : String → String → Handler Directory LoginResponse
  oidc_callback code state d =
      if is_empty code
      then (rejects 400 (codes "Authorization code is required"), d)
      else answer 200 400 (codes "OIDC authentication failed")
          (Oidc.oidc_callback setup code state ip agent d)

  unfoldable pub oidc_logout : Option User → Handler Directory String
  oidc_logout none d = (rejects 401 (codes "User not authenticated"), d)
  oidc_logout (some user) d =
      answer 200 500 (codes "OIDC logout failed") (Oidc.oidc_logout setup user.id ip agent d)
