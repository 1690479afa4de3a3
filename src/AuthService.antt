-- ===== src/AuthService.antt =====
-- internal/auth/service.go: the service of the accounts; Register, Refresh and Oidc have the methods
-- behind Login. Logging is left out, but for the audit log.
pub mod Register
pub mod Refresh
pub mod Oidc
pub mod Logins
pub mod Sessions
pub mod Registration
pub mod OidcRoles
pub mod OidcLogins
pub mod OidcSubjects
use mckmt.Base.{
  ℕ, ◌+◌, String, Bool, true, false, not, Option, none, some, List, [], ◌∷◌, map, Result, ok, err,
  Error, not_found, failed, wrapped, if◌then◌else◌, list_eq,
}
use mckmt.Repo.Store.{Env}
use mckmt.Accounts.{AuthSource, Role, Account, AuditLog, Directory, D, RolesCodec}
use mckmt.Accounts.UserTable
use mckmt.Accounts.AuditTable
use mckmt.AgentServer.State.{Uuid}
use mckmt.Auth.{User}
use mckmt.Auth.Password.{validate_password_strength}
use mckmt.Auth.Password.Hash.{Bytes, PasswordConfig, Crypto, hash_password, verify_password}
use mckmt.Auth.RoleMapper.{Mappings}
use mckmt.Auth.Tokens.{Jwt, JwtManager, generate_token, validate_token}

-- The fields of OIDCUserInfo that the service reads, and the provider: ExchangeCode,
-- ValidateIDToken, GetAuthURL and GetLogoutURL without a redirect.
pub record OidcUserInfo : Type 0 where
  pub subject : String
  pub email : String
  pub roles : List String

pub record OidcProvider : Type 0 where
  pub exchange_code : String → Result String
  pub validate_id_token : String → Result OidcUserInfo
  pub auth_url : String → String
  pub logout_url : String

-- The service with what it stands on. The functions of a number give what the random source, or the
-- visit of a map, gives at the n-th call to the database.
pub record Setup : Type 0 where
  pub env : Env
  pub codec : RolesCodec
  pub sort_roles : List Role → List Role
  pub order : ℕ → Mappings
  pub uuid : Uuid
  pub new_id : ℕ → ℕ
  pub token_ids : ℕ → ℕ × ℕ
  pub salt : ℕ → Option Bytes
  pub oidc_state : ℕ → Option String
  pub jwt : Jwt
  pub manager : JwtManager
  pub crypto : Crypto
  pub password_config : PasswordConfig
  pub oidc : Option OidcProvider
  pub default_role : String
  pub audited : Bool

-- rolesToStrings and stringsToRoles; a role that is made of a name has the zero id.
abbrev pub role_name : Role → String
role_name r = r.name

abbrev pub roles_to_strings : List Role → List String
roles_to_strings = map role_name

abbrev pub named_role : String → Role
named_role n = record { id = 0; name = n }

abbrev pub strings_to_roles : List String → List Role
strings_to_roles = map named_role

-- errors.Is(err, repo.ErrNotFound), and err == repo.ErrNotFound
abbrev pub is_not_found : Error → Bool
is_not_found not_found = true
is_not_found (wrapped _ e) = is_not_found e
is_not_found _ = false

abbrev pub equals_not_found : Error → Bool
equals_not_found not_found = true
equals_not_found _ = false

abbrev is_oidc : AuthSource → Bool
is_oidc AuthSource.oidc = true
is_oidc _ = false

-- The tokens and the user of a LoginResponse; the `TokenType` is always "Bearer".
pub record LoginResponse : Type 0 where
  pub access_token : String
  pub refresh_token : String
  pub expires_at : ℕ
  pub user : Account

module _ (setup : Setup) where
  -- The claims for an account.
  abbrev pub identity : Account → User
  identity u = record {
    id = setup.uuid.to_string u.id;
    username = u.username;
    email = u.email;
    roles = roles_to_strings u.roles;
  }

  -- The end of Login, RefreshToken and OIDCCallback, behind n calls to the database: two tokens.
  abbrev pub two_tokens : Account → ℕ → Result (String × String)
  two_tokens u n =
      let (i, j) = setup.token_ids n in
      let now = setup.env.now n in
      elim (generate_token setup.jwt setup.manager (setup.uuid.to_string i) (identity u) now) [
        | err e ↦ err (wrapped "failed to generate access token" e)
        | ok access ↦
            elim (generate_token setup.jwt setup.manager (setup.uuid.to_string j) (identity u)
              now) [
                | err e ↦ err (wrapped "failed to generate refresh token" e)
                | ok refresh ↦ ok (access, refresh)
              ]
      ]

  unfoldable pub log_audit_event :
      String → String → String → String → String → String → Directory → Directory
  log_audit_event user action kind i ip agent d =
      let log : AuditLog = record {
        user_id = user;
        action = action;
        resource_type = kind;
        resource_id = i;
        ip_address = ip;
        user_agent = agent;
        created_at = setup.env.now d.calls;
      } in
      if setup.audited then (AuditTable.create setup.env log d).1 else d

  -- The checks of Login behind the query.
  unfoldable pub check_login : List ℕ → Account → Result (Unit {0})
  check_login password u =
      if not u.active
      then err (failed "account is disabled")
      else if is_oidc u.auth_source
      then err (failed "this user must authenticate via OIDC")
      else if list_eq u.password_hash []
      then err (failed "password authentication not available for this user")
      else elim (verify_password setup.crypto setup.password_config password u.password_hash) [
        | err _ ↦ err (failed "password verification failed")
        | ok true ↦ ok tt
        | ok false ↦ err (failed "invalid credentials")
      ]

  unfoldable pub login : String → List ℕ → String → String → D LoginResponse
  unfolding check_login log_audit_event
  login username password ip agent d =
      let (r, d₁) = UserTable.get_by_username setup.env setup.codec username d in
      elim r [
        | err e ↦ (
          err (
              if is_not_found e
              then failed "invalid credentials"
              else wrapped "failed to get newUser" e),
          d₁,
        )
        | ok u ↦ elim (check_login password u) [
          | err e ↦ (err e, d₁)
          | ok _ ↦ elim (two_tokens u d₁.calls) [
            | err e ↦ (err e, d₁)
            | ok (access, refresh) ↦
                let i = setup.uuid.to_string u.id in
                let shown : Account = record {
                  id = u.id;
                  username = u.username;
                  email = u.email;
                  password_hash = [];
                  auth_source = AuthSource.other "";
                  active = false;
                  created_at = 0;
                  updated_at = 0;
                  roles = u.roles;
                } in
                (
                  ok record {
                    access_token = access;
                    refresh_token = refresh;
                    expires_at = setup.env.now d₁.calls + setup.manager.token_duration;
                    user = shown;
                  },
                  log_audit_event i "login" "newUser" i ip agent d₁,
                )
          ]
        ]
      ]
