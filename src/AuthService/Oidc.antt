-- ===== src/AuthService/Oidc.antt =====
-- The OIDC operations of internal/auth/service.go.
use mckmt.Base.{
  ℕ, ◌+◌, String, true, Option, none, some, List, [], ◌∷◌, ◌++◌, Result, ok, err, failed, wrapped,
  if◌then◌else◌,
}
use mckmt.Accounts.{AuthSource, Role, Account, D}
use mckmt.Accounts.UserTable
use mckmt.Auth.RoleMapper.{map_oidc_roles}
use mckmt.AuthService.{
  OidcUserInfo, Setup, strings_to_roles, equals_not_found, LoginResponse, two_tokens,
  log_audit_event,
}

-- The fields of an AuthMethod that tell the methods apart; each one is enabled.
pub record AuthMethod : Type 0 where
  pub kind : String
  pub url : String

-- An account that is there, or ErrNotFound.
abbrev pub existing : Result Account → Result (Option Account)
existing (ok u) = ok (some u)
existing (err e) =
    if equals_not_found e then ok none else err (wrapped "failed to check existing newUser" e)

-- The account for a user whom the provider names for the first time.
abbrev pub oidc_account : ℕ → OidcUserInfo → List Role → Account
oidc_account i info roles = record {
  id = i;
  username = info.email;
  email = info.email;
  password_hash = [];
  auth_source = AuthSource.oidc;
  active = true;
  created_at = 0;
  updated_at = 0;
  roles = roles;
}

-- The changes to an account that is there.
abbrev pub refreshed_account : OidcUserInfo → Account → Account
refreshed_account info u = record u {
  email = info.email;
  roles = strings_to_roles info.roles;
  active = true;
}

module _ (setup : Setup) where
  abbrev pub subject_id : OidcUserInfo → ℕ → ℕ
  subject_id info calls = elim (setup.uuid.parse info.subject) [
    | some i ↦ i
    | none ↦ setup.new_id calls
  ]

  -- The mapping of the roles, and the default role where it fails.
  unfoldable pub database_roles : List String → D (List Role)
  database_roles roles d =
      let (r, d₁) = map_oidc_roles setup.env setup.sort_roles setup.order roles d in
      elim r [
        | ok found ↦ (ok found, d₁)
        | err _ ↦
            let (r', d₂) =
              map_oidc_roles setup.env setup.sort_roles setup.order (setup.default_role ∷ []) d₁ in
            elim r' [
              | ok found ↦ (ok found, d₂)
              | err e ↦ (err (wrapped "failed to get default role" e), d₂)
            ]
      ]

  -- The writes: the repository sets the times of the account.
  unfoldable pub insert_account : ℕ → OidcUserInfo → List Role → D Account
  insert_account i info roles d =
      let now = setup.env.now d.calls in
      let u = oidc_account i info roles in
      let (r, d₁) = UserTable.create setup.env setup.codec u d in
      elim r [
        | err e ↦ (err (wrapped "failed to create user" e), d₁)
        | ok _ ↦ (ok (record u { created_at = now; updated_at = now }), d₁)
      ]

  unfoldable pub rewrite_account : OidcUserInfo → Account → D Account
  rewrite_account info u d =
      let now = setup.env.now d.calls in
      let (r, d₁) = UserTable.update_user setup.env setup.codec (refreshed_account info u) d in
      elim r [
        | err e ↦ (err (wrapped "failed to update user" e), d₁)
        | ok _ ↦ (ok (record (refreshed_account info u) { updated_at = now }), d₁)
      ]

  unfoldable pub create_or_update_user : OidcUserInfo → D Account
  unfolding database_roles insert_account rewrite_account
  create_or_update_user info d =
      let i = subject_id info d.calls in
      let (r, d₁) = UserTable.get_by_id setup.env setup.codec i d in
      elim (existing r) [
        | err e ↦ (err e, d₁)
        | ok known ↦
            let (mapped, d₂) = database_roles info.roles d₁ in
            elim mapped [
              | err e ↦ (err e, d₂)
              | ok roles ↦ elim known [
                | none ↦ insert_account i info roles d₂
                | some u ↦ rewrite_account info u d₂
              ]
            ]
      ]

  unfoldable pub oidc_initiate_login : String → String → D String
  oidc_initiate_login ip agent d = elim setup.oidc [
    | none ↦ (err (failed "OIDC service not configured"), d)
    | some provider ↦ elim (setup.oidc_state d.calls) [
      | none ↦ (err (failed "failed to generate state"), d)
      | some state ↦ (
        ok (provider.auth_url state),
        log_audit_event setup "system" "oidc_login_initiated" "auth" "oidc" ip agent d,
      )
    ]
  ]

  -- The end of OIDCCallback.
  unfoldable pub oidc_login : OidcUserInfo → String → String → D LoginResponse
  unfolding create_or_update_user
  oidc_login info ip agent d =
      let (r, d₁) = create_or_update_user info d in
      elim r [
        | err e ↦ (err (wrapped "failed to create/update newUser" e), d₁)
        | ok u ↦ elim (two_tokens setup u d₁.calls) [
          | err e ↦ (err e, d₁)
          | ok (access, refresh) ↦
              let i = setup.uuid.to_string u.id in
              (
                ok record {
                  access_token = access;
                  refresh_token = refresh;
                  expires_at = setup.env.now d₁.calls + setup.manager.token_duration;
                  user = u;
                },
                log_audit_event setup i "oidc_login_success" "user" i ip agent d₁,
              )
        ]
      ]

  -- The code and the state that the provider sends back; the state is not read.
  unfoldable pub oidc_callback : String → String → String → String → D LoginResponse
  unfolding oidc_login
  oidc_callback code state ip agent d = elim setup.oidc [
    | none ↦ (err (failed "OIDC service not configured"), d)
    | some provider ↦ elim (provider.exchange_code code) [
      | err e ↦ (err (wrapped "failed to exchange code for token" e), d)
      | ok token ↦ elim (provider.validate_id_token token) [
        | err e ↦ (err (wrapped "failed to validate ID token" e), d)
        | ok info ↦ oidc_login info ip agent d
      ]
    ]
  ]

  abbrev pub get_available_auth_methods : List AuthMethod
  get_available_auth_methods =
      (record { kind = "password"; url = "/api/v1/auth/login" } ∷ []) ++ elim setup.oidc [
        | none ↦ []
        | some _ ↦ record { kind = "oidc"; url = "/api/v1/auth/oidc/login" } ∷ []
      ]

  unfoldable pub oidc_logout : String → String → String → D String
  oidc_logout key ip agent d = elim setup.oidc [
    | none ↦ (err (failed "OIDC service not configured"), d)
    | some provider ↦
        (ok (provider.logout_url), log_audit_event setup key "oidc_logout" "newUser" key ip agent d)
  ]
