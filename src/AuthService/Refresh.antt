-- ===== src/AuthService/Refresh.antt =====
-- RefreshToken, Logout, ChangePassword and GetUserProfile of internal/auth/service.go.
use mckmt.Base.{ℕ, String, not, none, some, List, ok, err, failed, wrapped, if◌then◌else◌}
use mckmt.Accounts.{Account, D}
use mckmt.Accounts.UserTable
use mckmt.Auth.Password.{validate_password_strength}
use mckmt.Auth.Tokens.{validate_token}
use mckmt.AuthService.{Setup, two_tokens, log_audit_event, equals_not_found}

module _ (setup : Setup) where
  -- uuid.Parse and GetByID of RefreshToken, ChangePassword and GetUserProfile; `invalid` is the
  -- message for a text that is no id.
  unfoldable pub find_account : String → String → D Account
  find_account invalid key d = elim (setup.uuid.parse key) [
    | none ↦ (err (failed invalid), d)
    | some i ↦
        let (r, d₁) = UserTable.get_by_id setup.env setup.codec i d in
        elim r [
          | ok u ↦ (ok u, d₁)
          | err e ↦ (
            err (
                if equals_not_found e
                then failed "newUser not found"
                else wrapped "failed to get newUser" e),
            d₁,
          )
        ]
  ]

  unfoldable pub refresh_tokens : String → String → String → D (String × String)
  unfolding find_account log_audit_event
  refresh_tokens token ip agent d =
      elim (validate_token setup.jwt setup.manager (setup.env.now d.calls) token) [
        | err e ↦ (err (wrapped "invalid refresh token" e), d)
        | ok claims ↦
            let (r, d₁) = find_account "invalid newUser ID in token" claims.id d in
            elim r [
              | err e ↦ (err e, d₁)
              | ok u ↦
                  if not u.active
                  then (err (failed "account is disabled"), d₁)
                  else elim (two_tokens setup u d₁.calls) [
                    | err e ↦ (err e, d₁)
                    | ok tokens ↦
                        let i = setup.uuid.to_string u.id in
                        (ok tokens, log_audit_event setup i "refresh_token" "newUser" i ip agent d₁)
                  ]
            ]
      ]

  unfoldable pub logout : String → String → String → D (Unit {0})
  unfolding log_audit_event
  logout key ip agent d = (ok tt, log_audit_event setup key "logout" "newUser" key ip agent d)

  -- Neither the current password nor the new one is used any further.
  unfoldable pub change_password : String → List ℕ → List ℕ → String → String → D (Unit {0})
  unfolding find_account log_audit_event
  change_password key current new ip agent d =
      let (r, d₁) = find_account "invalid newUser ID" key d in
      elim r [
        | err e ↦ (err e, d₁)
        | ok _ ↦ elim (validate_password_strength new) [
          | err e ↦ (err (wrapped "password validation failed" e), d₁)
          | ok _ ↦ (ok tt, log_audit_event setup key "change_password" "newUser" key ip agent d₁)
        ]
      ]

  unfoldable pub get_user_profile : String → D Account
  unfolding find_account
  get_user_profile = find_account "invalid newUser ID"
