-- ===== src/AuthService/Register.antt =====
-- Register of internal/auth/service.go.
use mckmt.Base.{ℕ, String, true, List, [], ◌∷◌, Result, ok, err, failed, wrapped, if◌then◌else◌}
use mckmt.Accounts.{AuthSource, Account, D}
use mckmt.Accounts.UserTable
use mckmt.Auth.Password.{validate_password_strength}
use mckmt.Auth.Password.Hash.{Bytes, hash_password}
use mckmt.AuthService.{Setup, log_audit_event, is_not_found, strings_to_roles}

module _ (setup : Setup) where
  -- The account that Register stores.
  abbrev pub new_account : String → String → Bytes → ℕ → Account
  new_account username email hash i = record {
    id = i;
    username = username;
    email = email;
    password_hash = hash;
    auth_source = AuthSource.password;
    active = true;
    created_at = 0;
    updated_at = 0;
    roles = strings_to_roles (setup.default_role ∷ []);
  }

  -- What Register makes of the answer to one of its two queries: the name has to be free.
  abbrev pub free : String → String → Result Account → Result (Unit {0})
  free taken failing (ok _) = err (failed taken)
  free taken failing (err e) = if is_not_found e then ok tt else err (wrapped failing e)

  -- The part of Register behind the two queries. The account of the answer has the times of the
  -- INSERT.
  unfoldable pub store_account : String → String → List ℕ → String → String → D Account
  unfolding log_audit_event
  store_account username email password ip agent d =
      elim (hash_password setup.crypto setup.password_config (setup.salt d.calls) password) [
        | err e ↦ (err (wrapped "failed to hash password" e), d)
        | ok hash ↦
            let now = setup.env.now d.calls in
            let u = new_account username email hash (setup.new_id d.calls) in
            let (r, d₁) = UserTable.create setup.env setup.codec u d in
            elim r [
              | err e ↦ (err (wrapped "failed to create user" e), d₁)
              | ok _ ↦
                  let i = setup.uuid.to_string u.id in
                  (
                    ok (record u { created_at = now; updated_at = now }),
                    log_audit_event setup i "register" "user" i ip agent d₁,
                  )
            ]
      ]

  unfoldable pub register : String → String → List ℕ → String → String → D Account
  unfolding store_account
  register username email password ip agent d = elim (validate_password_strength password) [
    | err e ↦ (err (wrapped "password validation failed" e), d)
    | ok _ ↦
        let (named, d₁) = UserTable.get_by_username setup.env setup.codec username d in
        elim (free "username already exists" "failed to check username" named) [
          | err e ↦ (err e, d₁)
          | ok _ ↦
              let (mailed, d₂) = UserTable.get_by_email setup.env setup.codec email d₁ in
              elim (free "email already exists" "failed to check email" mailed) [
                | err e ↦ (err e, d₂)
                | ok _ ↦ store_account username email password ip agent d₂
              ]
        ]
  ]
