-- ===== src/AuthService/Registration.antt =====
-- Register of the service of the accounts (AuthService), and the login after it.
use mckmt.Base.{
  ℕ, ◌+◌, ◌≡◌, refl, sym, subst, ◌≢◌, String, false, Option, none, some, List, [], ◌∷◌, Result, ok,
  err, Option-cases, arith, inl, inr, any, str_eq_iff,
}
use mckmt.Accounts.{Role, Account, UserRow, Directory}
use mckmt.Accounts.AuditTable
use mckmt.Accounts.UserTable
use mckmt.Accounts.UserTable.{by_username, clashes, row_of, scan_user}
use mckmt.Accounts.Uniqueness.{IsUnique}
use mckmt.Auth.Password.{validate_password_strength}
use mckmt.Auth.Password.Hash.{Bytes, hash_password}
use mckmt.Auth.Password.Roundtrip.{IsCrypto, Fits, verify-hash}
use mckmt.Auth.Tokens.{Claims}
use mckmt.AuthService.{Setup, LoginResponse, strings_to_roles, log_audit_event, login}
use mckmt.AuthService.Register.{new_account, free, store_account, register}
use mckmt.AuthService.Logins.{IsAdmitted, IsStored, login_iff}

module _ (setup : Setup) where
  abbrev default_roles : List Role
  default_roles = strings_to_roles (setup.default_role ∷ [])

  -- What a registration writes when the program has made some calls.
  abbrev pub IsWritten : String → String → List ℕ → ℕ → List UserRow → List UserRow → Type 0
  IsWritten username email password n before after =
      (h : Bytes) × (names : List String) × (hash_password setup.crypto setup.password_config
          (setup.salt n) password
        ≡ ok h)
      × (setup.codec.encode default_roles ≡ some names)
      × (any
            (clashes (
              row_of (new_account setup username email h (setup.new_id n)) (setup.env.now n)
                (setup.env.now n) names))
            before
          ≡ false)
      × (after
          ≡ row_of (new_account setup username email h (setup.new_id n)) (setup.env.now n)
              (setup.env.now n) names
            ∷ before)

  stored :
      (username email : String) (password : List ℕ) (ip agent : String) (d : Directory)
      (u : Account)
      → (store_account setup username email password ip agent d).0 ≡ ok u
      → IsWritten username email password d.calls d.users
          (store_account setup username email password ip agent d).1.users
  unfolding store_account UserTable.create log_audit_event AuditTable.create
  stored username email password ip agent d u h =
      elim (Option-cases (setup.codec.encode default_roles)) [
        | inl e ↦ ground arith
        | inr (names, e) ↦
            hashed names e
              (hash_password setup.crypto setup.password_config (setup.salt d.calls) password) refl
      ]
    where
      hashed :
          (names : List String)
          → setup.codec.encode default_roles ≡ some names
          → (r : Result Bytes)
          → hash_password setup.crypto setup.password_config (setup.salt d.calls) password ≡ r
          → IsWritten username email password d.calls d.users
              (store_account setup username email password ip agent d).1.users
      hashed names e (err k) q = ground arith
      hashed names e (ok b) q = (b, names, q, e, ground arith, ground arith)

  -- The state before the INSERT.
  abbrev queried : String → String → Directory → Directory
  queried username email d =
      (UserTable.get_by_email setup.env setup.codec email
        (UserTable.get_by_username setup.env setup.codec username d).1).1

  queried_calls :
      (username email : String) (d : Directory) → (queried username email d).calls ≡ d.calls + 2
  unfolding UserTable.get_by_email UserTable.get_by_username
  queried_calls username email d = ground arith

  queried_users :
      (username email : String) (d : Directory) → (queried username email d).users ≡ d.users
  unfolding UserTable.get_by_email UserTable.get_by_username
  queried_users username email d = ground arith

  -- A registration that succeeds is the part behind the two queries.
  register_stores :
      (username email : String) (password : List ℕ) (ip agent : String) (d : Directory)
      (u : Account)
      → (register setup username email password ip agent d).0 ≡ ok u
      → register setup username email password ip agent d
        ≡ store_account setup username email password ip agent (queried username email d)
  unfolding register
  register_stores username email password ip agent d u h = ground arith

  registered :
      (username email : String) (password : List ℕ) (ip agent : String) (d : Directory)
      (u : Account)
      → (register setup username email password ip agent d).0 ≡ ok u
      → IsWritten username email password
          (d.calls + 2)
          d.users
          (register setup username email password ip agent d).1.users
  registered username email password ip agent d u h =
      let s = register_stores username email password ip agent d u h in
      let q = queried username email d in
      let after = (store_account setup username email password ip agent q).1.users in
      let v = stored username email password ip agent q u (ground arith) in
      subst (λ r. IsWritten username email password (d.calls + 2) d.users r.1.users) (sym s)
        (subst (λ n. IsWritten username email password n d.users after)
          (queried_calls username email d)
          (subst (λ us. IsWritten username email password q.calls us after)
            (queried_users username email d) v))

  register_strong :
      (username email : String) (password : List ℕ) (ip agent : String) (d : Directory)
      (u : Account)
      → (register setup username email password ip agent d).0 ≡ ok u
      → validate_password_strength password ≡ ok tt
  unfolding register
  register_strong username email password ip agent d u h = ground arith

  -- What a registration that succeeds stores: one row more, with a hash of the password and the default
  -- role, that shares no id, username or email with another; so no two rows share one afterwards if
  -- none did before.
  pub register-IsWritten :
      (username email : String) (password : List ℕ) (ip agent : String) (d : Directory)
      (u : Account)
      → IsUnique d.users
      → (register setup username email password ip agent d).0 ≡ ok u
      → IsWritten username email password
          (d.calls + 2)
          d.users
          (register setup username email password ip agent d).1.users
        × IsUnique (register setup username email password ip agent d).1.users
        × (validate_password_strength password ≡ ok tt)
  register-IsWritten username email password ip agent d u v h =
      let w = registered username email password ip agent d u h in
      (w, kept w, register_strong username email password ip agent d u h)
    where
      kept :
          IsWritten username email password
            (d.calls + 2)
            d.users
            (register setup username email password ip agent d).1.users
          → IsUnique (register setup username email password ip agent d).1.users
      kept (b, names, q, e, free, same) = subst IsUnique (sym same) (free, v)

  hash_starts :
      (salt : Option Bytes) (password : List ℕ) (b : Bytes)
      → hash_password setup.crypto setup.password_config salt password ≡ ok b
      → (s : Bytes) × (hash_password setup.crypto setup.password_config (some s) password ≡ ok b)
        × (b ≢ [])
  unfolding hash_password
  hash_starts none password b h = ground arith
  hash_starts (some s) password b h = (s, h, ground arith)

  -- The row of a registration admits its password, and the repository reads it.
  written-IsAdmitted :
      (username email : String) (password : List ℕ) (n : ℕ) (before : List UserRow) (d : Directory)
      → IsCrypto setup.crypto
      → Fits setup.password_config
      → ((names : List String)
          → setup.codec.encode default_roles ≡ some names
          → setup.codec.decode names ≢ none)
      → IsWritten username email password n before d.users
      → (a : Account) × IsStored setup username a d × IsAdmitted setup password a
  unfolding by_username
  written-IsAdmitted username email password n before d doc bounds reads
        (b, names, q, e, free, same) =
      let u = new_account setup username email b (setup.new_id n) in
      let r = row_of u (setup.env.now n) (setup.env.now n) names in
      let (s, salted, nonempty) = hash_starts (setup.salt n) password b q in
      let good =
        verify-hash setup.crypto doc setup.password_config bounds s password b password salted in
      let first : by_username username (r ∷ before) ≡ some r =
        ground (arith, str_eq_iff username username) in
      elim (Option-cases (setup.codec.decode names)) [
        | inl f ↦ absurd (reads names e f)
        | inr (roles, f) ↦ (
          record u { roles = roles; created_at = setup.env.now n; updated_at = setup.env.now n },
          (r, rw same first, ground arith),
          (refl, ground arith, nonempty, good.1),
        )
      ]

  -- Register and Login agree: for a salt source, an Argon2, a base64 and a driver that do what they
  -- document, a configuration whose numbers fit and a library that signs, an account that was
  -- registered can log in at once with its username and its password.
  pub login-register :
      (username email : String) (password : List ℕ) (ip agent ip' agent' : String) (d : Directory)
      (u : Account)
      → IsCrypto setup.crypto
      → Fits setup.password_config
      → ((names : List String)
          → setup.codec.encode default_roles ≡ some names
          → setup.codec.decode names ≢ none)
      → ((c : Claims) → setup.jwt.sign setup.manager.secret_key c ≢ none)
      → (register setup username email password ip agent d).0 ≡ ok u
      → setup.env.fails (register setup username email password ip agent d).1.calls ≡ false
      → (a : LoginResponse) × ((login setup username password ip' agent'
            (register setup username email password ip agent d).1).0
          ≡ ok a)
  login-register username email password ip agent ip' agent' d u doc bounds reads signs h f =
      let d' = (register setup username email password ip agent d).1 in
      let w = registered username email password ip agent d u h in
      let (a, v, admitted) =
        written-IsAdmitted username email password (d.calls + 2) d.users d' doc bounds reads w in
      (login_iff setup username password ip' agent' d' a f v signs).1 admitted
