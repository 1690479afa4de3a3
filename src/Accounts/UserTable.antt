-- ===== src/Accounts/UserTable.antt =====
-- internal/repo/postgres/user_repository.go.
use mckmt.Base.{
  ℕ, String, Bool, not, ◌&&◌, ◌||◌, Option, none, some, List, [], ◌∷◌, Result, ok, err, not_found,
  constraint_violated, scan_failed, wrapped, ◌==◌, str_eq, if◌then◌else◌, any, filter, page,
  latest_first,
}
use mckmt.Repo.Store.{Env, find, update, remove}
use mckmt.Accounts.{Account, UserRow, Directory, D, call, RolesCodec, user_key}

-- WHERE username = $1, WHERE email = $1
unfoldable pub by_username : String → List UserRow → Option UserRow
by_username n [] = none
by_username n (r ∷ rs) = if str_eq r.username n then some r else by_username n rs

unfoldable pub by_email : String → List UserRow → Option UserRow
by_email e [] = none
by_email e (r ∷ rs) = if str_eq r.email e then some r else by_email e rs

-- UNIQUE (username) and UNIQUE (email), and the primary key.
abbrev pub same_name : UserRow → UserRow → Bool
same_name a b = str_eq a.username b.username || str_eq a.email b.email

abbrev pub clashes : UserRow → UserRow → Bool
clashes a b = (a.id == b.id) || same_name a b

-- utils.ErrGet, utils.ErrCreate, utils.ErrUpdate around an error of the driver
abbrev pub wrapping : {A : Type 0} → String → Result A × Directory → Result A × Directory
wrapping what (ok a, d) = (ok a, d)
wrapping what (err e, d) = (err (wrapped what e), d)

-- RowsAffected of an UPDATE or a DELETE
abbrev pub need_user : String → Result ℕ × Directory → Result (Unit {0}) × Directory
need_user what (ok n, d) = (if n == 0 then err not_found else ok tt, d)
need_user what (err e, d) = (err (wrapped what e), d)

-- The row that an account is written to.
abbrev pub row_of : Account → ℕ → ℕ → List String → UserRow
row_of u created updated names = record {
  id = u.id;
  username = u.username;
  email = u.email;
  password_hash = u.password_hash;
  auth_source = u.auth_source;
  active = u.active;
  created_at = created;
  updated_at = updated;
  roles = names;
}

-- The SET of the UPDATE.
abbrev pub set_user : Account → ℕ → List String → UserRow → Option UserRow
set_user u now names r = some (record r {
  username = u.username;
  email = u.email;
  password_hash = u.password_hash;
  auth_source = u.auth_source;
  roles = names;
  active = u.active;
  updated_at = now;
})

module _ (env : Env) (codec : RolesCodec) where
  -- The Scan of a row.
  abbrev pub scan_user : UserRow → Result Account
  scan_user r = elim (codec.decode r.roles) [
    | none ↦ err scan_failed
    | some roles ↦ ok record {
      id = r.id;
      username = r.username;
      email = r.email;
      password_hash = r.password_hash;
      auth_source = r.auth_source;
      active = r.active;
      created_at = r.created_at;
      updated_at = r.updated_at;
      roles = roles;
    }
  ]

  -- QueryRow of the three Get methods: a query without a row is ErrNotFound.
  abbrev read_user : (List UserRow → Option UserRow) → D Account
  read_user pick d =
      let (found, d') = call env (λ d'. (ok (pick d'.users), d')) d in
      elim found [
        | err e ↦ (err (wrapped "failed to get user" e), d')
        | ok none ↦ (err not_found, d')
        | ok (some r) ↦ wrapping "failed to get user" (scan_user r, d')
      ]

  unfoldable pub get_by_id : ℕ → D Account
  get_by_id i = read_user (find user_key i)

  unfoldable pub get_by_username : String → D Account
  get_by_username n = read_user (by_username n)

  unfoldable pub get_by_email : String → D Account
  get_by_email e = read_user (by_email e)

  unfoldable pub create : Account → D (Unit {0})
  create u d =
      let now = env.now d.calls in
      wrapping "failed to create user" (
        call env
          (λ d'. elim (codec.encode u.roles) [
            | none ↦ (err scan_failed, d')
            | some names ↦
                let row = row_of u now now names in
                if any (clashes row) d'.users
                then (err constraint_violated, d')
                else (ok tt, record d' { users = row ∷ d'.users })
          ])
          d)

  unfoldable pub scan_users : List UserRow → Result (List Account)
  scan_users [] = ok []
  scan_users (r ∷ rs) =
      let rest = scan_users rs in
      elim (scan_user r) [
        | err e ↦ err (wrapped "failed to get user" e)
        | ok u ↦ elim rest [ err e ↦ err e | ok us ↦ ok (u ∷ us) ]
      ]

  unfoldable pub list : ℕ → ℕ → D (List Account)
  unfolding scan_users
  list limit offset d =
      let (found, d') =
        call env
          (λ d'.
            (ok (page limit offset (latest_first (λ (r : UserRow). r.created_at) d'.users)), d'))
          d in
      elim found [
        | err e ↦ (err (wrapped "failed to get users" e), d')
        | ok rows ↦ (scan_users rows, d')
      ]

  unfoldable pub update_user : Account → D (Unit {0})
  update_user u d =
      let now = env.now d.calls in
      need_user "failed to update user" (
        call env
          (λ d'. elim (codec.encode u.roles) [
            | none ↦ (err scan_failed, d')
            | some names ↦ elim (find user_key u.id d'.users) [
              | none ↦ (ok 0, d')
              | some r ↦
                  let row = row_of u r.created_at now names in
                  if any (λ q. not (q.id == u.id) && same_name row q) d'.users
                  then (err constraint_violated, d')
                  else (
                    ok 1,
                    record d' { users = update user_key u.id (set_user u now names) d'.users },
                  )
            ]
          ])
          d)

  -- The foreign key of `user_roles` deletes the rows of the user.
  unfoldable pub delete : ℕ → D (Unit {0})
  delete i d = need_user "failed to update user" (
      call env
        (λ d'. elim (find user_key i d'.users) [
          | none ↦ (ok 0, d')
          | some _ ↦ (
            ok 1,
            record d' {
              users = remove user_key i d'.users;
              grants = record d'.grants {
                user_roles = filter (λ ur. not (ur.0 == i)) d'.grants.user_roles;
              };
            },
          )
        ])
        d)
