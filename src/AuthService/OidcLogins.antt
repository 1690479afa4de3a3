-- ===== src/AuthService/OidcLogins.antt =====
-- Logins with OIDC (AuthService/Oidc).
use mckmt.Base.{
  ℕ, ◌≡◌, refl, subst, true, Option, none, some, List, [], Result, ok, err, Option-cases, arith,
  inl, inr, All,
}
use mckmt.Repo.Store.{find}
use mckmt.Repo.Store.Laws.{find-update_self}
use mckmt.Accounts.{AuthSource, Role, Account, UserRow, Directory, user_key}
use mckmt.Accounts.UserTable
use mckmt.Accounts.UserTable.{clashes, row_of, scan_user, set_user}
use mckmt.Auth.RoleMapper.Targets.{IsOrder, IsKnownName}
use mckmt.AuthService.{OidcUserInfo, Setup, strings_to_roles}
use mckmt.AuthService.Oidc.{
  existing, oidc_account, refreshed_account, subject_id, database_roles, insert_account,
  rewrite_account, create_or_update_user,
}
use mckmt.AuthService.OidcRoles.{database_roles-IsMapped}

module _ (setup : Setup) where
  -- An UPDATE that succeeds.
  rewritten :
      (info : OidcUserInfo) (u a : Account) (d : Directory)
      → (rewrite_account setup info u d).0 ≡ ok a
      → (a ≡ record (refreshed_account info u) { updated_at = setup.env.now d.calls })
        × (r : UserRow) × (find user_key u.id (rewrite_account setup info u d).1.users ≡ some r)
        × (r.active ≡ true)
        × (setup.codec.encode (strings_to_roles info.roles) ≡ some r.roles)
  unfolding rewrite_account UserTable.update_user
  rewritten info u a d h = elim (Option-cases (setup.codec.encode (strings_to_roles info.roles))) [
    | inl e ↦ ground arith
    | inr (names, e) ↦ elim (Option-cases (find user_key u.id d.users)) [
      | inl f ↦ ground arith
      | inr (r, f) ↦
          let v = refreshed_account info u in
          let now = setup.env.now d.calls in
          let r' : UserRow = record r {
            username = v.username;
            email = v.email;
            password_hash = v.password_hash;
            auth_source = v.auth_source;
            roles = names;
            active = v.active;
            updated_at = now;
          } in
          let found =
            find-update_self user_key u.id (set_user v now names) d.users r r'
              (λ x y k. ground arith) f refl in
          (ground arith, r', ground (arith, found), refl, e)
    ]
  ]

  -- What a sign-in makes of an account that was not there, and of one that was.
  abbrev pub IsSigned : OidcUserInfo → Option Account → Account → List UserRow → Type 0
  IsSigned info none a after =
      All (λ r. IsKnownName r.name) a.roles
      × (a.auth_source ≡ AuthSource.oidc)
      × (a.password_hash ≡ [])
      × (a.username ≡ info.email)
      × (a.active ≡ true)
  IsSigned info (some u) a after =
      (a.roles ≡ strings_to_roles info.roles)
      × (a.auth_source ≡ u.auth_source)
      × (a.password_hash ≡ u.password_hash)
      × (a.username ≡ u.username)
      × (a.active ≡ true)
      × (r : UserRow) × (find user_key u.id after ≡ some r)
      × (r.active ≡ true)
      × (setup.codec.encode (strings_to_roles info.roles) ≡ some r.roles)

  -- What the repository knows of the subject.
  abbrev pub known_subject : OidcUserInfo → Directory → Result (Option Account)
  known_subject info d =
      existing (UserTable.get_by_id setup.env setup.codec (subject_id setup info d.calls) d).0

  abbrev pub mapped_subject : OidcUserInfo → Directory → Result (List Role) × Directory
  mapped_subject info d =
      database_roles setup info.roles
        (UserTable.get_by_id setup.env setup.codec (subject_id setup info d.calls) d).1

  inserted :
      (i : ℕ) (info : OidcUserInfo) (roles : List Role) (a : Account) (d : Directory)
      → (insert_account setup i info roles d).0 ≡ ok a
      → a ≡ record (oidc_account i info roles) {
        created_at = setup.env.now d.calls;
        updated_at = setup.env.now d.calls;
      }
  unfolding insert_account
  inserted i info roles a d h = ground arith

  pub create_or_update_mapped :
      (info : OidcUserInfo) (d : Directory) (known : Option Account) (a : Account)
      → known_subject info d ≡ ok known
      → (create_or_update_user setup info d).0 ≡ ok a
      → (roles : List Role) × ((mapped_subject info d).0 ≡ ok roles)
  unfolding create_or_update_user
  create_or_update_mapped info d known a k h = got (mapped_subject info d).0 refl
    where
      got :
          (r : Result (List Role))
          → (mapped_subject info d).0 ≡ r
          → (roles : List Role) × ((mapped_subject info d).0 ≡ ok roles)
      got (ok roles) e = (roles, e)
      got (err x) e = ground arith

  pub create_or_update_writes :
      (info : OidcUserInfo) (d : Directory) (known : Option Account) (roles : List Role)
      → known_subject info d ≡ ok known
      → (mapped_subject info d).0 ≡ ok roles
      → create_or_update_user setup info d ≡ elim known [
        | none ↦
            insert_account setup
              (subject_id setup info d.calls)
              info
              roles
              (mapped_subject info d).1
        | some u ↦ rewrite_account setup info u (mapped_subject info d).1
      ]
  unfolding create_or_update_user
  create_or_update_writes info d known roles k m = ground arith

  -- A sign-in with OIDC that succeeds, in whichever order the mapping visits its map: a new account
  -- gets roles named admin, operator or viewer and no password. An account that was there, disabled
  -- or not, is active afterwards, also in the table, keeps its source, name and password, and has just
  -- the roles that the provider named, as they are.
  pub create_or_update_user-IsSigned :
      (info : OidcUserInfo) (d : Directory) (known : Option Account) (a : Account)
      → IsOrder setup.order
      → known_subject info d ≡ ok known
      → (create_or_update_user setup info d).0 ≡ ok a
      → IsSigned info known a (create_or_update_user setup info d).1.users
  create_or_update_user-IsSigned info d none a o k h =
      let (roles, m) = create_or_update_mapped info d none a k h in
      let w = create_or_update_writes info d none roles k m in
      let i = subject_id setup info d.calls in
      let e = inserted i info roles a (mapped_subject info d).1 (ground arith) in
      let same : roles ≡ a.roles = ground arith in
      let known =
        database_roles-IsMapped setup info.roles (UserTable.get_by_id setup.env setup.codec i d).1
          roles o m in
      (
        subst (All (λ r. IsKnownName r.name)) same known,
        ground arith,
        ground arith,
        ground arith,
        ground arith,
      )
  create_or_update_user-IsSigned info d (some u) a o k h =
      let (roles, m) = create_or_update_mapped info d (some u) a k h in
      let w = create_or_update_writes info d (some u) roles k m in
      let (e, r, found, active, encoded) =
        rewritten info u a (mapped_subject info d).1 (ground arith) in
      (
        ground arith,
        ground arith,
        ground arith,
        ground arith,
        ground arith,
        r,
        ground (arith, found),
        active,
        encoded,
      )
