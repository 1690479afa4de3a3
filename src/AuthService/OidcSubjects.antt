-- ===== src/AuthService/OidcSubjects.antt =====
-- Logins with OIDC whose subject is no UUID (AuthService/Oidc).
use mckmt.Base.{
  ℕ, ◌≡◌, ◌≢◌, true, false, none, List, [], ◌∷◌, ok, Option-cases, Bool-cases, arith, inl, inr, any,
  str_eq, str_eq_iff,
}
use mckmt.Repo.Store.{find}
use mckmt.Accounts.{Role, Account, UserRow, Directory, user_key}
use mckmt.Accounts.UserTable
use mckmt.Accounts.UserTable.{clashes, row_of, scan_user, set_user}
use mckmt.AuthService.{OidcUserInfo, Setup}
use mckmt.AuthService.Oidc.{oidc_account, subject_id, insert_account, create_or_update_user}
use mckmt.AuthService.OidcRoles.{database_roles-users}
use mckmt.AuthService.OidcLogins.{
  known_subject, mapped_subject, create_or_update_mapped, create_or_update_writes,
}

module _ (setup : Setup) where
  -- A sign-in for a subject that is no UUID and an email that some account has.
  any_email :
      (info : OidcUserInfo) (row : UserRow) (us : List UserRow)
      → row.email ≡ info.email
      → any (λ r. str_eq r.email info.email) us ≡ true
      → any (clashes row) us ≡ true
  any_email info row [] e h = ground arith
  any_email info row (r ∷ us) e h =
      ground (
        arith,
        any_email info row us e,
        str_eq_iff row.email r.email,
        str_eq_iff r.email info.email,
      )

  insert_refused :
      (i : ℕ) (info : OidcUserInfo) (roles : List Role) (a : Account) (d : Directory)
      → any (λ r. str_eq r.email info.email) d.users ≡ true
      → (insert_account setup i info roles d).0 ≢ ok a
  unfolding insert_account UserTable.create
  insert_refused i info roles a d h = elim (Option-cases (setup.codec.encode roles)) [
    | inl e ↦ ground arith
    | inr (names, e) ↦ ground (
      arith,
      any_email info
          (row_of (oidc_account i info roles) (setup.env.now d.calls) (setup.env.now d.calls) names)
          d.users,
    )
  ]

  unknown_subject :
      (info : OidcUserInfo) (d : Directory) (a : Account)
      → setup.uuid.parse info.subject ≡ none
      → find user_key (setup.new_id d.calls) d.users ≡ none
      → (create_or_update_user setup info d).0 ≡ ok a
      → known_subject setup info d ≡ ok none
  unfolding create_or_update_user UserTable.get_by_id
  unknown_subject info d a p f h = ground arith

  mapped_subject-users :
      (info : OidcUserInfo) (d : Directory) → (mapped_subject setup info d).1.users ≡ d.users
  unfolding UserTable.get_by_id
  mapped_subject-users info d = ground (
    arith,
    database_roles-users setup info.roles
        (UserTable.get_by_id setup.env setup.codec (subject_id setup info d.calls) d).1,
  )

  inserted_email :
      (i : ℕ) (info : OidcUserInfo) (roles : List Role) (a : Account) (d : Directory)
      → (insert_account setup i info roles d).0 ≡ ok a
      → any (λ r. str_eq r.email info.email) (insert_account setup i info roles d).1.users ≡ true
  unfolding insert_account UserTable.create
  inserted_email i info roles a d h = ground (arith, str_eq_iff info.email info.email)

  -- For a subject that is no UUID, where the random ids are new: where an account has the email of the
  -- user, no sign-in succeeds; and the first sign-in that succeeds makes such an account, so the next
  -- one fails.
  pub unknown_subject-signs_once :
      (info : OidcUserInfo) (d : Directory) (a b : Account)
      → setup.uuid.parse info.subject ≡ none
      → find user_key (setup.new_id d.calls) d.users ≡ none
      → (create_or_update_user setup info d).0 ≡ ok a
      → find user_key
          (setup.new_id (create_or_update_user setup info d).1.calls)
          (create_or_update_user setup info d).1.users
        ≡ none
      → (any (λ r. str_eq r.email info.email) d.users ≡ false)
        × ((create_or_update_user setup info (create_or_update_user setup info d).1).0 ≢ ok b)
  unknown_subject-signs_once info d a b p f h f' =
      let d' = (create_or_update_user setup info d).1 in
      let w = signed d a f h in
      let i = subject_id setup info d.calls in
      let there = inserted_email i info w.0 a (mapped_subject setup info d).1 (ground arith) in
      (ground (arith, refused d a f h), λ k. let q = refused d' b f' k in ground (arith, q))
    where
      signed :
          (e : Directory) (x : Account)
          → find user_key (setup.new_id e.calls) e.users ≡ none
          → (create_or_update_user setup info e).0 ≡ ok x
          → (roles : List Role) × (create_or_update_user setup info e
              ≡ insert_account setup
                  (subject_id setup info e.calls)
                  info
                  roles
                  (mapped_subject setup info e).1)
      signed e x g k =
          let v = unknown_subject info e x p g k in
          let (roles, m) = create_or_update_mapped setup info e none x v k in
          (roles, create_or_update_writes setup info e none roles v m)

      refused :
          (e : Directory) (x : Account)
          → find user_key (setup.new_id e.calls) e.users ≡ none
          → (create_or_update_user setup info e).0 ≡ ok x
          → any (λ r. str_eq r.email info.email) e.users ≡ false
      refused e x g k =
          let (roles, w) = signed e x g k in
          elim (Bool-cases (any (λ r. str_eq r.email info.email) e.users)) [
            | inr e' ↦ e'
            | inl e' ↦ absurd (
                insert_refused (subject_id setup info e.calls) info roles x
                  (mapped_subject setup info e).1 (ground (arith, mapped_subject-users info e))
                  (ground arith))
          ]
