-- ===== src/Tests/Requests.antt =====
-- OIDC, policies and the HTTP handlers on the samples of Tests and Tests/Setups.
use mckmt.Base.{◌≡◌, refl, ◌≢◌, true, false, some, [], ◌∷◌, ok, any, str_eq}
use mckmt.Repo.Store.{find}
use mckmt.Accounts.{AuthSource, Account, UserRow}
use mckmt.Accounts.UserTable
use mckmt.Accounts.RoleTable
use mckmt.Auth.RoleMapper.{
  contains_from, contains_substring, contains, direct, first_partial, target, get_role_by_name,
  get_default_role, map_single_role, map_each, map_oidc_roles,
}
use mckmt.AuthService.{named_role}
use mckmt.AuthService.Oidc.{database_roles, insert_account, rewrite_account, create_or_update_user}
use mckmt.AuthService.OidcLogins.{IsSigned, known_subject, create_or_update_user-IsSigned}
use mckmt.AuthService.OidcSubjects.{unknown_subject-signs_once}
use mckmt.Tests.Setups.{setup, ada_row, ada_account, directory, hash, subject}

-- Ada's account is disabled.
abbrev disabled_row : UserRow
disabled_row = record (ada_row hash) { active = false }

abbrev disabled_account : Account
disabled_account = record (ada_account hash) { active = false }

abbrev back : Account
back = record disabled_account { active = true; roles = named_role "root" ∷ []; updated_at = 1002 }

-- Which of the mapping's roles is visited does not matter for the update.
ada_known :
    known_subject setup (subject "7") (directory (disabled_row ∷ []) 0) ≡ ok (some disabled_account)
unfolding UserTable.get_by_id find
ada_known = refl

ada_back : (create_or_update_user setup (subject "7") (directory (disabled_row ∷ []) 0)).0 ≡ ok back
unfolding create_or_update_user UserTable.get_by_id find database_roles map_oidc_roles map_each
    map_single_role target direct first_partial contains contains_substring contains_from
    get_role_by_name get_default_role RoleTable.list RoleTable.by_name rewrite_account
    UserTable.update_user
ada_back = refl

create_or_update_user-IsSigned_example :
    IsSigned setup
      (subject "7")
      (some disabled_account)
      back
      (create_or_update_user setup (subject "7") (directory (disabled_row ∷ []) 0)).1.users
create_or_update_user-IsSigned_example =
    create_or_update_user-IsSigned setup (subject "7") (directory (disabled_row ∷ []) 0)
      (some disabled_account) back (λ n p. refl) ada_known ada_back

-- A subject that is no UUID, in a directory without users.
abbrev new_account : Account
new_account = record {
  id = 100;
  username = "ada@b.c";
  email = "ada@b.c";
  password_hash = [];
  auth_source = AuthSource.oidc;
  active = true;
  created_at = 1002;
  updated_at = 1002;
  roles = record { id = 20; name = "viewer" } ∷ [];
}

ada_new : (create_or_update_user setup (subject "ada|1") (directory [] 0)).0 ≡ ok new_account
unfolding create_or_update_user UserTable.get_by_id find database_roles map_oidc_roles map_each
    map_single_role target direct first_partial contains contains_substring contains_from
    get_role_by_name get_default_role RoleTable.list RoleTable.by_name insert_account
    UserTable.create
ada_new = refl

unknown_subject-signs_once_example :
    (any (λ r. str_eq r.email "ada@b.c") (directory [] 0).users ≡ false)
    × ((create_or_update_user setup
          (subject "ada|1")
          (create_or_update_user setup (subject "ada|1") (directory [] 0)).1).0
        ≢ ok new_account)
unfolding create_or_update_user UserTable.get_by_id find database_roles map_oidc_roles map_each
    map_single_role target direct first_partial contains contains_substring contains_from
    get_role_by_name get_default_role RoleTable.list RoleTable.by_name insert_account
    UserTable.create
unknown_subject-signs_once_example =
    unknown_subject-signs_once setup (subject "ada|1") (directory [] 0) new_account new_account refl
      refl ada_new refl
