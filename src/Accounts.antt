-- ===== src/Accounts.antt =====
-- The users, roles, permissions and audit logs: the entities of internal/user/user.go and
-- internal/repo/interfaces.go, and the tables of migrations/000001_initial_schema.up.sql that hold
-- them. A column or field that no modelled code reads (the descriptions, the payloads of a log, who
-- assigned a role and when) is left out.
pub mod UserTable
pub mod Uniqueness
pub mod RoleTable
pub mod Assignments
pub mod PermissionTable
pub mod UserPermissions
pub mod AuditTable
use mckmt.Base.{
  ℕ, ◌+◌, String, Bool, Option, List, Result, ok, err, Error, db_failed, if◌then◌else◌,
}
use mckmt.Repo.Store.{Env}
use mckmt.Auth.Permissions.{Grants}

-- The AuthSource constants; any other text is `other`.
pub data AuthSource : Type 0 where
  password oidc : AuthSource
  other : String → AuthSource

-- user.Role
pub record Role : Type 0 where
  pub id : ℕ
  pub name : String

-- user.User
pub record Account : Type 0 where
  pub id : ℕ
  pub username : String
  pub email : String
  pub password_hash : List ℕ
  pub auth_source : AuthSource
  pub active : Bool
  pub created_at : ℕ
  pub updated_at : ℕ
  pub roles : List Role

-- A row of `users`, whose `roles` are a text[].
pub record UserRow : Type 0 where
  pub id : ℕ
  pub username : String
  pub email : String
  pub password_hash : List ℕ
  pub auth_source : AuthSource
  pub active : Bool
  pub created_at : ℕ
  pub updated_at : ℕ
  pub roles : List String

-- repo.AuditLog
pub record AuditLog : Type 0 where
  pub user_id : String
  pub action : String
  pub resource_type : String
  pub resource_id : String
  pub ip_address : String
  pub user_agent : String
  pub created_at : ℕ

pub record Directory : Type 0 where
  pub users : List UserRow
  pub roles : List Role
  pub grants : Grants
  pub audit_logs : List AuditLog
  -- how many calls the program has made to the database
  pub calls : ℕ

abbrev pub D : Type 0 → Type 0
D A = Directory → Result A × Directory

abbrev pub counted : Directory → Directory
counted d = record d { calls = d.calls + 1 }

-- A call to the database; a failed one leaves the tables as they are.
abbrev pub call : Env → {A : Type 0} → D A → D A
call env query d = if env.fails d.calls then (err db_failed, counted d) else query (counted d)

-- How the driver writes a []*user.Role into a text[] and how it reads one back; `none` where it
-- refuses.
pub record RolesCodec : Type 0 where
  pub encode : List Role → Option (List String)
  pub decode : List String → Option (List Role)

-- The keys of the tables.
abbrev pub user_key : UserRow → ℕ
user_key r = r.id

abbrev pub role_key : Role → ℕ
role_key r = r.id
