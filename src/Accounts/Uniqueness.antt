-- ===== src/Accounts/Uniqueness.antt =====
-- The uniqueness constraints of `users` (Accounts/UserTable).
use mckmt.Base.{
  ℕ, String, ◌≡◌, refl, false, not, ◌&&◌, List, [], ◌∷◌, ◌==◌, any, str_eq_iff, arith, Option-cases,
  Bool-cases, inl, inr,
}
use mckmt.Repo.Store.{Env, find, update, remove}
use mckmt.Accounts.{Account, UserRow, Directory, RolesCodec, user_key}
use mckmt.Accounts.UserTable.{same_name, clashes, create, update_user, delete, set_user, row_of}

-- No two rows share an id, a username or an email.
abbrev pub IsUnique : List UserRow → Type 0
IsUnique [] = Unit {0}
IsUnique (r ∷ rs) = (any (clashes r) rs ≡ false) × IsUnique rs

module _ (u : Account) (now created : ℕ) (names : List String) where
  abbrev new_row : UserRow
  new_row = row_of u created now names

  -- A row beside the updated one.
  update_others :
      (x : UserRow) (rs : List UserRow)
      → (x.id == u.id) ≡ false
      → same_name new_row x ≡ false
      → any (clashes x) rs ≡ false
      → any (clashes x) (update user_key u.id (set_user u now names) rs) ≡ false
  unfolding update
  update_others x [] n d v = refl
  update_others x (y ∷ rs) n d v = ground (
    arith,
    str_eq_iff x.username u.username,
    str_eq_iff u.username x.username,
    str_eq_iff x.email u.email,
    str_eq_iff u.email x.email,
    update_others x rs n d,
  )

  -- The updated row itself.
  update_self :
      (x : UserRow) (rs : List UserRow)
      → x.id ≡ u.id
      → any (λ q. not (q.id == u.id) && same_name new_row q) rs ≡ false
      → any (clashes x) rs ≡ false
      → any
          (clashes (record x {
            username = u.username;
            email = u.email;
            password_hash = u.password_hash;
            auth_source = u.auth_source;
            roles = names;
            active = u.active;
            updated_at = now;
          }))
          rs
        ≡ false
  update_self x [] e d v = refl
  update_self x (y ∷ rs) e d v = ground (arith, update_self x rs e)

  update-IsUnique :
      (rs : List UserRow)
      → any (λ q. not (q.id == u.id) && same_name new_row q) rs ≡ false
      → IsUnique rs
      → IsUnique (update user_key u.id (set_user u now names) rs)
  unfolding update
  update-IsUnique [] d v = tt
  update-IsUnique (x ∷ rs) d v = elim (Bool-cases (x.id == u.id)) [
    | inl e ↦ rw e (update_self x rs (ground arith) (ground arith) v.0, v.1)
    | inr e ↦ rw e (update_others x rs e (ground arith) v.0, update-IsUnique rs (ground arith) v.1)
  ]

remove_clash :
    (i : ℕ) (x : UserRow) (rs : List UserRow)
    → any (clashes x) rs ≡ false
    → any (clashes x) (remove user_key i rs) ≡ false
unfolding remove
remove_clash i x [] v = refl
remove_clash i x (y ∷ rs) v = ground (arith, remove_clash i x rs)

remove-IsUnique : (i : ℕ) (rs : List UserRow) → IsUnique rs → IsUnique (remove user_key i rs)
unfolding remove
remove-IsUnique i [] v = tt
remove-IsUnique i (x ∷ rs) v = ground (arith, remove_clash i x rs, remove-IsUnique i rs)

-- Whatever a write to `users` answers, no two rows share an id, a username or an email afterwards
-- if none did before.
writes-IsUnique :
    (env : Env) (codec : RolesCodec) (u : Account) (i : ℕ) (d : Directory)
    → IsUnique d.users
    → IsUnique (create env codec u d).1.users
      × IsUnique (update_user env codec u d).1.users
      × IsUnique (delete env codec i d).1.users
unfolding create update_user delete
writes-IsUnique env codec u i d v = (
  ground arith,
  elim (Option-cases (codec.encode u.roles)) [
    | inl e ↦ ground arith
    | inr (names, e) ↦ elim (Option-cases (find user_key u.id d.users)) [
      | inl f ↦ ground arith
      | inr (r, f) ↦ ground (arith, update-IsUnique u (env.now d.calls) r.created_at names d.users)
    ]
  ],
  ground (arith, remove-IsUnique i d.users v),
)
