-- ===== src/Auth/Oidc.antt =====
-- internal/auth/oidc.go: what becomes of a provider's answers. A text that is cut is a list of bytes.
-- The provider's endpoints, the verifier and the HTTP client are parameters.
use mckmt.Base.{
  ℕ, Bool, true, false, not, ◌&&◌, Option, none, some, List, [], ◌∷◌, ◌++◌, Result, ok, err, failed,
  wrapped, ◌==◌, ltb, if◌then◌else◌, length, drop,
}
use mckmt.Auth.Middleware.{Bytes, bytes_eq}

-- OIDCUserInfo, and the claims, which embed it.
pub record UserInfo : Type 0 where
  pub subject : Bytes
  pub email : Bytes
  pub email_verified : Bool
  pub name : Bytes
  pub given_name : Bytes
  pub family_name : Bytes
  pub picture : Bytes
  pub groups : List Bytes
  pub roles : List Bytes

-- AuthenticatedUser
pub record OidcUser : Type 0 where
  pub id : Bytes
  pub username : Bytes
  pub email : Bytes
  pub roles : List Bytes

-- "role:", "mckmt-" and "viewer"
abbrev pub role_prefix : Bytes
role_prefix = 114 ∷ 111 ∷ 108 ∷ 101 ∷ 58 ∷ []

abbrev pub mckmt_prefix : Bytes
mckmt_prefix = 109 ∷ 99 ∷ 107 ∷ 109 ∷ 116 ∷ 45 ∷ []

abbrev pub viewer : Bytes
viewer = 118 ∷ 105 ∷ 101 ∷ 119 ∷ 101 ∷ 114 ∷ []

-- strings.HasPrefix, and what strings.TrimPrefix then leaves
abbrev pub has_prefix : Bytes → Bytes → Bool
has_prefix s [] = true
has_prefix [] (p ∷ ps) = false
has_prefix (b ∷ s) (p ∷ ps) = (b == p) && has_prefix s ps

abbrev pub trim_prefix : Bytes → Bytes → Bytes
trim_prefix s p = if has_prefix s p then drop (length p) s else s

-- The loop over the groups.
unfoldable pub group_roles : List Bytes → List Bytes
group_roles [] = []
group_roles (g ∷ gs) =
    let rest = group_roles gs in
    if has_prefix g role_prefix
    then trim_prefix g role_prefix ∷ rest
    else if has_prefix g mckmt_prefix
    then trim_prefix g mckmt_prefix ∷ rest
    else rest

abbrev default_to : List Bytes → List Bytes → List Bytes
default_to d [] = d
default_to d (r ∷ rs) = r ∷ rs

unfoldable pub extract_roles_from_claims : UserInfo → List Bytes
unfolding group_roles
extract_roles_from_claims claims =
    default_to (viewer ∷ []) (claims.roles ++ group_roles claims.groups)

unfoldable pub create_user_from_oidc : UserInfo → OidcUser
unfolding extract_roles_from_claims
create_user_from_oidc info = record {
  id = info.subject;
  username = info.email;
  email = info.email;
  roles = default_to (extract_roles_from_claims info) info.roles;
}

unfoldable pub validate_state : Bytes → Bytes → Bool
validate_state expected actual = bytes_eq expected actual

-- GenerateState: the 32 bytes that rand.Read gives, in URL-safe base64.
unfoldable pub generate_state : (Bytes → Bytes) → Result Bytes → Result Bytes
generate_state encode random = elim random [ err e ↦ err e | ok b ↦ ok (encode b) ]

module _ {Token IdToken : Type 0} (extra_id_token : Token → Option Bytes)
    (verify : Bytes → Result IdToken) (claims : IdToken → Result UserInfo) where
  unfoldable pub validate_id_token : Token → Result UserInfo
  validate_id_token token = elim (extra_id_token token) [
    | none ↦ err (failed "no id_token in token response")
    | some raw ↦ elim (verify raw) [
      | err e ↦ err (wrapped "failed to verify ID token" e)
      | ok id_token ↦ elim (claims id_token) [
        | err e ↦ err (wrapped "failed to extract claims" e)
        | ok c ↦ ok c
      ]
    ]
  ]

-- GetUserInfo: the status and the body that the client gets, and the decoder.
unfoldable pub get_user_info : Result (ℕ × Bytes) → (Bytes → Result UserInfo) → Result UserInfo
get_user_info answer decode = elim answer [
  | err e ↦ err (wrapped "failed to get user info" e)
  | ok (status, body) ↦
      if not (status == 200)
      then err (failed "userinfo request failed with status")
      else elim (decode body) [
        | err e ↦ err (wrapped "failed to decode user info" e)
        | ok info ↦ ok info
      ]
]

-- RevokeToken: none where token[:10] panics.
unfoldable pub revoke_token : Bytes → Option (Result (Unit {0}))
revoke_token token = if ltb (length token) 10 then none else some (ok tt)
