-- ===== src/Auth/Tokens.antt =====
-- JWTManager of internal/auth/jwt.go. Signing and parsing are those of the JWT library; the random id
-- of a token is an argument of the functions that make one.
use mckmt.Base.{
  ℕ, ◌+◌, ◌-◌, ◌≤◌, ◌<◌, ◌≡◌, String, Option, none, some, Result, ok, err, failed, arith,
  if◌then◌else◌, ltb, Bool-cases, inl, inr,
}
use mckmt.Auth.{User}

pub record Claims : Type 0 where
  pub id : String
  pub user : User
  pub issued_at : ℕ
  pub expires_at : ℕ
  pub not_before : ℕ

-- The library: SignedString of a key and claims, and ParseWithClaims of a key and a token at a time.
pub record Jwt : Type 0 where
  pub sign : String → Claims → Option String
  pub parse : String → ℕ → String → Option Claims

-- What the library documents: a token that was signed with a key is parsed with that key from its
-- `nbf` on and before its `exp`, and what is parsed at some time has not expired then.
pub record IsJwt (jwt : Jwt) : Type 0 where
  pub accepts :
      (key : String) (c : Claims) (t : String) (m : ℕ)
      → jwt.sign key c ≡ some t
      → c.not_before ≤ m
      → m < c.expires_at
      → jwt.parse key m t ≡ some c
  pub expires :
      (key : String) (c : Claims) (t : String) (m : ℕ)
      → jwt.sign key c ≡ some t
      → c.expires_at ≤ m
      → jwt.parse key m t ≡ none

-- secretKey and tokenDuration
pub record JwtManager : Type 0 where
  pub secret_key : String
  pub token_duration : ℕ

module _ (jwt : Jwt) (manager : JwtManager) where
  -- The claims of a token that is made at a time.
  abbrev pub new_claims : String → User → ℕ → Claims
  new_claims id user now = record {
    id = id;
    user = user;
    issued_at = now;
    expires_at = now + manager.token_duration;
    not_before = now - 1;
  }

  unfoldable pub generate_token : String → User → ℕ → Result String
  generate_token id user now = elim (jwt.sign manager.secret_key (new_claims id user now)) [
    | some t ↦ ok t
    | none ↦ err (failed "failed to sign token")
  ]

  unfoldable pub validate_token : ℕ → String → Result User
  validate_token now t = elim (jwt.parse manager.secret_key now t) [
    | some c ↦ ok c.user
    | none ↦ err (failed "failed to parse token")
  ]

  unfoldable pub refresh_token : String → String → ℕ → Result String
  unfolding validate_token generate_token
  refresh_token id t now = elim (validate_token now t) [
    | err e ↦ err (failed "failed to validate token")
    | ok user ↦ generate_token id user now
  ]

module _ (jwt : Jwt) (manager : JwtManager) (doc : IsJwt jwt) (id : String) (user : User) (now : ℕ)
    (t : String) where
  signed :
      generate_token jwt manager id user now ≡ ok t
      → jwt.sign manager.secret_key (new_claims jwt manager id user now) ≡ some t
  unfolding generate_token
  signed h = ground arith

  pub fresh_token :
      (m : ℕ)
      → generate_token jwt manager id user now ≡ ok t
      → now ≤ m
      → m < now + manager.token_duration
      → validate_token jwt manager m t ≡ ok user
  unfolding validate_token
  fresh_token m h a b = rw (
    validate_token,
    doc.accepts manager.secret_key (new_claims jwt manager id user now) t m (signed h)
        (omega (arith, a)) (omega (arith, b)),
  )

  stale_token :
      (m : ℕ)
      → generate_token jwt manager id user now ≡ ok t
      → now + manager.token_duration ≤ m
      → validate_token jwt manager m t ≡ err (failed "failed to parse token")
  unfolding validate_token
  stale_token m h a = rw (
    validate_token,
    doc.expires manager.secret_key (new_claims jwt manager id user now) t m (signed h) a,
  )

  -- What a token gives at a time from its making on.
  token_over_time :
      (m : ℕ)
      → generate_token jwt manager id user now ≡ ok t
      → now ≤ m
      → validate_token jwt manager m t ≡ (
          if ltb m (now + manager.token_duration)
          then ok user
          else err (failed "failed to parse token"))
  token_over_time m h a = elim (Bool-cases (ltb m (now + manager.token_duration))) [
    | inl e ↦ rw e (fresh_token m h a (ground arith))
    | inr e ↦ rw e (stale_token m h (ground arith))
  ]

-- For a JWT library that does what it documents: a token that was made for a user gives, from then
-- on, that user until its duration is over and is an error at every time afterwards; and a token that
-- it is refreshed to in time does so from that moment on for another duration.
pub generate-validate :
    (jwt : Jwt) (manager : JwtManager) (id id' : String) (user : User) (now later m k : ℕ)
    (t t' : String)
    → IsJwt jwt
    → generate_token jwt manager id user now ≡ ok t
    → now ≤ later
    → later < now + manager.token_duration
    → refresh_token jwt manager id' t later ≡ ok t'
    → now ≤ m
    → later ≤ k
    → (validate_token jwt manager m t ≡ (
        if ltb m (now + manager.token_duration)
        then ok user
        else err (failed "failed to parse token")))
      × (validate_token jwt manager k t' ≡ (
          if ltb k (later + manager.token_duration)
          then ok user
          else err (failed "failed to parse token")))
unfolding refresh_token
generate-validate jwt manager id id' user now later m k t t' doc h a b r am ak =
    let first = fresh_token jwt manager doc id user now t later h a b in
    let made : generate_token jwt manager id' user later ≡ ok t' = ground (arith, first) in
    (
      token_over_time jwt manager doc id user now t m h am,
      token_over_time jwt manager doc id' user later t' k made ak,
    )
