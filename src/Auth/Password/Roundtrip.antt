-- ===== src/Auth/Password/Roundtrip.antt =====
-- A hash that HashPassword has made is read back by VerifyPassword (Auth/Password/Hash).
use mckmt.Base.{
  ℕ, ◌^◌, ◌<◌, ◌≡◌, refl, ap, ◌∙◌, ◌≢◌, true, some, List, [], ◌∷◌, ◌++◌, ok, length, list_eq,
  list_eq_iff, All, arith,
}
use mckmt.Auth.Password.Hash.{
  Bytes, PasswordConfig, Crypto, version, decimal, dollar, argon2id, version_part, parameter_part,
  split, hash_password, verify_parts, verify_password,
}
use mckmt.Auth.Password.Scan.{
  split_part, split_last, append-plain, decimal-plain, scan_version-part, scan_parameters-part,
}

-- What the two packages document: decoding undoes encoding, the alphabet of base64 has no '$', and
-- the key has the length that was asked for.
pub record IsCrypto (crypto : Crypto) : Type 0 where
  pub decodes : (b : Bytes) → crypto.decode (crypto.encode b) ≡ some b
  pub plain : (b : Bytes) → All (λ x. x ≢ dollar) (crypto.encode b)
  pub key_size :
      (password salt : List ℕ) (t m p n : ℕ) → length (crypto.id_key password salt t m p n) ≡ n

abbrev pub Fits : PasswordConfig → Type 0
Fits c = (c.memory < 2 ^ 32) × (c.iterations < 2 ^ 32) × (c.parallelism < 2 ^ 8)

module _ (crypto : Crypto) (doc : IsCrypto crypto) (config : PasswordConfig) (bounds : Fits config)
    (salt : Bytes) (password : List ℕ) where
  abbrev pub key_of : List ℕ → Bytes
  key_of p =
      crypto.id_key p salt config.iterations config.memory config.parallelism config.key_length

  parts :
      (encoded : Bytes)
      → hash_password crypto config (some salt) password ≡ ok encoded
      → split dollar encoded
        ≡ []
          ∷ argon2id
          ∷ version_part
          ∷ parameter_part config.memory config.iterations config.parallelism
          ∷ crypto.encode salt
          ∷ crypto.encode (key_of password)
          ∷ []
  unfolding hash_password
  parts encoded h =
      let hash = crypto.encode (key_of password) in
      let salted = crypto.encode salt ++ (dollar ∷ hash) in
      let ps = parameter_part config.memory config.iterations config.parallelism in
      let tail₂ = ps ++ (dollar ∷ salted) in
      let tail₁ = version_part ++ (dollar ∷ tail₂) in
      let e : encoded ≡ dollar ∷ (argon2id ++ (dollar ∷ tail₁)) = ground arith in
      let q₀ = split_part [] (argon2id ++ (dollar ∷ tail₁)) tt in
      let q₁ = split_part argon2id tail₁ (ground arith) in
      let q₂ =
        split_part version_part tail₂ (ground arith, (ground arith, decimal-plain version)) in
      let q₃ = split_part ps salted (
        ground arith,
        (
          ground arith,
          append-plain (decimal config.memory)
              (44
                ∷ 116
                ∷ 61
                ∷ (decimal config.iterations ++ (44 ∷ 112 ∷ 61 ∷ decimal config.parallelism)))
              (decimal-plain config.memory)
              (
                ground arith,
                (
                  ground arith,
                  (
                    ground arith,
                    append-plain (decimal config.iterations)
                        (44 ∷ 112 ∷ 61 ∷ decimal config.parallelism)
                        (decimal-plain config.iterations)
                        (
                          ground arith,
                          (ground arith, (ground arith, decimal-plain config.parallelism)),
                        ),
                  ),
                ),
              ),
        ),
      ) in
      let q₄ = split_part (crypto.encode salt) hash (doc.plain salt) in
      let q₅ = split_last hash (doc.plain (key_of password)) in
      ap (split dollar) e
      ∙ q₀
      ∙ ap (λ l. [] ∷ l)
          (q₁
            ∙ ap (λ l. argon2id ∷ l)
                (q₂
                  ∙ ap (λ l. version_part ∷ l)
                      (q₃ ∙ ap (λ l. ps ∷ l) (q₄ ∙ ap (λ l. crypto.encode salt ∷ l) q₅))))

  -- For a configuration whose numbers fit into their types: the hash of a password verifies exactly
  -- the passwords that have the same Argon2 key with its salt, the password itself among them.
  pub verify-hash :
      (encoded : Bytes) (other : List ℕ)
      → hash_password crypto config (some salt) password ≡ ok encoded
      → (verify_password crypto config other encoded
          ≡ ok (list_eq (key_of password) (key_of other)))
        × (verify_password crypto config password encoded ≡ ok true)
  unfolding verify_password verify_parts
  verify-hash encoded other h = (
    checked other,
    checked password ∙ ap ok ((list_eq_iff (key_of password) (key_of password)).1 refl),
  )
    where
      checked :
          (p : List ℕ)
          → verify_password crypto config p encoded ≡ ok (list_eq (key_of password) (key_of p))
      checked p = ground (
        arith,
        parts encoded h,
        scan_version-part,
        scan_parameters-part config.memory config.iterations config.parallelism bounds.0 bounds.1
            bounds.2,
        doc.decodes salt,
        doc.decodes (key_of password),
        doc.key_size password salt config.iterations config.memory config.parallelism
            config.key_length,
        list_eq_iff argon2id argon2id,
      )
