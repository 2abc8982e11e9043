-- ===== src/Auth/Passwords.antt =====
-- services/api/internal/auth/auth.go: a password and its hash.
use rd_testing_project.Base.{
  ℕ, ◌≡◌, ap, sym, ◌∙◌, refl, inl, inr, String, Option, some, List, [], ◌∷◌, string_eq, length,
  or_else, arith, Bool-cases,
}
use rd_testing_project.Http.{Decoded}
use rd_testing_project.Auth.{
  Crypto, ArgonParams, default_argon_params, matches, compare_hash, verify_parts, verify_password,
  encode_hash, hash_password, derive, joined, version_part, params_part,
}

-- The parts of a hash's text between its dollar signs.
abbrev parts : Crypto → ArgonParams → List ℕ → List ℕ → List String
parts c p salt hash =
    "argon2id" ∷ version_part c ∷ params_part c p ∷ c.base64_encode salt ∷ c.base64_encode hash ∷ []

module _ (c : Crypto) where
  verify_encoded :
      (password enc v n salt_text hash_text : String) (version : ℕ) (p : ArgonParams)
      (salt hash : List ℕ)
      → c.split enc "$" ≡ "" ∷ "argon2id" ∷ v ∷ n ∷ salt_text ∷ hash_text ∷ []
      → c.scan_version v ≡ some version
      → c.scan_params n ≡ some (p.memory, p.iterations, p.parallelism)
      → c.base64_decode salt_text ≡ some salt
      → c.base64_decode hash_text ≡ some hash
      → derive c password p salt ≡ hash
      → length hash ≡ p.key_length
      → c.constant_time_compare hash hash ≡ 1
      → verify_password c password enc ≡ matches
  unfolding verify_password verify_parts compare_hash
  verify_encoded password enc v n salt_text hash_text version p salt hash cut a b d e derived size
        same =
      ground arith

  hash_password-encode :
      (read : ℕ → Decoded (List ℕ)) (password encoded : String) (params : Option ArgonParams)
      → let p = or_else params default_argon_params in
        let salt = (read p.salt_length).value in
        hash_password c read password params ≡ some encoded
        → encode_hash c p salt (derive c password p salt) ≡ encoded
  unfolding hash_password
  hash_password-encode read password encoded params h =
      elim (Bool-cases (read (or_else params default_argon_params).salt_length).failed) [
        | inl e ↦ absurd (ground arith)
        | inr e ↦ ground arith
      ]

  -- A password that HashPassword has hashed is verified by VerifyPassword against that hash. This
  -- holds where strings.Split finds the six parts of the text, the version and the parameters scan
  -- back, base64 decodes what it made of the salt and the hash, Argon2id gives a hash of the
  -- length asked for, and the comparison takes it for equal to itself.
  pub hash_password_verifies :
      (read : ℕ → Decoded (List ℕ)) (password encoded : String) (params : Option ArgonParams)
      → let p = or_else params default_argon_params in
        let salt = (read p.salt_length).value in
        let hash = derive c password p salt in
        hash_password c read password params ≡ some encoded
        → c.split (joined c (parts c p salt hash)) "$" ≡ "" ∷ parts c p salt hash
        → c.scan_version (version_part c) ≡ some c.argon2_version
        → c.scan_params (params_part c p) ≡ some (p.memory, p.iterations, p.parallelism)
        → c.base64_decode (c.base64_encode salt) ≡ some salt
        → c.base64_decode (c.base64_encode hash) ≡ some hash
        → length hash ≡ p.key_length
        → c.constant_time_compare hash hash ≡ 1
        → verify_password c password encoded ≡ matches
  unfolding encode_hash
  hash_password_verifies read password encoded params h cut version numbers salt_text hash_text size
        same =
      let p = or_else params default_argon_params in
      let salt = (read p.salt_length).value in
      verify_encoded password encoded _ _ _ _ _ p salt (derive c password p salt)
        (ap (λ text. c.split text "$") (sym (hash_password-encode read password encoded params h))
          ∙ cut)
        version numbers salt_text hash_text refl size same
