-- ===== src/Auth.antt =====
-- services/api/internal/auth/auth.go and totp.go. The packages that they call (Argon2, JWT, HMAC,
-- base32, base64, strings and fmt) are the fields of Crypto.
pub mod Totp
pub mod Passwords
use rd_testing_project.Base.{
  ℕ, ◌+◌, ◌-◌, ◌*◌, ◌/◌, ◌%◌, String, Bool, true, false, Option, none, some, List, [], ◌∷◌, ◌==◌,
  ◌!=◌, nat_eq, string_eq, if◌then◌else◌, length, any, concat, or_else,
}
use rd_testing_project.Models.{Uuid, Time, second, minute}
use rd_testing_project.Http.{Claims, Decoded}

pub record Crypto : Type 0 where
  pub split : String → String → List String  -- strings.Split
  pub trim : String → String  -- strings.TrimSpace
  pub to_upper : String → String  -- strings.ToUpper
  pub to_lower : String → String  -- strings.ToLower
  pub byte_length : String → ℕ  -- len
  pub six_digits : ℕ → String  -- fmt.Sprintf("%06d", …)
  pub scan_version : String → Option ℕ  -- fmt.Sscanf(…, "v=%d", …)
  pub scan_params : String → Option (ℕ × ℕ × ℕ)  -- fmt.Sscanf(…, "m=%d,t=%d,p=%d", …)
  pub base64_decode : String → Option (List ℕ)  -- base64.RawStdEncoding.DecodeString
  pub base64_encode : List ℕ → String  -- base64.RawStdEncoding.EncodeToString
  pub decimal : ℕ → String  -- fmt.Sprintf("%d", …)
  pub argon2_version : ℕ  -- argon2.Version
  pub base32_raw_encode : List ℕ → String  -- base32, without padding
  pub base32_raw_decode : String → Option (List ℕ)  -- base32, without padding
  pub base32_decode : String → Option (List ℕ)  -- base32.StdEncoding.DecodeString
  pub id_key : String → List ℕ → ℕ → ℕ → ℕ → ℕ → List ℕ  -- argon2.IDKey
  pub constant_time_compare : List ℕ → List ℕ → ℕ  -- subtle.ConstantTimeCompare
  pub hmac_sha1 : List ℕ → List ℕ → ℕ → ℕ  -- byte i of the 20 bytes of the HMAC, key first
  pub numeric_date : Time → Time  -- jwt.NewNumericDate
  pub parse_with_claims : (Bool → Option String) → Time → String → Option (Claims × Bool)  -- jwt.ParseWithClaims
  pub signed_string : Claims → String → Option String  -- SignedString, with HS256

pub record ArgonParams : Type 0 where
  pub memory : ℕ
  pub iterations : ℕ
  pub parallelism : ℕ
  pub salt_length : ℕ
  pub key_length : ℕ

abbrev pub default_argon_params : ArgonParams
default_argon_params = record {
  memory = 64 * 1024;
  iterations = 3;
  parallelism = 4;
  salt_length = 16;
  key_length = 32;
}

-- VerifyPassword, and whether it returned an error.
pub data Verdict : Type 0 where
  matches mismatch malformed : Verdict

-- The claims that GenerateAccessToken signs, at `now` and under the token id `jti`.
unfoldable pub access_claims : Crypto → Time → String → Uuid → Uuid → String → List String → Claims
access_claims c now jti user_id org_id role permissions = record {
  user_id = user_id;
  organization_id = org_id;
  role = role;
  permissions = permissions;
  expires_at = c.numeric_date (now + 15 * minute);
  issued_at = c.numeric_date now;
  not_before = c.numeric_date now;
  issuer = "controlhub-auth-service";
  token_id = jti;
}

-- The key function, by whether the token's method is an HMAC.
abbrev pub key_for : String → Bool → Option String
key_for secret is_hmac = if is_hmac then some secret else none

module _ (c : Crypto) where
  -- fmt.Sprintf("$argon2id$v=%d$m=%d,t=%d,p=%d$%s$%s", …), by the parts between the dollar signs.
  abbrev pub version_part : String
  version_part = concat "v=" (c.decimal c.argon2_version)

  abbrev pub params_part : ArgonParams → String
  params_part p = concat "m=" (
      concat (c.decimal p.memory)
        (concat ",t=" (concat (c.decimal p.iterations) (concat ",p=" (c.decimal p.parallelism)))))

  abbrev pub joined : List String → String
  joined [] = ""
  joined (part ∷ parts) = concat "$" (concat part (joined parts))

  unfoldable pub encode_hash : ArgonParams → List ℕ → List ℕ → String
  encode_hash p salt hash =
      joined (
        "argon2id"
        ∷ version_part
        ∷ params_part p
        ∷ c.base64_encode salt
        ∷ c.base64_encode hash
        ∷ [])

  abbrev pub derive : String → ArgonParams → List ℕ → List ℕ
  derive password p salt = c.id_key password salt p.iterations p.memory p.parallelism p.key_length

  -- `read` is rand.Read of so many bytes.
  unfoldable pub hash_password :
      (ℕ → Decoded (List ℕ)) → String → Option ArgonParams → Option String
  unfolding encode_hash
  hash_password read password params =
      let p = or_else params default_argon_params in
      let salt = read p.salt_length in
      if salt.failed then none else some (encode_hash p salt.value (derive password p salt.value))

  -- The steps of VerifyPassword after the format, with its decoded salt and hash.
  unfoldable pub compare_hash : String → ℕ × ℕ × ℕ → List ℕ → List ℕ → Verdict
  compare_hash password (memory, iterations, parallelism) salt expected =
      if c.constant_time_compare expected
          (c.id_key password salt iterations memory parallelism (length expected))
        == 1
      then matches
      else mismatch

  unfoldable pub verify_parts : String → List String → Verdict
  unfolding compare_hash
  verify_parts password (p0 ∷ p1 ∷ p2 ∷ p3 ∷ p4 ∷ p5 ∷ []) =
      if p1 != "argon2id" then malformed else elim (c.scan_version p2) [
        | none ↦ malformed
        | some version ↦ elim (c.scan_params p3) [
          | none ↦ malformed
          | some params ↦ elim (c.base64_decode p4) [
            | none ↦ malformed
            | some salt ↦ elim (c.base64_decode p5) [
              | none ↦ malformed
              | some expected ↦ compare_hash password params salt expected
            ]
          ]
        ]
      ]
  verify_parts password _ = malformed

  unfoldable pub verify_password : String → String → Verdict
  unfolding verify_parts
  verify_password password encoded = verify_parts password (c.split encoded "$")

  unfoldable pub generate_access_token :
      Time → String → Uuid → Uuid → String → List String → String → Option String
  unfolding access_claims
  generate_access_token now jti user_id org_id role permissions secret =
      c.signed_string (access_claims c now jti user_id org_id role permissions) secret

  unfoldable pub validate_access_token : Time → String → String → Option Claims
  validate_access_token now token secret = elim (c.parse_with_claims (key_for secret) now token) [
    | none ↦ none
    | some (claims, valid) ↦ if valid then some claims else none
  ]
