-- ===== src/Tests/Auth.antt =====
-- Logins, refreshes and guarded requests with concrete packages.
use rd_testing_project.Base.{
  ℕ, ◌≡◌, ◌≢◌, ◌↔◌, refl, List, String, true, false, none, some, [], ◌∷◌, nat_eq, string_eq, arith,
  text_eq_iff,
}
use rd_testing_project.Base.Maps.{get, put, update}
use rd_testing_project.Models.{User, RefreshToken}
use rd_testing_project.Store.{MemoryStore, ok}
use rd_testing_project.Store.Users.{
  get_user_by_id, get_refresh_token, revoke_refresh_token, save_refresh_token,
}
use rd_testing_project.Http.{Claims, Request, Handler, Decoded, respond_json, audit, status_ok}
use rd_testing_project.Http.Bodies.{strings}
use rd_testing_project.Auth.{
  Crypto, matches, verify_password, hash_password, encode_hash, validate_access_token,
  generate_access_token,
}
use rd_testing_project.Auth.Passwords.{hash_password_verifies}
use rd_testing_project.Auth.Totp.{generate_totp, validate_totp, IsNearby, validate_totp_lem}
use rd_testing_project.Middleware.Access.{Access, guarded-Access}
use rd_testing_project.Handlers.Auth.{
  MfaVerifyRequest, RefreshRequest, verify_mfa, refresh, new_refresh_entry,
}
use rd_testing_project.Handlers.Auth.Rotation.{refresh_rotates, refresh_renews}
use rd_testing_project.Handlers.Auth.Login.{verify_mfa_guarded}
use rd_testing_project.Tests.Fixtures.{env, request, claims_of, empty_store, decoded, zeros}

abbrev challenge_claims : Claims
challenge_claims = record (claims_of 1 []) { role = "MFA_CHALLENGE" }

abbrev pub crypto : Crypto
crypto = record {
  split = λ s sep. "Bearer" ∷ "token" ∷ [];
  trim = λ s. s;
  to_upper = λ s. s;
  to_lower = λ s. "bearer";
  byte_length = λ s. 6;
  six_digits = λ n. "123456";
  scan_version = λ s. some 19;
  scan_params = λ s. some (65536, 3, 4);
  base64_decode = λ s. some [];
  base64_encode = λ bytes. "c2FsdA";
  decimal = λ n. "0";
  argon2_version = 19;
  base32_raw_encode = λ bytes. "SECRET";
  base32_raw_decode = λ s. some (1 ∷ []);
  base32_decode = λ s. none;
  id_key = λ _ _ _ _ _ _. [];
  constant_time_compare = λ _ _. 1;
  hmac_sha1 = λ _ _ i. i;
  numeric_date = λ t. t;
  parse_with_claims = λ _ _ _. some (challenge_claims, true);
  signed_string = λ _ _. some "signed";
}

abbrev operator : User
operator = record {
  id = 3;
  organization_id = 1;
  email = "op@acme.test";
  password_hash = "hash";
  full_name = "Op";
  mfa_enabled = true;
  mfa_secret = some "SECRET";
  status = "ACTIVE";
  last_login_at = none;
  created_at = 1;
  updated_at = 1;
}

abbrev old_token : RefreshToken
old_token = record {
  token = "rt_old";
  user_id = 3;
  organization_id = 1;
  expires_at = 90000;
  revoked = false;
}

abbrev office : MemoryStore
office = record empty_store {
  users = (3, operator) ∷ [];
  refresh_tokens = ("rt_old", old_token) ∷ [];
}

abbrev pub anonymous : Request
anonymous = request none (λ _. "")

abbrev with_old : Decoded RefreshRequest
with_old = decoded (record { refresh_token = "rt_old" })

-- A noon of the year 2026.
abbrev noon : ℕ
noon = 63902952000000000000

validate_totp_lem_example : (validate_totp crypto "SECRET" "123456" noon ≡ true) ↔ (
    (crypto.byte_length "123456" ≡ 6)
    × ((issued : ℕ) × (generate_totp crypto "SECRET" issued ≡ some "123456")
        × IsNearby issued noon))
validate_totp_lem_example = validate_totp_lem crypto "SECRET" "123456" noon (omega arith)

abbrev answer : Request → Handler
answer r = respond_json status_ok (strings [])

guarded-Access_example : Access crypto 1000 "key" "device.view" answer anonymous office
guarded-Access_example = guarded-Access crypto 1000 "key" "device.view" answer anonymous office

abbrev code : Decoded MfaVerifyRequest
code = decoded (record { mfa_token = "signed"; code = "123456" })

refreshed : (refresh crypto "key" env anonymous with_old office).0.status ≡ status_ok
unfolding refresh get_refresh_token revoke_refresh_token get_user_by_id save_refresh_token get put
    update audit generate_access_token
refreshed = refl

verified : (verify_mfa crypto "key" env anonymous code office).0.status ≡ status_ok
unfolding verify_mfa validate_access_token validate_totp get_user_by_id get audit save_refresh_token
    generate_access_token
verified = refl

verify_mfa_guarded_example :
    (claims : Claims) × (user : User) × (mfa_secret : String) × (validate_access_token crypto 1000
        "signed" "key"
      ≡ some claims)
    × (claims.role ≡ "MFA_CHALLENGE")
    × (get claims.user_id office.users ≡ some user)
    × (user.mfa_secret ≡ some mfa_secret)
    × (validate_totp crypto mfa_secret "123456" 1001 ≡ true)
    × ((verify_mfa crypto "key" env anonymous code office).1.refresh_tokens
        ≡ put "rt_digest" (new_refresh_entry env 1004 user) office.refresh_tokens)
verify_mfa_guarded_example = verify_mfa_guarded crypto "key" env anonymous code office verified

refresh_rotates_example :
    ((refresh crypto "key" env anonymous with_old
        (refresh crypto "key" env anonymous with_old office).1).0.status
      ≢ status_ok)
    × ((refresh crypto "key" env anonymous with_old
          (refresh crypto "key" env anonymous with_old office).1).1
        ≡ (refresh crypto "key" env anonymous with_old office).1)
refresh_rotates_example =
    refresh_rotates crypto "key" env env anonymous anonymous with_old office
      (λ e. ground (arith, text_eq_iff "rt_digest" "rt_old")) refreshed

refresh_renews_example :
    (old new : RefreshToken) × (user : User) × (get_refresh_token "rt_old" 1000 office ≡ ok old)
    × (get old.user_id office.users ≡ some user)
    × (get_refresh_token "rt_digest" 5000 (refresh crypto "key" env anonymous with_old office).1
        ≡ ok new)
    × (new.user_id ≡ user.id)
refresh_renews_example =
    refresh_renews crypto "key" env anonymous with_old office 5000 refreshed (omega arith)

-- Argon2id with parameters whose salt and key have 32 bytes, both of them zero.
abbrev hashing : Crypto
hashing = record crypto {
  split = λ s sep. "" ∷ "argon2id" ∷ "v=0" ∷ "m=0,t=0,p=0" ∷ "c2FsdA" ∷ "c2FsdA" ∷ [];
  base64_decode = λ s. some (zeros 32);
  id_key = λ _ _ _ _ _ _. zeros 32;
}

abbrev drawn : ℕ → Decoded (List ℕ)
drawn n = record { value = zeros 32; failed = false }

hash_password_verifies_example :
    verify_password hashing "password" "$argon2id$v=0$m=0,t=0,p=0$c2FsdA$c2FsdA" ≡ matches
unfolding hash_password encode_hash
hash_password_verifies_example =
    hash_password_verifies hashing drawn "password" "$argon2id$v=0$m=0,t=0,p=0$c2FsdA$c2FsdA" none
      refl refl refl refl refl refl refl refl
