-- ===== src/Handlers/Auth/Login.antt =====
-- auth_handler.go, Login and VerifyMFA: what must hold before tokens are issued.
use rd_testing_project.Base.{
  ◌≡◌, ◌⊎◌, String, true, false, none, some, string_eq, nat_eq, arith, inl, inr, Option-cases,
  text_eq_iff,
}
use rd_testing_project.Base.Maps.{get, put}
use rd_testing_project.Models.{User}
use rd_testing_project.Store.{MemoryStore, ok}
use rd_testing_project.Store.Users.{get_user_by_email, get_user_by_id, save_refresh_token}
use rd_testing_project.Http.{
  Env, Request, Claims, Decoded, Response, audit, status_ok, bad_request, unauthorized,
  internal_error,
}
use rd_testing_project.Http.Bodies.{login, LoginResponse}
use rd_testing_project.Auth.{Crypto, matches, verify_password, validate_access_token}
use rd_testing_project.Auth.Totp.{validate_totp}
use rd_testing_project.Handlers.Auth.{
  LoginRequest, MfaVerifyRequest, verify_mfa, issue_tokens_and_respond, new_refresh_token,
  new_refresh_entry,
}

module _ (c : Crypto) (secret : String) (env : Env) (r : Request) where
  -- The ways in which a login ends.
  pub data LoginOutcome (req : LoginRequest) (m : MemoryStore) (out : Response × MemoryStore)
      : Type 0 where
    refused :
        ((out.0.status ≡ bad_request) ⊎ (out.0.status ≡ unauthorized))
          ⊎ (out.0.status ≡ internal_error)
        → out.1.refresh_tokens ≡ m.refresh_tokens
        → LoginOutcome req m out
    challenged :
        (user : User) (mfa_secret : String)
        → (answer : LoginResponse) → get_user_by_email req.email m ≡ ok user
        → verify_password c req.password user.password_hash ≡ matches
        → user.mfa_enabled ≡ true
        → user.mfa_secret ≡ some mfa_secret
        → out.0.status ≡ status_ok
        → out.0.body ≡ login answer
        → answer.access_token ≡ ""
        → answer.refresh_token ≡ ""
        → out.1.refresh_tokens ≡ m.refresh_tokens
        → LoginOutcome req m out
    admitted :
        (user : User)
        → get_user_by_email req.email m ≡ ok user
        → verify_password c req.password user.password_hash ≡ matches
        → ((user.mfa_enabled ≡ false) ⊎ (user.mfa_secret ≡ none))
        → out.0.status ≡ status_ok
        → out.1.refresh_tokens
          ≡ put (new_refresh_token env) (new_refresh_entry env (env.now 1) user) m.refresh_tokens
        → LoginOutcome req m out

  -- VerifyMFA answers 200 only where the MFA token is valid and is a challenge, its user exists
  -- with a secret, and the code is valid for that secret; it then adds exactly a new refresh token
  -- of that user.
  pub verify_mfa_guarded :
      (body : Decoded MfaVerifyRequest) (m : MemoryStore)
      → (verify_mfa c secret env r body m).0.status ≡ status_ok
      → (claims : Claims) × (user : User) × (mfa_secret : String) × (validate_access_token c
            (env.now 0)
            body.value.mfa_token
            secret
          ≡ some claims)
        × (claims.role ≡ "MFA_CHALLENGE")
        × (get claims.user_id m.users ≡ some user)
        × (user.mfa_secret ≡ some mfa_secret)
        × (validate_totp c mfa_secret body.value.code (env.now 1) ≡ true)
        × ((verify_mfa c secret env r body m).1.refresh_tokens
            ≡ put (new_refresh_token env) (new_refresh_entry env (env.now 4) user) m.refresh_tokens)
  unfolding verify_mfa get_user_by_id issue_tokens_and_respond audit save_refresh_token
  verify_mfa_guarded body m h =
      elim (Option-cases (validate_access_token c (env.now 0) body.value.mfa_token secret)) [
        | inl e ↦ absurd (ground arith)
        | inr (claims, e) ↦ elim (Option-cases (get claims.user_id m.users)) [
          | inl q ↦ absurd (ground arith)
          | inr (user, q) ↦ elim (Option-cases user.mfa_secret) [
            | inl s ↦ absurd (ground arith)
            | inr (mfa_secret, s) ↦ (
              claims,
              user,
              mfa_secret,
              e,
              ground (arith, text_eq_iff claims.role "MFA_CHALLENGE"),
              q,
              s,
              ground arith,
              ground arith,
            )
          ]
        ]
      ]
