-- ===== src/Handlers/Auth.antt =====
-- services/api/internal/handlers/auth_handler.go
pub mod Rotation
pub mod Login
pub mod Frame
use rd_testing_project.Base.{
  ℕ, ◌+◌, ◌*◌, concat, String, Bool, true, false, not, Option, none, some, List, [], ◌∷◌, ◌==◌,
  ◌!=◌, ◌&&◌, ◌||◌, string_eq, if◌then◌else◌, is_some, or_else,
}
use rd_testing_project.Models.{Uuid, nil_uuid, Time, User, RefreshToken, Dict, Value, text, hour}
use rd_testing_project.Store.{MemoryStore, Result, ok, err}
use rd_testing_project.Store.Users.{
  get_organization, get_user_by_email, get_user_by_id, get_user_permissions, save_refresh_token,
  get_refresh_token, revoke_refresh_token,
}
use rd_testing_project.Http.{
  Env, Request, Claims, Decoded, Handler, Step, ◌>>=◌, ◌>>◌, respond_json, respond_error, require,
  check, fetch, peek, attempt, audit, authenticated, status_ok, bad_request, unauthorized,
  not_found, internal_error,
}
use rd_testing_project.Http.Bodies.{Body, strings, login, me, LoginResponse}
use rd_testing_project.Auth.{
  Crypto, Verdict, matches, verify_password, generate_access_token, validate_access_token,
}
use rd_testing_project.Auth.Totp.{validate_totp}

pub record LoginRequest : Type 0 where
  pub email : String
  pub password : String

pub record MfaVerifyRequest : Type 0 where
  pub mfa_token : String
  pub code : String

pub record RefreshRequest : Type 0 where
  pub refresh_token : String

abbrev is_match : Verdict → Bool
is_match matches = true
is_match _ = false

-- The permissions and the role, with what stands for them on an error.
abbrev pub perms_or_viewer : Result (List String × String) → List String × String
perms_or_viewer (ok found) = found
perms_or_viewer (err e) = ([], "Viewer")

abbrev pub needs_mfa : User → Bool
needs_mfa user = user.mfa_enabled && is_some user.mfa_secret

-- The refresh token that issueTokensAndRespond draws.
abbrev pub new_refresh_token : Env → String
new_refresh_token env = concat "rt_" (env.hex_encode (env.random 0 32).value)

abbrev pub new_refresh_entry : Env → Time → User → RefreshToken
new_refresh_entry env now user = record {
  token = new_refresh_token env;
  user_id = user.id;
  organization_id = user.organization_id;
  expires_at = now + 7 * 24 * hour;
  revoked = false;
}

module _ (c : Crypto) (secret : String) (env : Env) (r : Request) where
  -- recordAudit, whose nil metadata becomes an empty map.
  unfoldable pub record_audit :
      Time → Uuid → Option Uuid → String → String → String → String → Option Dict → Step (Unit {0})
  record_audit now org_id user_id action res_type res_id status meta =
      audit r now org_id user_id action res_type res_id status (some (or_else meta []))

  -- issueTokensAndRespond; the clock has been read `i` times before.
  unfoldable pub issue_tokens_and_respond : ℕ → User → Handler
  unfolding record_audit
  issue_tokens_and_respond i user = do
    found ← peek (get_user_permissions user.id)
    let (perms, role) = perms_or_viewer found
    access_token ←
        require
          (generate_access_token c (env.now i) (env.uuid_text (env.new_id 0)) user.id
            user.organization_id role perms secret)
          internal_error "Failed to generate access token"
    attempt (save_refresh_token (new_refresh_entry env (env.now (i + 1)) user))
    record_audit (env.now (i + 2)) user.organization_id (some user.id) "auth.login.success" "user"
        (env.uuid_text user.id) "SUCCESS" (some (("role", text role) ∷ []))
    respond_json status_ok (
        login (record {
          access_token = access_token;
          refresh_token = new_refresh_token env;
          expires_in = 900;
          mfa_required = false;
          mfa_token = "";
          user = some user;
          role = role;
        }))

  -- The answer where the user has MFA on: a challenge token and no other.
  unfoldable pub challenge : User → Handler
  unfolding record_audit
  challenge user = do
    let token =
        or_else
          (generate_access_token c (env.now 0) (env.uuid_text (env.new_id 0)) user.id
            user.organization_id "MFA_CHALLENGE" [] secret)
          ""
    record_audit (env.now 1) user.organization_id (some user.id) "auth.mfa.challenge" "user"
        (env.uuid_text user.id) "SUCCESS" none
    respond_json status_ok (
        login (record {
          access_token = "";
          refresh_token = "";
          expires_in = 0;
          mfa_required = true;
          mfa_token = token;
          user = none;
          role = "";
        }))

  -- A failed login is written to the audit log before the answer.
  unfoldable pub refuse_login : Uuid → Option Uuid → String → String → Handler
  unfolding record_audit
  refuse_login org_id user_id res_id reason = do
    record_audit (env.now 0) org_id user_id "auth.login.failure" "user" res_id "FAILURE"
        (some (("reason", text reason) ∷ []))
    respond_error unauthorized "Invalid credentials"

  unfoldable pub login_handler : Decoded LoginRequest → Handler
  unfolding issue_tokens_and_respond challenge refuse_login
  login_handler body = do
    check (not body.failed) bad_request "Invalid JSON body"
    let req = body.value
    user ←
        fetch (get_user_by_email req.email)
          (λ _. refuse_login nil_uuid none req.email "user_not_found")
    if not (is_match (verify_password c req.password user.password_hash))
        then refuse_login user.organization_id (some user.id) (env.uuid_text user.id)
            "invalid_password"
        else if needs_mfa user
        then challenge user
        else issue_tokens_and_respond 0 user

  unfoldable pub verify_mfa : Decoded MfaVerifyRequest → Handler
  unfolding issue_tokens_and_respond record_audit
  verify_mfa body = do
    check (not body.failed) bad_request "Invalid JSON body"
    let req = body.value
    claims ←
        require (validate_access_token c (env.now 0) req.mfa_token secret) unauthorized
          "Invalid or expired MFA session"
    check (claims.role == "MFA_CHALLENGE") unauthorized "Invalid or expired MFA session"
    user ←
        fetch (get_user_by_id claims.user_id)
          (λ _. respond_error unauthorized "User or MFA configuration not found")
    mfa_secret ← require user.mfa_secret unauthorized "User or MFA configuration not found"
    if not (validate_totp c mfa_secret req.code (env.now 1))
        then (do
          record_audit (env.now 2) user.organization_id (some user.id) "auth.mfa.verify" "user"
              (env.uuid_text user.id) "FAILURE" (some (("reason", text "invalid_totp_code") ∷ []))
          respond_error unauthorized "Invalid authentication code")
        else (do
          record_audit (env.now 2) user.organization_id (some user.id) "auth.mfa.success" "user"
              (env.uuid_text user.id) "SUCCESS" none
          issue_tokens_and_respond 3 user)

  unfoldable pub refresh : Decoded RefreshRequest → Handler
  unfolding issue_tokens_and_respond
  refresh body = do
    check (not body.failed) bad_request "Invalid JSON body"
    let req = body.value
    rt ←
        fetch (get_refresh_token req.refresh_token (env.now 0))
          (λ _. respond_error unauthorized "Invalid or expired refresh token")
    attempt (revoke_refresh_token req.refresh_token)
    user ←
        fetch (get_user_by_id rt.user_id) (λ _. respond_error unauthorized "User no longer exists")
    issue_tokens_and_respond 1 user

  -- The audit entry of a logout, where the request has claims.
  abbrev log_out : Option Claims → Step (Unit {0})
  log_out none k = k tt
  log_out (some claims) k =
      record_audit (env.now 0) claims.organization_id (some claims.user_id) "auth.logout" "user"
        (env.uuid_text claims.user_id) "SUCCESS" none k

  unfoldable pub logout : Decoded RefreshRequest → Handler
  unfolding record_audit
  logout body = do
    if not body.failed && body.value.refresh_token != ""
        then attempt (revoke_refresh_token body.value.refresh_token)
        else (λ k. k tt)
    log_out r.claims
    respond_json status_ok (strings (("message", "Logged out successfully") ∷ []))

  unfoldable pub me_handler : Handler
  me_handler = do
    claims ← authenticated r
    user ← fetch (get_user_by_id claims.user_id) (λ _. respond_error not_found "User not found")
    org ←
        fetch (get_organization claims.organization_id)
          (λ _. respond_error not_found "Organization not found")
    respond_json status_ok (me user org claims.role claims.permissions)
