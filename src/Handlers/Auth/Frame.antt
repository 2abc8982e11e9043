-- ===== src/Handlers/Auth/Frame.antt =====
-- auth_handler.go: which part of the store each handler writes, and what it writes where it answers with
-- an error.
use rd_testing_project.Base.{◌≡◌, ◌≤◌, arith, nat_eq, string_eq, String}
use rd_testing_project.Store.{MemoryStore}
use rd_testing_project.Store.Frame.{core, IsUntouched}
use rd_testing_project.Store.Users.{
  get_user_by_email, get_user_by_id, get_organization, get_user_permissions, save_refresh_token,
  get_refresh_token, revoke_refresh_token,
}
use rd_testing_project.Http.{Env, Request, Decoded, audit}
use rd_testing_project.Handlers.Auth.{
  login_handler, verify_mfa, refresh, logout, me_handler, LoginRequest, MfaVerifyRequest,
  RefreshRequest, issue_tokens_and_respond, challenge, refuse_login, record_audit,
}
use rd_testing_project.Auth.{Crypto}

module _ (c : Crypto) (secret : String) (env : Env) (r : Request) (m : MemoryStore) where
  pub core-login_handler :
      (body : Decoded LoginRequest) → core (login_handler c secret env r body m).1 ≡ core m
  unfolding login_handler issue_tokens_and_respond challenge refuse_login record_audit
      get_user_by_email save_refresh_token get_user_permissions audit
  core-login_handler body = ground arith

  pub login_handler-IsUntouched :
      (body : Decoded LoginRequest)
      → 400 ≤ (login_handler c secret env r body m).0.status
      → IsUntouched m (login_handler c secret env r body m).1
  unfolding login_handler issue_tokens_and_respond challenge refuse_login record_audit
      get_user_by_email save_refresh_token get_user_permissions audit
  login_handler-IsUntouched body h = ground arith

  pub core-verify_mfa :
      (body : Decoded MfaVerifyRequest) → core (verify_mfa c secret env r body m).1 ≡ core m
  unfolding verify_mfa issue_tokens_and_respond record_audit get_user_by_id save_refresh_token
      get_user_permissions audit
  core-verify_mfa body = ground arith

  pub verify_mfa-IsUntouched :
      (body : Decoded MfaVerifyRequest)
      → 400 ≤ (verify_mfa c secret env r body m).0.status
      → IsUntouched m (verify_mfa c secret env r body m).1
  unfolding verify_mfa issue_tokens_and_respond record_audit get_user_by_id save_refresh_token
      get_user_permissions audit
  verify_mfa-IsUntouched body h = ground arith

  pub core-refresh :
      (body : Decoded RefreshRequest) → core (refresh c secret env r body m).1 ≡ core m
  unfolding refresh issue_tokens_and_respond record_audit get_user_by_id get_refresh_token
      revoke_refresh_token save_refresh_token get_user_permissions audit
  core-refresh body = ground arith

  pub refresh-IsUntouched :
      (body : Decoded RefreshRequest)
      → 400 ≤ (refresh c secret env r body m).0.status
      → IsUntouched m (refresh c secret env r body m).1
  unfolding refresh issue_tokens_and_respond record_audit get_user_by_id get_refresh_token
      revoke_refresh_token save_refresh_token get_user_permissions audit
  refresh-IsUntouched body h = ground arith

  pub core-logout : (body : Decoded RefreshRequest) → core (logout c secret env r body m).1 ≡ core m
  unfolding logout record_audit revoke_refresh_token audit
  core-logout body = ground arith

  pub logout-IsUntouched :
      (body : Decoded RefreshRequest)
      → 400 ≤ (logout c secret env r body m).0.status
      → IsUntouched m (logout c secret env r body m).1
  unfolding logout record_audit revoke_refresh_token audit
  logout-IsUntouched body h = ground arith

  pub core-me_handler : core (me_handler c secret env r m).1 ≡ core m
  unfolding me_handler get_user_by_id get_organization
  core-me_handler = ground arith

  pub me_handler-IsUntouched :
      400 ≤ (me_handler c secret env r m).0.status → IsUntouched m (me_handler c secret env r m).1
  unfolding me_handler get_user_by_id get_organization
  me_handler-IsUntouched h = ground arith
