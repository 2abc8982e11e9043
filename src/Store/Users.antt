-- ===== src/Store/Users.antt =====
-- store.go: organizations, users and refresh tokens.
use rd_testing_project.Base.{
  String, Bool, true, false, Option, List, [], ◌||◌, ◌==◌, ltb, nat_eq, string_eq, find?, or_else,
}
use rd_testing_project.Base.Maps.{get, put, update, values}
use rd_testing_project.Models.{Uuid, Time, Organization, User, RefreshToken}
use rd_testing_project.Store.{MemoryStore, not_found, Result, ok, err, or_not_found, ◌>>=◌}

unfoldable pub get_organization : Uuid → MemoryStore → Result Organization
get_organization org_id m = or_not_found (get org_id m.orgs)

unfoldable pub get_user_by_email : String → MemoryStore → Result User
get_user_by_email email m = or_not_found (find? (λ u. u.email == email) (values m.users))

unfoldable pub get_user_by_id : Uuid → MemoryStore → Result User
get_user_by_id user_id m = or_not_found (get user_id m.users)

unfoldable pub update_user_mfa : Uuid → Bool → Option String → MemoryStore → Result MemoryStore
update_user_mfa user_id enabled secret m = do
  _ ← or_not_found (get user_id m.users)
  ok (record m {
    users = update user_id (λ u. record u { mfa_enabled = enabled; mfa_secret = secret }) m.users;
  })

-- A missing role has the nil list of permissions.
unfoldable pub get_user_permissions : Uuid → MemoryStore → Result (List String × String)
get_user_permissions user_id m = do
  role ← or_not_found (get user_id m.user_roles)
  ok (or_else (get role m.role_perms) [], role)

unfoldable pub save_refresh_token : RefreshToken → MemoryStore → Result MemoryStore
save_refresh_token token m =
    ok (record m { refresh_tokens = put token.token token m.refresh_tokens })

abbrev usable : Time → RefreshToken → Result RefreshToken
usable now rt = elim (rt.revoked || ltb rt.expires_at now) [ true ↦ err not_found | false ↦ ok rt ]

unfoldable pub get_refresh_token : String → Time → MemoryStore → Result RefreshToken
get_refresh_token token now m = do rt ← or_not_found (get token m.refresh_tokens); usable now rt

unfoldable pub revoke_refresh_token : String → MemoryStore → Result MemoryStore
revoke_refresh_token token m = ok (record m {
  refresh_tokens = update token (λ rt. record rt { revoked = true }) m.refresh_tokens;
})
