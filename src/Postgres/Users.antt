-- ===== src/Postgres/Users.antt =====
-- postgres_store.go: organizations, users, permissions and refresh tokens.
use rd_testing_project.Base.{
  String, Bool, true, Option, none, some, List, [], ◌∷◌, ◌++◌, ◌&&◌, ◌==◌, ltb, nat_eq, string_eq,
  if◌then◌else◌, any, find?,
}
use rd_testing_project.Base.Maps.{Map, get, put, update, values}
use rd_testing_project.Models.{Uuid, Organization, User, RefreshToken}
use rd_testing_project.Store.{not_found, unauthorized, token_expired, Result, ok, err, ◌>>=◌}
use rd_testing_project.Postgres.{Database, Query, query_row, query_all, exec, exec_affecting, has}

-- SELECT r.name … for the role of one row of user_roles, joined with its permissions.
unfoldable pub permissions_of : Uuid → String → List (Uuid × String) → List (String × String)
permissions_of role_id name [] = []
permissions_of role_id name ((id, perm) ∷ rest) =
    let more = permissions_of role_id name rest in
    if id == role_id then (perm, name) ∷ more else more

-- The rows of the three joined tables, before DISTINCT.
unfoldable pub joined_roles :
    Uuid → Map Uuid String → List (Uuid × String) → List (Uuid × Uuid) → List (String × String)
unfolding permissions_of
joined_roles user_id roles perms [] = []
joined_roles user_id roles perms ((user, role_id) ∷ rest) =
    let more = joined_roles user_id roles perms rest in
    if user == user_id
    then elim (get role_id roles) [
      | none ↦ more
      | some name ↦ permissions_of role_id name perms ++ more
    ]
    else more

abbrev same_row : String × String → String × String → Bool
same_row (p, r) (p', r') = p == p' && r == r'

-- SELECT DISTINCT
unfoldable pub distinct_rows : List (String × String) → List (String × String)
distinct_rows [] = []
distinct_rows (row ∷ rest) =
    let kept = distinct_rows rest in if any (same_row row) rest then kept else row ∷ kept

-- The loop over the rows, with what has been appended and the last role name.
unfoldable pub scan_permissions :
    List String → String → List (String × String) → List String × String
scan_permissions perms role_name [] = (perms, role_name)
scan_permissions perms role_name ((perm, role) ∷ rest) =
    scan_permissions (perms ++ perm ∷ []) role rest

abbrev check_token : Query → RefreshToken → Result RefreshToken
check_token q t =
    if t.revoked
    then err unauthorized
    else if ltb t.expires_at q.clock
    then err token_expired
    else ok t

module _ (q : Query) where
  unfoldable pub get_organization : Uuid → Database → Result Organization
  get_organization org_id db = query_row (q.down 0) not_found (get org_id db.organizations)

  unfoldable pub get_user_by_email : String → Database → Result User
  get_user_by_email email db =
      query_row (q.down 0) not_found (find? (λ u. u.email == email) (values db.users))

  unfoldable pub get_user_by_id : Uuid → Database → Result User
  get_user_by_id user_id db = query_row (q.down 0) not_found (get user_id db.users)

  unfoldable pub update_user_mfa : Uuid → Bool → Option String → Database → Result Database
  update_user_mfa user_id enabled secret db =
      exec_affecting (q.down 0) not_found (has user_id db.users) (record db {
        users =
            update user_id
              (λ u. record u { mfa_enabled = enabled; mfa_secret = secret; updated_at = q.now })
              db.users;
      })

  unfoldable pub get_user_permissions : Uuid → Database → Result (List String × String)
  unfolding joined_roles distinct_rows scan_permissions
  get_user_permissions user_id db = query_all (q.down 0) (
      scan_permissions [] ""
        (distinct_rows (joined_roles user_id db.roles db.role_permissions db.user_roles)))

  -- ON CONFLICT (token) DO UPDATE SET revoked = EXCLUDED.revoked
  abbrev upsert_token : RefreshToken → Option RefreshToken → RefreshToken
  upsert_token token none = record token { expires_at = q.timestamptz token.expires_at }
  upsert_token token (some old) = record old { revoked = token.revoked }

  unfoldable pub save_refresh_token : RefreshToken → Database → Result Database
  save_refresh_token token db =
      exec (q.down 0) (has token.user_id db.users && has token.organization_id db.organizations)
        (record db {
          refresh_tokens =
              put token.token (upsert_token token (get token.token db.refresh_tokens))
                db.refresh_tokens;
        })

  unfoldable pub get_refresh_token : String → Database → Result RefreshToken
  get_refresh_token token db = do
    t ← query_row (q.down 0) not_found (get token db.refresh_tokens)
    check_token q t

  unfoldable pub revoke_refresh_token : String → Database → Result Database
  revoke_refresh_token token db = exec (q.down 0) true (record db {
    refresh_tokens = update token (λ t. record t { revoked = true }) db.refresh_tokens;
  })
