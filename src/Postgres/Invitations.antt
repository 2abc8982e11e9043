-- ===== src/Postgres/Invitations.antt =====
-- postgres_store.go: enrollment invitations.
pub mod Quota
use rd_testing_project.Base.{
  String, Bool, true, false, not, Option, none, some, List, ◌&&◌, ◌==◌, ltb, nat_eq, string_eq,
  if◌then◌else◌, find?, keep, is_some, ℤ, ltb_ℤ, leb_ℤ, int_inc,
}
use rd_testing_project.Base.Maps.{Map, get, put, update, delete, values}
use rd_testing_project.Base.Sort.{newest_first}
use rd_testing_project.Models.{Uuid, EnrollmentInvitation}
use rd_testing_project.Store.{
  Error, not_found, unauthorized, token_expired, token_exhausted, Result, ok, err, ◌>>=◌,
}
use rd_testing_project.Postgres.{
  Database, Query, query_row, query_all, exec, exec_affecting, of_org, has, has_or_null,
}

abbrev pub org_of_invitation : EnrollmentInvitation → Uuid
org_of_invitation inv = inv.organization_id

abbrev pub has_hash : String → EnrollmentInvitation → Bool
has_hash token_hash inv = inv.token_hash == token_hash

abbrev pub redeemable : Query → EnrollmentInvitation → Result EnrollmentInvitation
redeemable q inv =
    if ltb inv.expires_at q.clock
    then err token_expired
    else if leb_ℤ inv.max_uses inv.times_used
    then err token_exhausted
    else ok inv

-- WHERE id=$1 AND times_used < max_uses
abbrev pub has_use_left : Option EnrollmentInvitation → Bool
has_use_left none = false
has_use_left (some inv) = ltb_ℤ inv.times_used inv.max_uses

module _ (q : Query) where
  unfoldable pub create_enrollment_invitation : EnrollmentInvitation → Database → Result Database
  create_enrollment_invitation inv db =
      exec (q.down 0)
        (not (has inv.id db.enrollment_invitations)
          && not (is_some (find? (has_hash inv.token_hash) (values db.enrollment_invitations)))
          && has inv.organization_id db.organizations
          && has_or_null inv.target_group_id db.device_groups
          && has_or_null inv.created_by_user_id db.users)
        (record db {
          enrollment_invitations =
              put inv.id
                (record inv { expires_at = q.timestamptz inv.expires_at; created_at = q.now })
                db.enrollment_invitations;
        })

  unfoldable pub get_enrollment_invitation_by_hash : String → Database → Result EnrollmentInvitation
  get_enrollment_invitation_by_hash token_hash db = do
    inv ←
        query_row (q.down 0) not_found
          (find? (has_hash token_hash) (values db.enrollment_invitations))
    redeemable q inv

  unfoldable pub consume_enrollment_invitation : Uuid → Database → Result Database
  consume_enrollment_invitation inv_id db =
      exec_affecting (q.down 0) token_exhausted
        (has_use_left (get inv_id db.enrollment_invitations))
        (record db {
          enrollment_invitations =
              update inv_id (λ inv. record inv { times_used = int_inc inv.times_used })
                db.enrollment_invitations;
        })

  unfoldable pub list_enrollment_invitations : Uuid → Database → Result (List EnrollmentInvitation)
  list_enrollment_invitations org_id db = query_all (q.down 0) (
      newest_first (λ (inv : EnrollmentInvitation). inv.created_at)
        (keep (λ inv. inv.organization_id == org_id) (values db.enrollment_invitations)))

  unfoldable pub delete_enrollment_invitation : Uuid → Uuid → Database → Result Database
  delete_enrollment_invitation org_id inv_id db =
      exec_affecting (q.down 0) unauthorized
        (is_some (of_org org_of_invitation org_id (get inv_id db.enrollment_invitations)))
        (record db { enrollment_invitations = delete inv_id db.enrollment_invitations })
