-- ===== src/Store/Invitations.antt =====
-- store.go: enrollment invitations.
pub mod Quota
use rd_testing_project.Base.{
  String, List, ◌==◌, ltb, leb_ℤ, int_inc, nat_eq, string_eq, keep, find?, if◌then◌else◌,
}
use rd_testing_project.Base.Maps.{put, update, delete, values}
use rd_testing_project.Models.{Uuid, Time, EnrollmentInvitation}
use rd_testing_project.Store.{
  MemoryStore, token_expired, token_exhausted, Result, ok, err, or_not_found, ◌>>=◌,
}

unfoldable pub create_enrollment_invitation :
    EnrollmentInvitation → MemoryStore → Result MemoryStore
create_enrollment_invitation inv m = ok (record m { invitations = put inv.id inv m.invitations })

-- The body of the loop at the first invitation with the hash.
abbrev pub redeemable : Time → EnrollmentInvitation → Result EnrollmentInvitation
redeemable now inv =
    if ltb inv.expires_at now
    then err token_expired
    else if leb_ℤ inv.max_uses inv.times_used
    then err token_exhausted
    else ok inv

unfoldable pub get_enrollment_invitation_by_hash :
    String → Time → MemoryStore → Result EnrollmentInvitation
get_enrollment_invitation_by_hash token_hash now m = do
  inv ← or_not_found (find? (λ inv. inv.token_hash == token_hash) (values m.invitations))
  redeemable now inv

abbrev pub use_once : EnrollmentInvitation → EnrollmentInvitation
use_once inv = record inv { times_used = int_inc inv.times_used }

unfoldable pub consume_enrollment_invitation : Uuid → MemoryStore → Result MemoryStore
consume_enrollment_invitation inv_id m =
    ok (record m { invitations = update inv_id use_once m.invitations })

unfoldable pub list_enrollment_invitations : Uuid → MemoryStore → Result (List EnrollmentInvitation)
list_enrollment_invitations org_id m =
    ok (keep (λ inv. inv.organization_id == org_id) (values m.invitations))

-- The organization is not looked at.
unfoldable pub delete_enrollment_invitation : Uuid → Uuid → MemoryStore → Result MemoryStore
delete_enrollment_invitation org_id inv_id m =
    ok (record m { invitations = delete inv_id m.invitations })
