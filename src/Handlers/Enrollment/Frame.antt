-- ===== src/Handlers/Enrollment/Frame.antt =====
-- enrollment_handler.go: which part of the store each handler writes, and what it writes where it answers with
-- an error.
use rd_testing_project.Base.{◌≡◌, ◌≤◌, arith, nat_eq, string_eq}
use rd_testing_project.Store.{MemoryStore}
use rd_testing_project.Store.Frame.{core, IsUntouched}
use rd_testing_project.Store.Invitations.{
  create_enrollment_invitation, list_enrollment_invitations, delete_enrollment_invitation,
  get_enrollment_invitation_by_hash, consume_enrollment_invitation,
}
use rd_testing_project.Store.Users.{get_organization}
use rd_testing_project.Store.Devices.{register_device}
use rd_testing_project.Http.{Env, Request, Decoded, audit}
use rd_testing_project.Handlers.Enrollment.{
  create_invitation, list_invitations, revoke_invitation, handshake, AgentHandshakeRequest,
  CreateInvitationRequest, enroll,
}

module _ (env : Env) (r : Request) (m : MemoryStore) where
  pub core-create_invitation :
      (body : Decoded CreateInvitationRequest)
      → core (create_invitation env r body m).1
        ≡ record (core m) { invitations = (create_invitation env r body m).1.invitations }
  unfolding create_invitation create_enrollment_invitation audit
  core-create_invitation body = ground arith

  pub create_invitation-IsUntouched :
      (body : Decoded CreateInvitationRequest)
      → 400 ≤ (create_invitation env r body m).0.status
      → IsUntouched m (create_invitation env r body m).1
  unfolding create_invitation create_enrollment_invitation audit
  create_invitation-IsUntouched body h = ground arith

  pub core-list_invitations : core (list_invitations env r m).1 ≡ core m
  unfolding list_invitations list_enrollment_invitations
  core-list_invitations = ground arith

  pub list_invitations-IsUntouched :
      400 ≤ (list_invitations env r m).0.status → IsUntouched m (list_invitations env r m).1
  unfolding list_invitations list_enrollment_invitations
  list_invitations-IsUntouched h = ground arith

  pub core-revoke_invitation :
      core (revoke_invitation env r m).1
      ≡ record (core m) { invitations = (revoke_invitation env r m).1.invitations }
  unfolding revoke_invitation delete_enrollment_invitation audit
  core-revoke_invitation = ground arith

  pub revoke_invitation-IsUntouched :
      400 ≤ (revoke_invitation env r m).0.status → IsUntouched m (revoke_invitation env r m).1
  unfolding revoke_invitation delete_enrollment_invitation audit
  revoke_invitation-IsUntouched h = ground arith

  pub core-handshake :
      (body : Decoded AgentHandshakeRequest)
      → core (handshake env r body m).1 ≡ record (core m) {
        devices = (handshake env r body m).1.devices;
        device_creds = (handshake env r body m).1.device_creds;
        invitations = (handshake env r body m).1.invitations;
      }
  unfolding handshake enroll get_enrollment_invitation_by_hash consume_enrollment_invitation
      get_organization register_device audit
  core-handshake body = ground arith
