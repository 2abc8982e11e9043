-- ===== src/Tests/Issue.antt =====
-- An invitation issued on the fleet, and its token.
use rd_testing_project.Base.{◌≡◌, refl, false, none, some, [], pos, negsuc, arith, nat_eq}
use rd_testing_project.Base.Maps.{get}
use rd_testing_project.Models.{Device, EnrollmentInvitation, active}
use rd_testing_project.Store.{MemoryStore}
use rd_testing_project.Store.Invitations.{create_enrollment_invitation}
use rd_testing_project.Http.{Claims, Decoded, Request, audit, status_created}
use rd_testing_project.Handlers.Enrollment.{
  CreateInvitationRequest, AgentHandshakeRequest, create_invitation, handshake,
}
use rd_testing_project.Handlers.Enrollment.Issue.{IsIssued, create_invitation_issues, token_admits}
use rd_testing_project.Tests.Fixtures.{env, request, claims_of, fleet, decoded, zeros, acme}

-- More hours than a week, a negative number of uses, and no approval.
abbrev wish : Decoded CreateInvitationRequest
wish = decoded (record {
  target_group_id = none;
  expires_in_hours = pos 1000;
  max_uses = negsuc 4;
  requires_approval = some false;
})

abbrev admin : Request
admin = request (some (claims_of 1 [])) (λ _. "")

abbrev anonymous : Request
anonymous = request none (λ _. "")

abbrev bare : MemoryStore
bare = record fleet { invitations = [] }

issued : (create_invitation env admin wish bare).0.status ≡ status_created
unfolding create_invitation create_enrollment_invitation audit
issued = refl

create_invitation_issues_example :
    (claims : Claims) × (inv : EnrollmentInvitation) × (some (claims_of 1 []) ≡ some claims)
    × (get 500 (create_invitation env admin wish bare).1.invitations ≡ some inv)
    × (inv.token_hash ≡ "digest")
    × IsIssued env claims inv
create_invitation_issues_example = create_invitation_issues env admin wish bare issued

abbrev agent : Decoded AgentHandshakeRequest
agent = decoded (record {
  enrollment_token = "CH-ENROLL-digest";
  hostname = "EXAM-PC-04";
  os_name = "Windows";
  os_version = "11";
  os_architecture = "x86_64";
  agent_version = "1.0.0";
  public_key_hex = "00";
})

token_admits_example :
    ((handshake env anonymous agent (create_invitation env admin wish bare).1).0.status
      ≡ status_created)
    × ((dev : Device) × (get 500
            (handshake env anonymous agent (create_invitation env admin wish bare).1).1.devices
          ≡ some dev)
        × (get 500
              (handshake env anonymous agent
                (create_invitation env admin wish bare).1).1.device_creds
            ≡ some (zeros 32))
        × (dev.organization_id ≡ 1)
        × (dev.status ≡ active))
unfolding get
token_admits_example =
    token_admits env env admin anonymous wish agent bare (claims_of 1 []) acme (zeros 32) issued
      refl refl refl refl (omega arith) refl refl refl refl
