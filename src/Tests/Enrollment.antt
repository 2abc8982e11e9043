-- ===== src/Tests/Enrollment.antt =====
-- Enrollment on the fleet.
use rd_testing_project.Base.{◌≡◌, refl, none, some, [], ◌∷◌, arith, pos, nat_eq, string_eq}
use rd_testing_project.Base.Maps.{get, put, update}
use rd_testing_project.Store.Invitations.{
  get_enrollment_invitation_by_hash, consume_enrollment_invitation,
}
use rd_testing_project.Store.Users.{get_organization}
use rd_testing_project.Store.Devices.{register_device}
use rd_testing_project.Http.{audit}
use rd_testing_project.Store.Invitations.Quota.{IsSound}
use rd_testing_project.Handlers.Enrollment.{AgentHandshakeRequest, handshake}
use rd_testing_project.Handlers.Enrollment.Quota.{Attempt, admissions}
use rd_testing_project.Handlers.Enrollment.Admission.{Outcome, handshake-Outcome}
use rd_testing_project.Models.{EnrollmentInvitation}
use rd_testing_project.Handlers.Enrollment.Interleaving.{
  World, looks_up, consumes, run, two_lookups_overrun,
}
use rd_testing_project.Tests.Fixtures.{env, request, fleet, invitation, decoded}

abbrev pub agent : AgentHandshakeRequest
agent = record {
  enrollment_token = "CH-ENROLL-00";
  hostname = "EXAM-PC-03";
  os_name = "Windows";
  os_version = "11";
  os_architecture = "x86_64";
  agent_version = "1.0.0";
  public_key_hex = "00";
}

abbrev attempt : Attempt
attempt = record { env = env; request = request none (λ _. ""); body = decoded agent }

pub fleet-IsSound : IsSound fleet.invitations
unfolding get
fleet-IsSound = record { keyed = (refl, refl, tt); within = λ id inv e. ground arith }

-- The invitation has two uses: the third handshake is refused.
two_admitted : admissions 21 (attempt ∷ attempt ∷ attempt ∷ []) fleet ≡ 2
unfolding admissions handshake get put update get_enrollment_invitation_by_hash
    consume_enrollment_invitation get_organization register_device audit
two_admitted = refl

abbrev last_use : EnrollmentInvitation
last_use = record invitation { times_used = pos 1 }

abbrev world : World
world = record { store = record fleet { invitations = (21, last_use) ∷ [] }; passed = [] }

world-IsSound : IsSound world.store.invitations
unfolding get
world-IsSound = record { keyed = (refl, refl, tt); within = λ id inv e. ground arith }

two_lookups_overrun_example :
    get 21
      (run
        (looks_up 1 "digest" 9 ∷ looks_up 2 "digest" 9 ∷ consumes 1 ∷ consumes 2 ∷ [])
        world).store.invitations
    ≡ some (record last_use { times_used = pos 3 })
unfolding get_enrollment_invitation_by_hash
two_lookups_overrun_example =
    two_lookups_overrun 1 2 1 "digest" 9 world last_use refl (omega arith) world-IsSound refl refl
      refl

handshake-Outcome_example :
    Outcome env
      (request none (λ _. ""))
      (decoded agent)
      fleet
      (handshake env (request none (λ _. "")) (decoded agent) fleet)
handshake-Outcome_example = handshake-Outcome env (request none (λ _. "")) (decoded agent) fleet
