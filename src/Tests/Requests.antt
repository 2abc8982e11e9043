-- ===== src/Tests/Requests.antt =====
-- Requests to the whole API server, and the store that a new one starts with.
use rd_testing_project.Base.{
  ℕ, ◌+◌, ◌≤◌, ◌≡◌, refl, none, some, [], ◌∷◌, nat_eq, string_eq, pos, true, arith,
}
use rd_testing_project.Base.Maps.{get, update, put}
use rd_testing_project.Models.{Time, Device, pending, active, revoked}
use rd_testing_project.Store.Frame.{core, accounts}
use rd_testing_project.Store.Seed.{new_memory_store, dev1_id, demo_org_id}
use rd_testing_project.Handlers.Telemetry.{IngestTelemetryRequest}
use rd_testing_project.Handlers.Auth.{login_handler}
use rd_testing_project.Handlers.Devices.{approve_device}
use rd_testing_project.Auth.{Crypto, validate_access_token}
use rd_testing_project.Middleware.{authenticate, require_permission}
use rd_testing_project.Store.Devices.{get_device, update_device_status, register_device}
use rd_testing_project.Http.{audit}
use rd_testing_project.Handlers.Devices.Isolation.{IsRevoked}
use rd_testing_project.Server.{Incoming, serve, serve_all, serve_mux, find_route}
use rd_testing_project.Server.Routes.{guarded_handler}
use rd_testing_project.Server.Errors.{Refusal, serve-Refusal}
use rd_testing_project.Server.Devices.{
  Follows, IsForeign, serve-Follows, serve_all-IsRevoked, serve_all_isolates,
}
use rd_testing_project.Server.Quota.{let_in, let_in-le-max_uses}
use rd_testing_project.Handlers.Enrollment.{handshake}
use rd_testing_project.Handlers.Enrollment.Quota.{admits}
use rd_testing_project.Store.Invitations.{
  get_enrollment_invitation_by_hash, consume_enrollment_invitation,
}
use rd_testing_project.Store.Users.{get_organization}
use rd_testing_project.Tests.Enrollment.{agent, fleet-IsSound}
use rd_testing_project.Server.Soundness.{IsSound, serve_all-IsSound, accounts-serve_all}
use rd_testing_project.Tests.Fixtures.{invitation, claims_of, request, fleet, device_of, decoded}
use rd_testing_project.Tests.Auth.{crypto}
use rd_testing_project.Tests.Updates.{signer, keys}
use rd_testing_project.Tests.Devices.{fleet-IsRevoked}
use rd_testing_project.Tests.Server.{incoming, nothing}

abbrev sample : IngestTelemetryRequest
sample = record {
  device_id = dev1_id;
  organization_id = demo_org_id;
  cpu_percent = 0;
  ram_used_bytes = pos 1;
  ram_total_bytes = pos 2;
  ram_percent = 0;
  disk_used_bytes = pos 1;
  disk_total_bytes = pos 2;
  disk_percent = 0;
  network_rx_bytes_sec = pos 0;
  network_tx_bytes_sec = pos 0;
}

-- Telemetry of a device of the demo organization.
abbrev telemetry : Incoming
telemetry = record (incoming (some "POST /api/v1/telemetry/ingest")) {
  payload = record nothing { sample = decoded sample };
}

abbrev approval : Incoming
approval = record (incoming (some "POST /api/v1/devices/{deviceId}/approve")) {
  request = record (request none (λ _. "laptop")) { authorization = "Bearer token" };
}

-- A token of organization 1 with device.approve.
abbrev approver : Crypto
approver = record crypto {
  parse_with_claims = λ _ _ _. some (claims_of 1 ("device.approve" ∷ []), true);
}

approval_activates :
    get 11 (serve approver "secret" signer keys approval fleet).1.devices
    ≡ some (device_of 11 1 active)
unfolding serve serve_mux find_route guarded_handler authenticate require_permission approve_device
    get_device update_device_status audit get update validate_access_token
approval_activates = refl

abbrev clock : ℕ → Time
clock i = 3000000000000000000 + i

serve_all-IsSound_example :
    IsSound
      (serve_all approver "secret" signer keys (telemetry ∷ approval ∷ []) (new_memory_store clock))
serve_all-IsSound_example =
    serve_all-IsSound approver "secret" signer keys clock (telemetry ∷ approval ∷ [])
      (omega arith, (omega arith, tt))

accounts-serve_all_example :
    accounts (
      core (
        serve_all approver "secret" signer keys
          (telemetry ∷ approval ∷ [])
          (new_memory_store clock)))
    ≡ accounts (core (new_memory_store clock))
accounts-serve_all_example =
    accounts-serve_all approver "secret" signer keys (telemetry ∷ approval ∷ [])
      (new_memory_store clock)

serve-Follows_example :
    Follows approver "secret" signer keys approval 11
      (device_of 11 1 pending)
      (serve approver "secret" signer keys approval fleet).1
unfolding get
serve-Follows_example =
    serve-Follows approver "secret" signer keys approval fleet 11 (device_of 11 1 pending) refl
      (λ e. absurd (omega arith))

serve_all-IsRevoked_example :
    IsRevoked 13 (serve_all approver "secret" signer keys (approval ∷ telemetry ∷ []) fleet).devices
serve_all-IsRevoked_example =
    serve_all-IsRevoked approver "secret" signer keys (approval ∷ telemetry ∷ []) fleet 13
      ((λ e. absurd (omega arith)), ((λ e. absurd (omega arith)), tt)) fleet-IsRevoked

-- A login whose body does not parse.
abbrev unparsed : Incoming
unparsed = incoming (some "POST /api/v1/auth/login")

unparsed_status : 400 ≤ (serve approver "secret" signer keys unparsed fleet).0.status
unfolding serve serve_mux find_route guarded_handler login_handler
unparsed_status = omega arith

serve-Refusal_example : Refusal fleet (serve approver "secret" signer keys unparsed fleet)
serve-Refusal_example = serve-Refusal approver "secret" signer keys unparsed fleet unparsed_status

-- Device 13 is organization 2's, and the token organization 1's.
approval-IsForeign : IsForeign approver "secret" signer keys 2 approval
unfolding validate_access_token
approval-IsForeign claims e h = ground arith

serve_all_isolates_example :
    (dev' : Device) × (get 13
        (serve_all approver "secret" signer keys (approval ∷ []) fleet).devices
      ≡ some dev')
    × (dev'.organization_id ≡ 2)
    × (dev'.status ≡ revoked)
unfolding get
serve_all_isolates_example =
    serve_all_isolates approver "secret" signer keys (approval ∷ []) fleet 13
      (device_of 13 2 revoked) ((approval-IsForeign, λ e. absurd (omega arith)), tt) refl

abbrev enrollment : Incoming
enrollment = record (incoming (some "POST /api/v1/enrollment/handshake")) {
  payload = record nothing { handshake_body = decoded agent };
}

let_in-le-max_uses_example :
    0
      + let_in approver "secret" signer keys 21
          (enrollment ∷ approval ∷ enrollment ∷ enrollment ∷ [])
          fleet
    ≤ 2
unfolding get
let_in-le-max_uses_example =
    let_in-le-max_uses approver "secret" signer keys 21
      (enrollment ∷ approval ∷ enrollment ∷ enrollment ∷ []) fleet invitation
      (
        (omega arith, λ e. absurd (omega arith)),
        (
          (omega arith, λ e. absurd (omega arith)),
          (
            (omega arith, λ e. absurd (omega arith)),
            ((omega arith, λ e. absurd (omega arith)), tt),
          ),
        ),
      )
      fleet-IsSound refl

-- The invitation has two uses: the third handshake is refused.
two_let_in :
    let_in approver "secret" signer keys 21
      (enrollment ∷ approval ∷ enrollment ∷ enrollment ∷ [])
      fleet
    ≡ 2
unfolding let_in admits serve serve_mux find_route guarded_handler authenticate require_permission
    approve_device get_device update_device_status audit get update put validate_access_token
    handshake get_enrollment_invitation_by_hash consume_enrollment_invitation get_organization
    register_device
two_let_in = refl
