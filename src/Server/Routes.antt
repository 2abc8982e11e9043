-- ===== src/Server/Routes.antt =====
-- services/api/cmd/server/main.go: the routes of the API server, each with the middlewares around
-- its handler, over the in-memory store.
use rd_testing_project.Base.{String, List, [], ◌∷◌}
use rd_testing_project.Models.{Time}
use rd_testing_project.Http.{Env, Request, Decoded, Handler, respond_json, status_ok}
use rd_testing_project.Http.Bodies.{health}
use rd_testing_project.Auth.{Crypto}
use rd_testing_project.Middleware.{authenticate, require_permission}
use rd_testing_project.Handlers.Auth.{
  login_handler, verify_mfa, refresh, logout, me_handler, LoginRequest, MfaVerifyRequest,
  RefreshRequest,
}
use rd_testing_project.Handlers.Enrollment.{
  handshake, create_invitation, list_invitations, revoke_invitation, CreateInvitationRequest,
  AgentHandshakeRequest,
}
use rd_testing_project.Handlers.Sessions.{
  handle_consent, create_session, list_sessions, get_session, terminate_session,
  CreateSessionRequest, ConsentDecisionRequest, TerminateSessionRequest,
}
use rd_testing_project.Handlers.Jobs.{
  report_result, create_command_handler, get_command_handler, create_bulk_command,
  CreateCommandRequest, BulkCommandRequest, AgentCommandResultRequest,
}
use rd_testing_project.Handlers.Devices.{
  list_devices_handler, get_device_handler, approve_device, revoke_device, list_audit_logs_handler,
}
use rd_testing_project.Handlers.Telemetry.{
  get_device_telemetry, ingest_telemetry, IngestTelemetryRequest,
}
use rd_testing_project.Handlers.Groups.{
  list_groups_handler, create_group_handler, get_group_handler, update_group_handler,
  delete_group_handler, assign_devices, remove_device, CreateGroupRequest, UpdateGroupRequest,
  AssignDevicesRequest,
}
use rd_testing_project.Handlers.Operations.{
  list_alerts_handler, acknowledge_alert_handler, list_software, create_software, deploy_software,
  get_current_license, CreateSoftwareRequest, DeploySoftwareRequest,
}
use rd_testing_project.Handlers.Updates.{
  get_latest_update, get_version_manifest, verify_signature, SignatureVerifyRequest, Signer,
  UpdateHandler,
}

-- What the decoder of a handler finds in the body of the request, by the type it decodes to.
pub record Payload : Type 0 where
  pub login : Decoded LoginRequest
  pub mfa : Decoded MfaVerifyRequest
  pub refresh_token : Decoded RefreshRequest
  pub invitation : Decoded CreateInvitationRequest
  pub handshake_body : Decoded AgentHandshakeRequest
  pub consent : Decoded ConsentDecisionRequest
  pub session : Decoded CreateSessionRequest
  pub termination : Decoded TerminateSessionRequest
  pub result : Decoded AgentCommandResultRequest
  pub command : Decoded CreateCommandRequest
  pub bulk_command : Decoded BulkCommandRequest
  pub sample : Decoded IngestTelemetryRequest
  pub group : Decoded CreateGroupRequest
  pub group_update : Decoded UpdateGroupRequest
  pub members : Decoded AssignDevicesRequest
  pub software : Decoded CreateSoftwareRequest
  pub deployment : Decoded DeploySoftwareRequest
  pub signature : Decoded SignatureVerifyRequest

-- The middlewares around a handler.
pub data Guard : Type 0 where
  unguarded authed : Guard
  needs : String → Guard

-- A pattern with the handler that mux.Handle or mux.HandleFunc gives it.
pub record Route : Type 0 where
  pub pattern : String
  pub guard : Guard
  pub handler : Request → Handler

abbrev route : String → Guard → (Request → Handler) → Route
route pattern guard handler = record { pattern = pattern; guard = guard; handler = handler }

module _ (c : Crypto) (secret : String) (signer : Signer) (keys : UpdateHandler) where
  unfoldable pub routes : Env → Payload → List Route
  routes env p =
      route "GET /healthz" unguarded (λ r. respond_json status_ok (health (env.now 0)))
      ∷ route "POST /api/v1/auth/login" unguarded (λ r. login_handler c secret env r p.login)
      ∷ route "POST /api/v1/auth/mfa/verify" unguarded (λ r. verify_mfa c secret env r p.mfa)
      ∷ route "POST /api/v1/auth/refresh" unguarded (λ r. refresh c secret env r p.refresh_token)
      ∷ route "POST /api/v1/enrollment/handshake" unguarded (λ r. handshake env r p.handshake_body)
      ∷ route "POST /api/v1/sessions/{sessionId}/consent" unguarded
          (λ r. handle_consent env r p.consent)
      ∷ route "POST /api/v1/agent/commands/{commandId}/result" unguarded
          (λ r. report_result env r p.result)
      ∷ route "POST /api/v1/auth/logout" authed (λ r. logout c secret env r p.refresh_token)
      ∷ route "GET /api/v1/auth/me" authed (λ r. me_handler c secret env r)
      ∷ route "POST /api/v1/enrollment/invitations" (needs "device.enroll")
          (λ r. create_invitation env r p.invitation)
      ∷ route "GET /api/v1/enrollment/invitations" (needs "device.enroll")
          (λ r. list_invitations env r)
      ∷ route "DELETE /api/v1/enrollment/invitations/{id}" (needs "device.enroll")
          (λ r. revoke_invitation env r)
      ∷ route "GET /api/v1/devices" (needs "device.view") (λ r. list_devices_handler env r)
      ∷ route "GET /api/v1/devices/{deviceId}" (needs "device.view") (λ r. get_device_handler env r)
      ∷ route "POST /api/v1/devices/{deviceId}/approve" (needs "device.approve")
          (λ r. approve_device env r)
      ∷ route "POST /api/v1/devices/{deviceId}/revoke" (needs "device.remove")
          (λ r. revoke_device env r)
      ∷ route "GET /api/v1/devices/{deviceId}/telemetry" (needs "device.view")
          (λ r. get_device_telemetry env r)
      ∷ route "POST /api/v1/telemetry/ingest" unguarded (λ r. ingest_telemetry env r p.sample)
      ∷ route "GET /api/v1/groups" (needs "group.view") (λ r. list_groups_handler env r)
      ∷ route "POST /api/v1/groups" (needs "group.manage") (λ r. create_group_handler env r p.group)
      ∷ route "GET /api/v1/groups/{id}" (needs "group.view") (λ r. get_group_handler env r)
      ∷ route "PATCH /api/v1/groups/{id}" (needs "group.manage")
          (λ r. update_group_handler env r p.group_update)
      ∷ route "DELETE /api/v1/groups/{id}" (needs "group.manage") (λ r. delete_group_handler env r)
      ∷ route "POST /api/v1/groups/{id}/devices" (needs "group.assign_device")
          (λ r. assign_devices env r p.members)
      ∷ route "DELETE /api/v1/groups/{id}/devices/{deviceId}" (needs "group.assign_device")
          (λ r. remove_device env r)
      ∷ route "POST /api/v1/devices/{deviceId}/sessions" (needs "device.remote")
          (λ r. create_session env r p.session)
      ∷ route "GET /api/v1/sessions" (needs "device.remote") (λ r. list_sessions env r)
      ∷ route "GET /api/v1/sessions/{sessionId}" (needs "device.remote") (λ r. get_session env r)
      ∷ route "POST /api/v1/sessions/{sessionId}/terminate" (needs "device.remote")
          (λ r. terminate_session env r p.termination)
      ∷ route "POST /api/v1/devices/{deviceId}/commands" authed
          (λ r. create_command_handler env r p.command)
      ∷ route "GET /api/v1/commands/{commandId}" (needs "device.view")
          (λ r. get_command_handler env r)
      ∷ route "POST /api/v1/bulk/commands" (needs "device.restart")
          (λ r. create_bulk_command env r p.bulk_command)
      ∷ route "GET /api/v1/alerts" (needs "alert.view") (λ r. list_alerts_handler env r)
      ∷ route "POST /api/v1/alerts/{id}/acknowledge" (needs "alert.manage")
          (λ r. acknowledge_alert_handler env r)
      ∷ route "GET /api/v1/software" (needs "device.software_manage") (λ r. list_software env r)
      ∷ route "POST /api/v1/software" (needs "device.software_manage")
          (λ r. create_software env r p.software)
      ∷ route "POST /api/v1/software/{id}/deploy" (needs "device.software_manage")
          (λ r. deploy_software env r p.deployment)
      ∷ route "GET /api/v1/licensing/current" (needs "license.view")
          (λ r. get_current_license env r)
      ∷ route "GET /api/v1/audit-logs" (needs "audit.view") (λ r. list_audit_logs_handler env r)
      ∷ route "GET /api/v1/agent/updates/latest" (needs "device.view")
          (λ r. get_latest_update env signer keys r)
      ∷ route "GET /api/v1/agent/updates/{version}/manifest" (needs "device.view")
          (λ r. get_version_manifest env signer keys r)
      ∷ route "POST /api/v1/agent/updates/verify-signature" unguarded
          (λ r. verify_signature env signer p.signature)
      ∷ []

  -- The handler of a route behind its middlewares; `now` is the time at which the token is read.
  unfoldable pub guarded_handler : Time → Route → Request → Handler
  guarded_handler now rt = elim rt.guard [
    | unguarded ↦ rt.handler
    | authed ↦ authenticate c now secret rt.handler
    | needs perm ↦ authenticate c now secret (require_permission perm rt.handler)
  ]
