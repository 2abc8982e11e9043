-- ===== src/Server/Effects/OfRoutes.antt =====
-- main.go: the effect of a request to any of the routes.
use rd_testing_project.Base.{
  some, ◌≡◌, sym, subst, refl, ap, All, ◌&◌, ℤ, String, nat_eq, string_eq,
}
use rd_testing_project.Store.{MemoryStore}
use rd_testing_project.Store.Frame.{core}
use rd_testing_project.Models.{active, revoked}
use rd_testing_project.Handlers.Auth.Frame.{
  core-login_handler, core-verify_mfa, core-refresh, core-logout, core-me_handler,
}
use rd_testing_project.Handlers.Enrollment.Frame.{
  core-create_invitation, core-list_invitations, core-revoke_invitation,
}
use rd_testing_project.Handlers.Sessions.Frame.{
  core-create_session, core-get_session, core-terminate_session, core-handle_consent,
  core-list_sessions,
}
use rd_testing_project.Handlers.Jobs.Frame.{
  core-create_command_handler, core-get_command_handler, core-create_bulk_command,
  core-report_result,
}
use rd_testing_project.Handlers.Devices.Frame.{
  core-list_devices_handler, core-get_device_handler, core-approve_device, core-revoke_device,
  core-list_audit_logs_handler,
}
use rd_testing_project.Handlers.Telemetry.Frame.{core-get_device_telemetry, core-ingest_telemetry}
use rd_testing_project.Handlers.Groups.Frame.{
  core-list_groups_handler, core-create_group_handler, core-get_group_handler,
  core-update_group_handler, core-delete_group_handler, core-assign_devices, core-remove_device,
}
use rd_testing_project.Handlers.Operations.Frame.{
  core-list_alerts_handler, core-acknowledge_alert_handler, core-list_software,
  core-create_software, core-deploy_software, core-get_current_license,
}
use rd_testing_project.Handlers.Updates.Frame.{
  get_latest_update_keeps, get_version_manifest_keeps, verify_signature_keeps,
}
use rd_testing_project.Handlers.Sessions.Writes.{
  create_session-Writes, handle_consent-Writes, terminate_session-Writes,
}
use rd_testing_project.Handlers.Devices.Transitions.{approve_device-Writes, revoke_device-Writes}
use rd_testing_project.Http.{Env, Request}
use rd_testing_project.Auth.{Crypto}
use rd_testing_project.Handlers.Auth.{login_handler, verify_mfa, refresh, logout, me_handler}
use rd_testing_project.Handlers.Enrollment.{create_invitation, list_invitations, revoke_invitation}
use rd_testing_project.Handlers.Sessions.{
  handle_consent, create_session, list_sessions, get_session, terminate_session,
}
use rd_testing_project.Handlers.Jobs.{
  report_result, create_command_handler, get_command_handler, create_bulk_command,
}
use rd_testing_project.Handlers.Devices.{
  list_devices_handler, get_device_handler, approve_device, revoke_device, list_audit_logs_handler,
}
use rd_testing_project.Handlers.Telemetry.{get_device_telemetry, ingest_telemetry}
use rd_testing_project.Handlers.Groups.{
  list_groups_handler, create_group_handler, get_group_handler, update_group_handler,
  delete_group_handler, assign_devices, remove_device,
}
use rd_testing_project.Handlers.Operations.{
  list_alerts_handler, acknowledge_alert_handler, list_software, create_software, deploy_software,
  get_current_license,
}
use rd_testing_project.Handlers.Updates.{
  get_latest_update, get_version_manifest, verify_signature, Signer, UpdateHandler,
}
use rd_testing_project.Server.{Incoming, serve}
use rd_testing_project.Server.Access.{find_route-all}
use rd_testing_project.Server.Reach.{IsLetIn, stopped, handled, serve-Reach, find_route-All}
use rd_testing_project.Server.Routes.{Payload, Route, routes, unguarded, authed, needs}
use rd_testing_project.Server.Effects.{
  Effect, approving, removing, of_nothing, of_devices, of_invitations, of_sessions,
}
use rd_testing_project.Server.Effects.OfHandlers.{
  Writes-DeviceEffect, ingest_telemetry-DeviceEffect, handshake-Effect,
  create_invitation-InvitationEffect, revoke_invitation-InvitationEffect,
}

-- The handler of the route has the effect that its guard allows.
abbrev pub HasEffect : Env → ℤ → Route → Type 0
HasEffect env limit rt =
    (r : Request) (m : MemoryStore) → Effect env limit rt.pattern rt.guard r m (rt.handler r m).1

module _ (c : Crypto) (secret : String) (signer : Signer) (keys : UpdateHandler) where
  pub routes-HasEffect :
      (env : Env) (p : Payload)
      → All (HasEffect env p.invitation.value.max_uses) (routes c secret signer keys env p)
  unfolding routes
  routes-HasEffect env p =
      (λ r m. of_nothing env p.invitation.value.max_uses unguarded r m m refl)
      & (λ r m.
          of_nothing env p.invitation.value.max_uses unguarded r m
            (login_handler c secret env r p.login m).1
            (core-login_handler c secret env r m p.login))
      & (λ r m.
          of_nothing env p.invitation.value.max_uses unguarded r m
            (verify_mfa c secret env r p.mfa m).1 (core-verify_mfa c secret env r m p.mfa))
      & (λ r m.
          of_nothing env p.invitation.value.max_uses unguarded r m
            (refresh c secret env r p.refresh_token m).1
            (core-refresh c secret env r m p.refresh_token))
      & (λ r m. handshake-Effect env unguarded r m p.invitation.value.max_uses p.handshake_body)
      & (λ r m.
          of_sessions env p.invitation.value.max_uses unguarded r m
            (handle_consent env r p.consent m).1 (core-handle_consent env r m p.consent)
            (handle_consent-Writes env r m p.consent))
      & (λ r m.
          of_nothing env p.invitation.value.max_uses unguarded r m
            (report_result env r p.result m).1 (core-report_result env r m p.result))
      & (λ r m.
          of_nothing env p.invitation.value.max_uses authed r m
            (logout c secret env r p.refresh_token m).1
            (core-logout c secret env r m p.refresh_token))
      & (λ r m.
          of_nothing env p.invitation.value.max_uses authed r m (me_handler c secret env r m).1
            (core-me_handler c secret env r m))
      & (λ r m.
          of_invitations env p.invitation.value.max_uses (needs "device.enroll") r m
            (create_invitation env r p.invitation m).1 (core-create_invitation env r m p.invitation)
            (create_invitation-InvitationEffect env (needs "device.enroll") r m p.invitation))
      & (λ r m.
          of_nothing env p.invitation.value.max_uses (needs "device.enroll") r m
            (list_invitations env r m).1 (core-list_invitations env r m))
      & (λ r m.
          of_invitations env p.invitation.value.max_uses (needs "device.enroll") r m
            (revoke_invitation env r m).1 (core-revoke_invitation env r m)
            (revoke_invitation-InvitationEffect env (needs "device.enroll") r m))
      & (λ r m.
          of_nothing env p.invitation.value.max_uses (needs "device.view") r m
            (list_devices_handler env r m).1 (core-list_devices_handler env r m))
      & (λ r m.
          of_nothing env p.invitation.value.max_uses (needs "device.view") r m
            (get_device_handler env r m).1 (core-get_device_handler env r m))
      & (λ r m.
          of_devices env p.invitation.value.max_uses (needs "device.approve") r m
            (approve_device env r m).1 (core-approve_device env r m)
            (Writes-DeviceEffect env (needs "device.approve") r active m (approve_device env r m).1
              approving (approve_device-Writes env r m)))
      & (λ r m.
          of_devices env p.invitation.value.max_uses (needs "device.remove") r m
            (revoke_device env r m).1 (core-revoke_device env r m)
            (Writes-DeviceEffect env (needs "device.remove") r revoked m (revoke_device env r m).1
              removing (revoke_device-Writes env r m)))
      & (λ r m.
          of_nothing env p.invitation.value.max_uses (needs "device.view") r m
            (get_device_telemetry env r m).1 (core-get_device_telemetry env r m))
      & (λ r m.
          of_devices env p.invitation.value.max_uses unguarded r m
            (ingest_telemetry env r p.sample m).1 (core-ingest_telemetry env r m p.sample)
            (ingest_telemetry-DeviceEffect env unguarded r m p.sample))
      & (λ r m.
          of_nothing env p.invitation.value.max_uses (needs "group.view") r m
            (list_groups_handler env r m).1 (core-list_groups_handler env r m))
      & (λ r m.
          of_nothing env p.invitation.value.max_uses (needs "group.manage") r m
            (create_group_handler env r p.group m).1 (core-create_group_handler env r m p.group))
      & (λ r m.
          of_nothing env p.invitation.value.max_uses (needs "group.view") r m
            (get_group_handler env r m).1 (core-get_group_handler env r m))
      & (λ r m.
          of_nothing env p.invitation.value.max_uses (needs "group.manage") r m
            (update_group_handler env r p.group_update m).1
            (core-update_group_handler env r m p.group_update))
      & (λ r m.
          of_nothing env p.invitation.value.max_uses (needs "group.manage") r m
            (delete_group_handler env r m).1 (core-delete_group_handler env r m))
      & (λ r m.
          of_nothing env p.invitation.value.max_uses (needs "group.assign_device") r m
            (assign_devices env r p.members m).1 (core-assign_devices env r m p.members))
      & (λ r m.
          of_nothing env p.invitation.value.max_uses (needs "group.assign_device") r m
            (remove_device env r m).1 (core-remove_device env r m))
      & (λ r m.
          of_sessions env p.invitation.value.max_uses (needs "device.remote") r m
            (create_session env r p.session m).1 (core-create_session env r m p.session)
            (create_session-Writes env r m p.session))
      & (λ r m.
          of_nothing env p.invitation.value.max_uses (needs "device.remote") r m
            (list_sessions env r m).1 (core-list_sessions env r m))
      & (λ r m.
          of_nothing env p.invitation.value.max_uses (needs "device.remote") r m
            (get_session env r m).1 (core-get_session env r m))
      & (λ r m.
          of_sessions env p.invitation.value.max_uses (needs "device.remote") r m
            (terminate_session env r p.termination m).1
            (core-terminate_session env r m p.termination)
            (terminate_session-Writes env r m p.termination))
      & (λ r m.
          of_nothing env p.invitation.value.max_uses authed r m
            (create_command_handler env r p.command m).1
            (core-create_command_handler env r m p.command))
      & (λ r m.
          of_nothing env p.invitation.value.max_uses (needs "device.view") r m
            (get_command_handler env r m).1 (core-get_command_handler env r m))
      & (λ r m.
          of_nothing env p.invitation.value.max_uses (needs "device.restart") r m
            (create_bulk_command env r p.bulk_command m).1
            (core-create_bulk_command env r m p.bulk_command))
      & (λ r m.
          of_nothing env p.invitation.value.max_uses (needs "alert.view") r m
            (list_alerts_handler env r m).1 (core-list_alerts_handler env r m))
      & (λ r m.
          of_nothing env p.invitation.value.max_uses (needs "alert.manage") r m
            (acknowledge_alert_handler env r m).1 (core-acknowledge_alert_handler env r m))
      & (λ r m.
          of_nothing env p.invitation.value.max_uses (needs "device.software_manage") r m
            (list_software env r m).1 (core-list_software env r m))
      & (λ r m.
          of_nothing env p.invitation.value.max_uses (needs "device.software_manage") r m
            (create_software env r p.software m).1 (core-create_software env r m p.software))
      & (λ r m.
          of_nothing env p.invitation.value.max_uses (needs "device.software_manage") r m
            (deploy_software env r p.deployment m).1 (core-deploy_software env r m p.deployment))
      & (λ r m.
          of_nothing env p.invitation.value.max_uses (needs "license.view") r m
            (get_current_license env r m).1 (core-get_current_license env r m))
      & (λ r m.
          of_nothing env p.invitation.value.max_uses (needs "audit.view") r m
            (list_audit_logs_handler env r m).1 (core-list_audit_logs_handler env r m))
      & (λ r m.
          of_nothing env p.invitation.value.max_uses (needs "device.view") r m
            (get_latest_update env signer keys r m).1
            (ap core (get_latest_update_keeps env signer m keys r)))
      & (λ r m.
          of_nothing env p.invitation.value.max_uses (needs "device.view") r m
            (get_version_manifest env signer keys r m).1
            (ap core (get_version_manifest_keeps env signer m keys r)))
      & (λ r m.
          of_nothing env p.invitation.value.max_uses unguarded r m
            (verify_signature env signer p.signature m).1
            (ap core (verify_signature_keeps env signer m p.signature)))
      & tt

  -- A request changes nothing, or has an effect that the guard of a route allows it.
  pub data Served (i : Incoming) (m : MemoryStore) : Type 0 where
    idle : (serve c secret signer keys i m).1 ≡ m → Served i m
    effective :
        (rt : Route) (r : Request)
        → i.matched ≡ some rt.pattern
        → IsLetIn c secret signer keys i rt.guard r
        → Effect i.env i.payload.invitation.value.max_uses rt.pattern rt.guard r m
            (serve c secret signer keys i m).1
        → Served i m

  pub serve-Served : (i : Incoming) (m : MemoryStore) → Served i m
  serve-Served i m = elim (serve-Reach c secret signer keys i m) [
    | stopped kept ↦ idle kept
    | handled rt r found let_in runs ↦
        effective rt r (find_route-all c secret signer keys i rt found).1 let_in (
          subst
            (λ out. Effect i.env i.payload.invitation.value.max_uses rt.pattern rt.guard r m out.1)
            (sym runs)
            (find_route-All c secret signer keys
              (HasEffect i.env i.payload.invitation.value.max_uses) i rt
              (routes-HasEffect i.env i.payload) found r m))
  ]
