-- ===== src/Server/Errors.antt =====
-- main.go: what a request leaves that any of the routes answers with an error.
use rd_testing_project.Base.{◌≡◌, ◌≤◌, sym, subst, refl, All, ◌&◌, String, nat_eq, string_eq, arith}
use rd_testing_project.Base.Maps.{update}
use rd_testing_project.Store.{MemoryStore}
use rd_testing_project.Models.{Uuid}
use rd_testing_project.Store.Invitations.{use_once}
use rd_testing_project.Store.Frame.{IsUntouched}
use rd_testing_project.Handlers.Auth.Frame.{
  login_handler-IsUntouched, verify_mfa-IsUntouched, refresh-IsUntouched, logout-IsUntouched,
  me_handler-IsUntouched,
}
use rd_testing_project.Handlers.Enrollment.Frame.{
  create_invitation-IsUntouched, list_invitations-IsUntouched, revoke_invitation-IsUntouched,
}
use rd_testing_project.Handlers.Sessions.Frame.{
  create_session-IsUntouched, get_session-IsUntouched, terminate_session-IsUntouched,
  handle_consent-IsUntouched, list_sessions-IsUntouched,
}
use rd_testing_project.Handlers.Jobs.Frame.{
  create_command_handler-IsUntouched, get_command_handler-IsUntouched,
  create_bulk_command-IsUntouched, report_result-IsUntouched,
}
use rd_testing_project.Handlers.Devices.Frame.{
  list_devices_handler-IsUntouched, get_device_handler-IsUntouched, approve_device-IsUntouched,
  revoke_device-IsUntouched, list_audit_logs_handler-IsUntouched,
}
use rd_testing_project.Handlers.Telemetry.Frame.{
  get_device_telemetry-IsUntouched, ingest_telemetry-IsUntouched,
}
use rd_testing_project.Handlers.Groups.Frame.{
  list_groups_handler-IsUntouched, create_group_handler-IsUntouched, get_group_handler-IsUntouched,
  update_group_handler-IsUntouched, delete_group_handler-IsUntouched, assign_devices-IsUntouched,
  remove_device-IsUntouched,
}
use rd_testing_project.Handlers.Operations.Frame.{
  list_alerts_handler-IsUntouched, acknowledge_alert_handler-IsUntouched, list_software-IsUntouched,
  create_software-IsUntouched, deploy_software-IsUntouched, get_current_license-IsUntouched,
}
use rd_testing_project.Handlers.Updates.Frame.{
  get_latest_update_keeps, get_version_manifest_keeps, verify_signature_keeps,
}
use rd_testing_project.Handlers.Enrollment.Admission.{
  refused, stranded, admitted, handshake-Outcome,
}
use rd_testing_project.Http.{Response, internal_error, Env, Request, Decoded}
use rd_testing_project.Auth.{Crypto}
use rd_testing_project.Handlers.Enrollment.{handshake, AgentHandshakeRequest}
use rd_testing_project.Handlers.Updates.{
  get_latest_update, get_version_manifest, verify_signature, Signer, UpdateHandler,
}
use rd_testing_project.Server.{Incoming, serve}
use rd_testing_project.Server.Reach.{stopped, handled, serve-Reach, find_route-All}
use rd_testing_project.Server.Routes.{Payload, Route, routes}

-- What is left of `m` by a request that is answered with an error.
pub data Refusal (m : MemoryStore) (out : Response × MemoryStore) : Type 0 where
  untouched : IsUntouched m out.1 → Refusal m out
  use_lost :
      (id : Uuid)
      → out.0.status ≡ internal_error
      → out.1 ≡ record m { invitations = update id use_once m.invitations }
      → Refusal m out

pub of_kept : (m : MemoryStore) (out : Response × MemoryStore) → out.1 ≡ m → Refusal m out
of_kept m out e = untouched (ground arith)

handshake-Refusal :
    (env : Env) (r : Request) (m : MemoryStore) (body : Decoded AgentHandshakeRequest)
    → 400 ≤ (handshake env r body m).0.status
    → Refusal m (handshake env r body m)
handshake-Refusal env r m body h = elim (handshake-Outcome env r body m) [
  | refused _ kept ↦ of_kept m (handshake env r body m) kept
  | stranded inv _ code kept ↦ use_lost inv.id code kept
  | admitted inv key org _ _ _ code _ _ _ ↦ absurd (ground arith)
]

abbrev pub Refuses : Route → Type 0
Refuses rt =
    (r : Request) (m : MemoryStore) → 400 ≤ (rt.handler r m).0.status → Refusal m (rt.handler r m)

module _ (c : Crypto) (secret : String) (signer : Signer) (keys : UpdateHandler) where
  pub routes-Refuses : (env : Env) (p : Payload) → All Refuses (routes c secret signer keys env p)
  unfolding routes
  routes-Refuses env p =
      (λ r m h. untouched refl)
      & (λ r m h. untouched (login_handler-IsUntouched c secret env r m p.login h))
      & (λ r m h. untouched (verify_mfa-IsUntouched c secret env r m p.mfa h))
      & (λ r m h. untouched (refresh-IsUntouched c secret env r m p.refresh_token h))
      & (λ r m h. handshake-Refusal env r m p.handshake_body h)
      & (λ r m h. untouched (handle_consent-IsUntouched env r m p.consent h))
      & (λ r m h. untouched (report_result-IsUntouched env r m p.result h))
      & (λ r m h. untouched (logout-IsUntouched c secret env r m p.refresh_token h))
      & (λ r m h. untouched (me_handler-IsUntouched c secret env r m h))
      & (λ r m h. untouched (create_invitation-IsUntouched env r m p.invitation h))
      & (λ r m h. untouched (list_invitations-IsUntouched env r m h))
      & (λ r m h. untouched (revoke_invitation-IsUntouched env r m h))
      & (λ r m h. untouched (list_devices_handler-IsUntouched env r m h))
      & (λ r m h. untouched (get_device_handler-IsUntouched env r m h))
      & (λ r m h. untouched (approve_device-IsUntouched env r m h))
      & (λ r m h. untouched (revoke_device-IsUntouched env r m h))
      & (λ r m h. untouched (get_device_telemetry-IsUntouched env r m h))
      & (λ r m h. untouched (ingest_telemetry-IsUntouched env r m p.sample h))
      & (λ r m h. untouched (list_groups_handler-IsUntouched env r m h))
      & (λ r m h. untouched (create_group_handler-IsUntouched env r m p.group h))
      & (λ r m h. untouched (get_group_handler-IsUntouched env r m h))
      & (λ r m h. untouched (update_group_handler-IsUntouched env r m p.group_update h))
      & (λ r m h. untouched (delete_group_handler-IsUntouched env r m h))
      & (λ r m h. untouched (assign_devices-IsUntouched env r m p.members h))
      & (λ r m h. untouched (remove_device-IsUntouched env r m h))
      & (λ r m h. untouched (create_session-IsUntouched env r m p.session h))
      & (λ r m h. untouched (list_sessions-IsUntouched env r m h))
      & (λ r m h. untouched (get_session-IsUntouched env r m h))
      & (λ r m h. untouched (terminate_session-IsUntouched env r m p.termination h))
      & (λ r m h. untouched (create_command_handler-IsUntouched env r m p.command h))
      & (λ r m h. untouched (get_command_handler-IsUntouched env r m h))
      & (λ r m h. untouched (create_bulk_command-IsUntouched env r m p.bulk_command h))
      & (λ r m h. untouched (list_alerts_handler-IsUntouched env r m h))
      & (λ r m h. untouched (acknowledge_alert_handler-IsUntouched env r m h))
      & (λ r m h. untouched (list_software-IsUntouched env r m h))
      & (λ r m h. untouched (create_software-IsUntouched env r m p.software h))
      & (λ r m h. untouched (deploy_software-IsUntouched env r m p.deployment h))
      & (λ r m h. untouched (get_current_license-IsUntouched env r m h))
      & (λ r m h. untouched (list_audit_logs_handler-IsUntouched env r m h))
      & (λ r m h.
          of_kept m (get_latest_update env signer keys r m)
            (get_latest_update_keeps env signer m keys r))
      & (λ r m h.
          of_kept m (get_version_manifest env signer keys r m)
            (get_version_manifest_keeps env signer m keys r))
      & (λ r m h.
          of_kept m (verify_signature env signer p.signature m)
            (verify_signature_keeps env signer m p.signature))
      & tt

  -- A request to the API server that is answered with an error, a status of 400 or above, leaves
  -- all of the store but the audit log and the refresh tokens as it was; or it is answered 500 and
  -- has changed nothing but one count of uses of an invitation.
  pub serve-Refusal :
      (i : Incoming) (m : MemoryStore)
      → 400 ≤ (serve c secret signer keys i m).0.status
      → Refusal m (serve c secret signer keys i m)
  serve-Refusal i m h = elim (serve-Reach c secret signer keys i m) [
    | stopped same ↦ of_kept m (serve c secret signer keys i m) same
    | handled rt r found _ runs ↦ subst (Refusal m) (sym runs) (
        find_route-All c secret signer keys Refuses i rt (routes-Refuses i.env i.payload) found r m
          (subst (λ out. 400 ≤ out.0.status) runs h))
  ]
