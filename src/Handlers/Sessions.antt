-- ===== src/Handlers/Sessions.antt =====
-- services/api/internal/handlers/session_handler.go
pub mod Consent
pub mod Writes
pub mod Lifecycle
pub mod Frame
use rd_testing_project.Base.{
  String, Bool, true, false, not, Option, none, some, List, [], ◌∷◌, ◌==◌, ◌!=◌, nat_eq, string_eq,
  if◌then◌else◌, or_else, find?,
}
use rd_testing_project.Base.Maps.{get}
use rd_testing_project.Models.{
  Uuid, nil_uuid, Organization, RemoteSession, Value, text, bool, is_active, Dict,
}
use rd_testing_project.Store.{MemoryStore, Error, Result, ok, err}
use rd_testing_project.Store.Users.{get_organization}
use rd_testing_project.Store.Devices.{get_device}
use rd_testing_project.Store.Sessions.{
  create_remote_session, get_remote_session, update_remote_session_status, list_remote_sessions,
}
use rd_testing_project.Http.{
  Env, Request, Claims, Decoded, Handler, Step, ◌>>=◌, ◌>>◌, respond_json, respond_error, require,
  check, fetch, peek, perform, attempt, audit, authenticated, status_ok, status_created,
  bad_request, not_found, conflict, internal_error,
}
use rd_testing_project.Http.Bodies.{Body, IceServer, strings, session, sessions, session_created}

pub record CreateSessionRequest : Type 0 where
  pub mode : String
  pub require_consent : Option Bool

pub record ConsentDecisionRequest : Type 0 where
  pub decision : String
  pub reason : String

pub record TerminateSessionRequest : Type 0 where
  pub reason : String

-- settings["require_remote_consent"].(bool), if there are settings
abbrev pub bool_of : Option Value → Option Bool
bool_of (some (bool b)) = some b
bool_of _ = none

abbrev consent_setting : Option Dict → Option Bool
consent_setting none = none
consent_setting (some settings) = bool_of (get "require_remote_consent" settings)

abbrev pub org_setting : Result Organization → Option Bool
org_setting (ok org) = consent_setting org.settings
org_setting (err e) = none

-- The request's wish, else the organization's setting, else true.
unfoldable pub consent_required : Result Organization → Option Bool → Bool
consent_required org wish = or_else wish (or_else (org_setting org) true)

abbrev ice_server : String → IceServer
ice_server urls = record { urls = urls; username = ""; credential = "" }

abbrev sessions_of : Result (List RemoteSession) → List RemoteSession
sessions_of (ok found) = found
sessions_of (err e) = []

abbrev pub decided_status : String → String
decided_status decision = if decision == "DENIED" then "REJECTED" else "CONNECTED"

abbrev decided_action : String → String
decided_action decision =
    if decision == "DENIED" then "session.consent.denied" else "session.consent.granted"

abbrev org_of : Option Claims → Uuid
org_of none = nil_uuid
org_of (some claims) = claims.organization_id

abbrev user_of : Option Claims → Option Uuid
user_of none = none
user_of (some claims) = some claims.user_id

abbrev pub reason_given : String → String
reason_given reason = if reason == "" then "operator_disconnected" else reason

abbrev initial_status : Bool → String
initial_status consent = if not consent then "CONNECTED" else "REQUESTED"

-- The session that CreateSession stores.
unfoldable pub new_session : Env → Claims → Uuid → Bool → RemoteSession
new_session env claims device_id consent = record {
  id = env.new_id 0;
  organization_id = claims.organization_id;
  device_id = device_id;
  operator_user_id = claims.user_id;
  session_status = initial_status consent;
  started_at = if not consent then some (env.now 0) else none;
  ended_at = none;
  termination_reason = none;
  created_at = env.now 1;
}

module _ (env : Env) (r : Request) where
  unfoldable pub create_session : Decoded CreateSessionRequest → Handler
  unfolding consent_required new_session
  create_session body = do
    claims ← authenticated r
    device_id ←
        require (env.parse_uuid (r.path_value "deviceId")) bad_request "Invalid device ID format"
    dev ←
        fetch (get_device claims.organization_id device_id)
          (λ _. respond_error not_found "Device not found in tenant organization")
    check (is_active dev.status) conflict "Device must be ACTIVE to initiate remote session"
    org ← peek (get_organization claims.organization_id)
    let consent = consent_required org body.value.require_consent
    perform (create_remote_session (new_session env claims device_id consent)) internal_error
        "Failed to create remote session"
    audit r (env.now 2) claims.organization_id (some claims.user_id) "session.requested"
        "remote_session" (env.uuid_text (env.new_id 0)) "SUCCESS"
        (some (
          ("device_id", text (env.uuid_text device_id))
          ∷ ("hostname", text dev.hostname)
          ∷ ("consent_mandatory", bool consent)
          ∷ []))
    respond_json status_created (
        session_created (record {
          session_id = env.new_id 0;
          device_id = device_id;
          status = initial_status consent;
          consent_prompt = consent;
          ice_servers =
              ice_server "stun:stun.controlhub.local:3478"
              ∷ ice_server "stun:stun.l.google.com:19302"
              ∷ [];
          visual_border = ("enabled", "true") ∷ ("color", "#00FFFF") ∷ ("width", "4px") ∷ [];
        }))

  unfoldable pub get_session : Handler
  get_session = do
    claims ← authenticated r
    session_id ←
        require (env.parse_uuid (r.path_value "sessionId")) bad_request "Invalid session ID format"
    s ←
        fetch (get_remote_session claims.organization_id session_id)
          (λ _. respond_error not_found "Remote session not found")
    respond_json status_ok (session s)

  -- The loop over the sessions of the nil organization, for the one with the id.
  abbrev retry : Uuid → String → Option String → Option RemoteSession → Step (Unit {0})
  retry session_id status reason none k = k tt
  retry session_id status reason (some s) k =
      attempt (update_remote_session_status s.organization_id session_id status reason (env.now 1))
        k

  -- The status update of HandleConsent: if it fails, the sessions are searched.
  unfoldable pub record_decision : Uuid → String → Option String → Step (Unit {0})
  record_decision session_id status reason k m =
      elim (update_remote_session_status nil_uuid session_id status reason (env.now 0) m) [
        | ok m' ↦ k tt m'
        | err e ↦
            retry session_id status reason
              (find? (λ s. s.id == session_id) (sessions_of (list_remote_sessions nil_uuid m))) k m
      ]

  unfoldable pub handle_consent : Decoded ConsentDecisionRequest → Handler
  unfolding record_decision
  handle_consent body = do
    session_id ←
        require (env.parse_uuid (r.path_value "sessionId")) bad_request "Invalid session ID format"
    check (not body.failed) bad_request "Invalid JSON payload"
    let req = body.value
    let status = decided_status req.decision
    record_decision session_id status (some req.reason)
    audit r (env.now 2) nil_uuid none (decided_action req.decision) "remote_session"
        (env.uuid_text session_id) "SUCCESS"
        (some (("decision", text req.decision) ∷ ("reason", text req.reason) ∷ []))
    respond_json status_ok
        (strings (("session_id", env.uuid_text session_id) ∷ ("status", status) ∷ []))

  unfoldable pub terminate_session : Decoded TerminateSessionRequest → Handler
  terminate_session body = do
    session_id ←
        require (env.parse_uuid (r.path_value "sessionId")) bad_request "Invalid session ID format"
    let reason = reason_given body.value.reason
    attempt (
        update_remote_session_status (org_of r.claims) session_id "TERMINATED" (some reason)
          (env.now 0))
    audit r (env.now 1) (org_of r.claims) (user_of r.claims) "session.terminated" "remote_session"
        (env.uuid_text session_id) "SUCCESS" (some (("reason", text reason) ∷ []))
    respond_json status_ok (
        strings (
          ("session_id", env.uuid_text session_id)
          ∷ ("status", "TERMINATED")
          ∷ ("message", "Remote desktop session closed. Screen border cleared.")
          ∷ []))

  unfoldable pub list_sessions : Handler
  list_sessions = do
    claims ← authenticated r
    found ←
        fetch (list_remote_sessions claims.organization_id)
          (λ _. respond_error internal_error "Failed to list sessions")
    respond_json status_ok (sessions found)
