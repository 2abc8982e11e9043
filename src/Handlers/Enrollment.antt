-- ===== src/Handlers/Enrollment.antt =====
-- services/api/internal/handlers/enrollment_handler.go
pub mod Interleaving
pub mod Quota
pub mod Admission
pub mod Issue
pub mod Frame
use rd_testing_project.Base.{
  ℕ, concat, String, Bool, true, false, not, Option, none, some, List, [], ◌∷◌, ◌==◌, ◌!=◌, ◌&&◌,
  nat_eq, string_eq, if◌then◌else◌, length, or_else, ℤ, pos, ltb_ℤ, leb_ℤ, int_scale,
}
use rd_testing_project.Models.{
  Uuid, Time, Device, DeviceStatus, active, pending, is_active, device_status_text, Value, text,
  number, bool, timestamp, hour, add_duration, EnrollmentInvitation,
}
use rd_testing_project.Store.{MemoryStore, Error, token_expired, token_exhausted}
use rd_testing_project.Store.Users.{get_organization}
use rd_testing_project.Store.Devices.{register_device}
use rd_testing_project.Store.Invitations.{
  create_enrollment_invitation, get_enrollment_invitation_by_hash, consume_enrollment_invitation,
  list_enrollment_invitations, delete_enrollment_invitation,
}
use rd_testing_project.Http.{
  Env, Request, Claims, Decoded, Handler, ◌>>=◌, ◌>>◌, respond_json, respond_error, require, check,
  fetch, perform, attempt, audit, authenticated, status_ok, status_created, bad_request, forbidden,
  not_found, internal_error,
}
use rd_testing_project.Http.Bodies.{Body, strings, invitation_created, invitations, enrolled}

pub record CreateInvitationRequest : Type 0 where
  pub target_group_id : Option Uuid
  pub expires_in_hours : ℤ
  pub max_uses : ℤ
  pub requires_approval : Option Bool

pub record AgentHandshakeRequest : Type 0 where
  pub enrollment_token : String
  pub hostname : String
  pub os_name : String
  pub os_version : String
  pub os_architecture : String
  pub agent_version : String
  pub public_key_hex : String

-- The two tests on ExpiresInHours, in their order.
unfoldable pub clamp_hours : ℤ → ℤ
clamp_hours h =
    let h' = if leb_ℤ h (pos 0) then pos 24 else h in if ltb_ℤ (pos 168) h' then pos 168 else h'

unfoldable pub default_uses : ℤ → ℤ
default_uses n = if leb_ℤ n (pos 0) then pos 1 else n

abbrev refuse_token : Error → Handler
refuse_token token_expired = respond_error forbidden "Enrollment token has expired"
refuse_token token_exhausted = respond_error forbidden "Enrollment token usage limit reached"
refuse_token _ = respond_error forbidden "Invalid enrollment token"

abbrev valid_key : Option (List ℕ) → Option (List ℕ)
valid_key none = none
valid_key (some bytes) = if length bytes != 32 then none else some bytes

abbrev pub new_token : Env → String
new_token env = concat "CH-ENROLL-" (env.hex_encode (env.random 0 16).value)

-- The invitation that CreateInvitation stores, with the hash of its token.
unfoldable pub new_invitation : Env → Claims → CreateInvitationRequest → EnrollmentInvitation
unfolding clamp_hours default_uses
new_invitation env claims req = record {
  id = env.new_id 0;
  organization_id = claims.organization_id;
  token_hash = env.hex_encode (env.sha256 (new_token env));
  target_group_id = req.target_group_id;
  requires_approval = or_else req.requires_approval true;
  max_uses = default_uses req.max_uses;
  times_used = pos 0;
  expires_at = add_duration (env.now 0) (int_scale (clamp_hours req.expires_in_hours) hour);
  created_by_user_id = some claims.user_id;
  created_at = env.now 1;
}

-- The device that a handshake under `inv` registers.
abbrev pub new_device : Env → AgentHandshakeRequest → EnrollmentInvitation → Device
new_device env req inv = record {
  id = env.new_id 0;
  organization_id = inv.organization_id;
  hostname = req.hostname;
  friendly_name = none;
  os_name = req.os_name;
  os_version = req.os_version;
  os_architecture = req.os_architecture;
  agent_version = req.agent_version;
  status = if not inv.requires_approval then active else pending;
  ip_address_public = none;
  ip_address_local = none;
  mac_address = none;
  serial_number = none;
  last_seen = some (env.now 1);
  uptime_seconds = pos 0;
  created_at = env.now 1;
  updated_at = env.now 1;
}

module _ (env : Env) (r : Request) where
  unfoldable pub create_invitation : Decoded CreateInvitationRequest → Handler
  unfolding new_invitation
  create_invitation body = do
    claims ← authenticated r
    check (not body.failed) bad_request "Invalid JSON body"
    let req = body.value
    check (not (env.random 0 16).failed) internal_error "Failed to generate token entropy"
    let inv = new_invitation env claims req
    perform (create_enrollment_invitation inv) internal_error "Failed to save invitation"
    audit r (env.now 2) claims.organization_id (some claims.user_id) "device.invitation.created"
        "enrollment_invitation" (env.uuid_text (env.new_id 0)) "SUCCESS"
        (some (
          ("max_uses", number inv.max_uses)
          ∷ ("expires_at", timestamp inv.expires_at)
          ∷ ("requires_approval", bool inv.requires_approval)
          ∷ []))
    respond_json status_created (
        invitation_created (record {
          invitation_id = env.new_id 0;
          enrollment_token = new_token env;
          expires_at = inv.expires_at;
          max_uses = inv.max_uses;
          target_group_id = req.target_group_id;
        }))

  unfoldable pub list_invitations : Handler
  list_invitations = do
    claims ← authenticated r
    invs ←
        fetch (list_enrollment_invitations claims.organization_id)
          (λ _. respond_error internal_error "Failed to query invitations")
    respond_json status_ok (invitations invs)

  unfoldable pub revoke_invitation : Handler
  revoke_invitation = do
    claims ← authenticated r
    inv_id ← require (env.parse_uuid (r.path_value "id")) bad_request "Invalid invitation ID format"
    perform (delete_enrollment_invitation claims.organization_id inv_id) not_found
        "Invitation not found or unauthorized"
    audit r (env.now 0) claims.organization_id (some claims.user_id) "device.invitation.revoked"
        "enrollment_invitation" (env.uuid_text inv_id) "SUCCESS" none
    respond_json status_ok (strings (("message", "Enrollment invitation revoked") ∷ []))

  -- Handshake, from the found invitation on.
  unfoldable pub enroll : AgentHandshakeRequest → List ℕ → EnrollmentInvitation → Handler
  enroll req pub_key inv = do
    attempt (consume_enrollment_invitation inv.id)
    org ←
        fetch (get_organization inv.organization_id)
          (λ _. respond_error internal_error "Associated organization unavailable")
    let dev = new_device env req inv
    perform (register_device dev pub_key) internal_error "Failed to register endpoint device"
    audit r (env.now 2) inv.organization_id none "device.enrolled" "device"
        (env.uuid_text (env.new_id 0)) "SUCCESS"
        (some (
          ("hostname", text req.hostname)
          ∷ ("os_name", text req.os_name)
          ∷ ("agent_version", text req.agent_version)
          ∷ ("initial_status", text (device_status_text dev.status))
          ∷ ("invitation_id", text (env.uuid_text inv.id))
          ∷ ("requires_approval", bool inv.requires_approval)
          ∷ []))
    respond_json status_created (
        enrolled (record {
          device_id = env.new_id 0;
          organization_id = inv.organization_id;
          organization_name = org.name;
          status = dev.status;
          message =
              if is_active dev.status
              then "Device successfully enrolled and active."
              else "Device successfully enrolled and awaiting administrator approval.";
        }))

  unfoldable pub handshake : Decoded AgentHandshakeRequest → Handler
  unfolding enroll
  handshake body = do
    check (not body.failed) bad_request "Invalid JSON payload"
    let req = body.value
    check (req.enrollment_token != "" && req.public_key_hex != "" && req.hostname != "") bad_request
        "Missing required enrollment fields (token, hostname, public_key)"
    pub_key ←
        require (valid_key (env.hex_decode req.public_key_hex)) bad_request
          "Invalid Ed25519 public key format. Must be 32 bytes hex encoded."
    inv ←
        fetch
          (get_enrollment_invitation_by_hash (env.hex_encode (env.sha256 req.enrollment_token))
            (env.now 0))
          refuse_token
    enroll req pub_key inv
