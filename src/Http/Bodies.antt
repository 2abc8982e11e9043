-- ===== src/Http/Bodies.antt =====
-- The response types of services/api/internal/handlers, one constructor of `Body` for each shape
-- that a handler passes to respondJSON.
use rd_testing_project.Base.{ℕ, String, Bool, Option, List, ℤ}
use rd_testing_project.Models.{
  Uuid, Time, Device, DeviceStatus, DeviceGroup, DeviceTelemetry, EnrollmentInvitation,
  RemoteSession, Command, CommandResult, Alert, SoftwarePackage, License, AuditLog, User,
  Organization, GroupHealthSummary,
}

pub record CreateInvitationResponse : Type 0 where
  pub invitation_id : Uuid
  pub enrollment_token : String
  pub expires_at : Time
  pub max_uses : ℤ
  pub target_group_id : Option Uuid

pub record AgentHandshakeResponse : Type 0 where
  pub device_id : Uuid
  pub organization_id : Uuid
  pub organization_name : String
  pub status : DeviceStatus
  pub message : String

pub record IceServer : Type 0 where
  pub urls : String
  pub username : String
  pub credential : String

pub record CreateSessionResponse : Type 0 where
  pub session_id : Uuid
  pub device_id : Uuid
  pub status : String
  pub consent_prompt : Bool
  pub ice_servers : List IceServer
  pub visual_border : List (String × String)

pub record CreateCommandResponse : Type 0 where
  pub command_id : Uuid
  pub device_id : Uuid
  pub status : String
  pub nonce : String
  pub expires_at : Time

pub record BulkCommandResponse : Type 0 where
  pub total_queued : ℕ
  pub command_ids : List Uuid
  pub status : String

pub record TelemetryResponse : Type 0 where
  pub device_id : Uuid
  pub latest : Option DeviceTelemetry
  pub history : List DeviceTelemetry
  pub status : DeviceStatus
  pub last_seen : Option Time

pub record LicenseResponse : Type 0 where
  pub license : License
  pub enrolled_count : ℕ
  pub device_limit : ℤ
  pub seats_remaining : ℤ
  pub in_grace_period : Bool

pub record GroupDetailResponse : Type 0 where
  pub group : DeviceGroup
  pub health : Option GroupHealthSummary
  pub devices : List Device

pub record GroupListItem : Type 0 where
  pub group : DeviceGroup
  pub health : Option GroupHealthSummary

pub record LoginResponse : Type 0 where
  pub access_token : String
  pub refresh_token : String
  pub expires_in : ℕ
  pub mfa_required : Bool
  pub mfa_token : String
  pub user : Option User
  pub role : String

-- update_handler.go
pub record UpdatePackage : Type 0 where
  pub version : String
  pub platform : String
  pub download_url : String
  pub sha256_hex : String
  pub size_bytes : ℤ
  pub changelog_url : String
  pub min_api_version : String
  pub release_track : String

pub record AgentUpdateManifest : Type 0 where
  pub schema_version : String
  pub pkg : UpdatePackage
  pub signature : String
  pub public_key_hex : String
  pub issued_at : Time
  pub expires_at : Time

pub record SignatureVerifyResponse : Type 0 where
  pub valid : Bool
  pub message : String

-- `plain` is the text of http.Error, `health` the body of the health check.
pub data Body : Type 0 where
  plain : String → Body
  health : Time → Body
  manifest : AgentUpdateManifest → Body
  verification : SignatureVerifyResponse → Body
  error : String → Body
  strings : List (String × String) → Body
  counted : String → String → ℕ → Body
  device : Device → Body
  devices : List Device → Body
  audit_logs : List AuditLog → Body
  invitation_created : CreateInvitationResponse → Body
  invitations : List EnrollmentInvitation → Body
  enrolled : AgentHandshakeResponse → Body
  session_created : CreateSessionResponse → Body
  session : RemoteSession → Body
  sessions : List RemoteSession → Body
  command_created : CreateCommandResponse → Body
  command : Command → Option CommandResult → Body
  bulk : BulkCommandResponse → Body
  telemetry : TelemetryResponse → Body
  group : DeviceGroup → Body
  group_detail : GroupDetailResponse → Body
  groups : List GroupListItem → Body
  alerts : List Alert → Body
  package_created : SoftwarePackage → Body
  packages : List SoftwarePackage → Body
  license : LicenseResponse → Body
  login : LoginResponse → Body
  me : User → Organization → String → List String → Body
