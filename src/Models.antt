-- ===== src/Models.antt =====
-- services/api/internal/models/models.go and the records of store.go.
-- A UUID is the number of its 128 bits, `uuid.Nil` is 0. A `time.Time` is its nanoseconds since
-- the year 1, Go's zero time. A `float64` is its bit pattern: nothing in the code computes with
-- one. A JSON `interface{}` is a `Value`. A pointer that may be nil is an `Option`.
use rd_testing_project.Base.{
  ℕ, ◌+◌, ◌-◌, suc, String, Bool, false, true, Option, List, ℤ, pos, negsuc,
}
use rd_testing_project.Base.Maps.{Map}

abbrev pub Uuid : Type 0
Uuid = ℕ

abbrev pub nil_uuid : Uuid
nil_uuid = 0

abbrev pub Time : Type 0
Time = ℕ

abbrev pub Float64 : Type 0
Float64 = ℕ

-- time.Second, time.Minute and time.Hour
abbrev pub second : ℕ
second = 1000000000

abbrev pub minute : ℕ
minute = 60000000000

abbrev pub hour : ℕ
hour = 3600000000000

-- `t.Add(d)`, for a `t` at least as long after the year 1 as `d` reaches back.
abbrev pub add_duration : Time → ℤ → Time
add_duration t (pos d) = t + d
add_duration t (negsuc d) = t - suc d

mutual
  pub data Value : Type 0 where
    null : Value
    bool : Bool → Value
    number : ℤ → Value
    text : String → Value
    timestamp : Time → Value
    array : Values → Value
    object : Fields → Value

  pub data Values : Type 0 where
    nil : Values
    cons : Value → Values → Values

  pub data Fields : Type 0 where
    end : Fields
    field : String → Value → Fields → Fields

-- map[string]interface{}, `none` for the nil map
abbrev pub Dict : Type 0
Dict = Map String Value

pub record Organization : Type 0 where
  pub id : Uuid
  pub name : String
  pub slug : String
  pub status : String
  pub settings : Option Dict
  pub created_at : Time
  pub updated_at : Time

pub record User : Type 0 where
  pub id : Uuid
  pub organization_id : Uuid
  pub email : String
  pub password_hash : String
  pub full_name : String
  pub mfa_enabled : Bool
  pub mfa_secret : Option String
  pub status : String
  pub last_login_at : Option Time
  pub created_at : Time
  pub updated_at : Time

pub data DeviceStatus : Type 0 where
  pending active offline disabled revoked removed : DeviceStatus

abbrev pub is_active : DeviceStatus → Bool
is_active active = true
is_active _ = false

abbrev pub is_pending : DeviceStatus → Bool
is_pending pending = true
is_pending _ = false

-- the string that the constant stands for
abbrev pub device_status_text : DeviceStatus → String
device_status_text pending = "PENDING"
device_status_text active = "ACTIVE"
device_status_text offline = "OFFLINE"
device_status_text disabled = "DISABLED"
device_status_text revoked = "REVOKED"
device_status_text removed = "REMOVED"

pub record Device : Type 0 where
  pub id : Uuid
  pub organization_id : Uuid
  pub hostname : String
  pub friendly_name : Option String
  pub os_name : String
  pub os_version : String
  pub os_architecture : String
  pub agent_version : String
  pub status : DeviceStatus
  pub ip_address_public : Option String
  pub ip_address_local : Option String
  pub mac_address : Option String
  pub serial_number : Option String
  pub last_seen : Option Time
  pub uptime_seconds : ℤ
  pub created_at : Time
  pub updated_at : Time

pub record DeviceGroup : Type 0 where
  pub id : Uuid
  pub organization_id : Uuid
  pub parent_group_id : Option Uuid
  pub name : String
  pub description : Option String
  pub policy_overrides : Option Dict
  pub created_at : Time

pub record EnrollmentInvitation : Type 0 where
  pub id : Uuid
  pub organization_id : Uuid
  pub token_hash : String
  pub target_group_id : Option Uuid
  pub requires_approval : Bool
  pub max_uses : ℤ
  pub times_used : ℤ
  pub expires_at : Time
  pub created_by_user_id : Option Uuid
  pub created_at : Time

pub record DeviceTelemetry : Type 0 where
  pub id : ℤ
  pub organization_id : Uuid
  pub device_id : Uuid
  pub cpu_percent : Float64
  pub ram_used_bytes : ℤ
  pub ram_total_bytes : ℤ
  pub ram_percent : Float64
  pub disk_used_bytes : ℤ
  pub disk_total_bytes : ℤ
  pub disk_percent : Float64
  pub network_rx_bytes_sec : ℤ
  pub network_tx_bytes_sec : ℤ
  pub recorded_at : Time

pub record RemoteSession : Type 0 where
  pub id : Uuid
  pub organization_id : Uuid
  pub device_id : Uuid
  pub operator_user_id : Uuid
  pub session_status : String
  pub started_at : Option Time
  pub ended_at : Option Time
  pub termination_reason : Option String
  pub created_at : Time

pub record Command : Type 0 where
  pub id : Uuid
  pub organization_id : Uuid
  pub device_id : Uuid
  pub issued_by_user_id : Uuid
  pub command_type : String
  pub parameters : Option Dict
  pub status : String
  pub nonce : String
  pub expires_at : Time
  pub created_at : Time

pub record CommandResult : Type 0 where
  pub command_id : Uuid
  pub exit_code : ℤ
  pub stdout_output : String
  pub stderr_output : String
  pub execution_duration_ms : ℤ
  pub completed_at : Time

pub record Alert : Type 0 where
  pub id : Uuid
  pub organization_id : Uuid
  pub device_id : Option Uuid
  pub severity : String
  pub alert_type : String
  pub title : String
  pub details : String
  pub acknowledged : Bool
  pub acknowledged_by : Option Uuid
  pub acknowledged_at : Option Time
  pub created_at : Time

pub record SoftwarePackage : Type 0 where
  pub id : Uuid
  pub organization_id : Uuid
  pub name : String
  pub version : String
  pub installer_url : String
  pub sha256_hash : String
  pub silent_install_args : String
  pub created_at : Time

pub record SoftwareDeployment : Type 0 where
  pub id : Uuid
  pub organization_id : Uuid
  pub package_id : Uuid
  pub device_id : Uuid
  pub status : String
  pub created_at : Time

pub record License : Type 0 where
  pub id : Uuid
  pub organization_id : Uuid
  pub plan_code : String
  pub max_devices : ℤ
  pub features : List String
  pub valid_from : Time
  pub valid_until : Time
  pub grace_period_days : ℤ
  pub status : String

pub record AuditLog : Type 0 where
  pub id : ℤ
  pub organization_id : Uuid
  pub actor_user_id : Option Uuid
  pub action : String
  pub resource_type : String
  pub resource_id : String
  pub ip_address : Option String
  pub user_agent : Option String
  pub status : String
  pub metadata : Option Dict
  pub created_at : Time

-- store.RefreshToken
pub record RefreshToken : Type 0 where
  pub token : String
  pub user_id : Uuid
  pub organization_id : Uuid
  pub expires_at : Time
  pub revoked : Bool

-- store.GroupHealthSummary
pub record GroupHealthSummary : Type 0 where
  pub group_id : Uuid
  pub group_name : String
  pub total_devices : ℤ
  pub online_devices : ℤ
  pub offline_devices : ℤ
  pub avg_cpu_percent : Float64
  pub avg_ram_percent : Float64
