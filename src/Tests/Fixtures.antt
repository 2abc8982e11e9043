-- ===== src/Tests/Fixtures.antt =====
-- A small fleet: two organizations, a few devices, an invitation with two uses, and sessions.
use rd_testing_project.Base.{
  ℕ, zero, suc, ◌+◌, ◌==◌, String, true, false, Option, none, some, List, [], ◌∷◌, nat_eq,
  string_eq, if◌then◌else◌, pos,
}
use rd_testing_project.Models.{
  Uuid, Organization, Device, DeviceStatus, pending, active, revoked, EnrollmentInvitation,
  RemoteSession, Command,
}
use rd_testing_project.Store.{MemoryStore}
use rd_testing_project.Http.{Env, Library, Request, Claims, Decoded}

abbrev pub zeros : ℕ → List ℕ
zeros zero = []
zeros (suc n) = 0 ∷ zeros n

abbrev parse : String → Option Uuid
parse s =
    if s == "laptop"
    then some 11
    else if s == "desktop"
    then some 12
    else if s == "session"
    then some 31
    else if s == "command"
    then some 41
    else if s == "group"
    then some 51
    else none

abbrev pub library : Library
library = record {
  parse_uuid = parse;
  uuid_text = λ _. "uuid";
  atoi = λ _. none;
  hex_encode = λ _. "digest";
  hex_decode = λ _. some (zeros 32);
  sha256 = λ _. zeros 32;
}

abbrev pub env : Env
env = record {
  library = library;
  now = λ i. 1000 + i;
  new_id = λ i. 500 + i;
  random = λ _ n. record { value = zeros n; failed = false };
}

abbrev pub claims_of : Uuid → List String → Claims
claims_of org_id permissions = record {
  user_id = 3;
  organization_id = org_id;
  role = "Operator";
  permissions = permissions;
  expires_at = 9000;
  issued_at = 900;
  not_before = 900;
  issuer = "controlhub-auth-service";
  token_id = "jti";
}

abbrev pub request : Option Claims → (String → String) → Request
request claims path_value = record {
  authorization = "";
  claims = claims;
  path_value = path_value;
  query_value = λ _. "";
  remote_addr = "10.0.0.1";
  user_agent = "test";
}

abbrev pub device_of : Uuid → Uuid → DeviceStatus → Device
device_of id org_id status = record {
  id = id;
  organization_id = org_id;
  hostname = "EXAM-PC-01";
  friendly_name = none;
  os_name = "Windows 11 Pro";
  os_version = "10.0.22631";
  os_architecture = "x86_64";
  agent_version = "1.0.0";
  status = status;
  ip_address_public = none;
  ip_address_local = none;
  mac_address = none;
  serial_number = none;
  last_seen = none;
  uptime_seconds = pos 0;
  created_at = 1;
  updated_at = 1;
}

abbrev pub acme : Organization
acme = record {
  id = 1;
  name = "Acme IT Academy";
  slug = "acme-academy";
  status = "ACTIVE";
  settings = none;
  created_at = 1;
  updated_at = 1;
}

abbrev pub invitation : EnrollmentInvitation
invitation = record {
  id = 21;
  organization_id = 1;
  token_hash = "digest";
  target_group_id = none;
  requires_approval = true;
  max_uses = pos 2;
  times_used = pos 0;
  expires_at = 5000;
  created_by_user_id = none;
  created_at = 1;
}

abbrev pub ended_session : RemoteSession
ended_session = record {
  id = 31;
  organization_id = 1;
  device_id = 12;
  operator_user_id = 3;
  session_status = "TERMINATED";
  started_at = some 10;
  ended_at = some 20;
  termination_reason = some "operator_disconnected";
  created_at = 5;
}

abbrev pub queued_command : Command
queued_command = record {
  id = 41;
  organization_id = 1;
  device_id = 12;
  issued_by_user_id = 3;
  command_type = "REBOOT";
  parameters = none;
  status = "QUEUED";
  nonce = "n";
  expires_at = 5000;
  created_at = 5;
}

abbrev pub empty_store : MemoryStore
empty_store = record {
  orgs = [];
  users = [];
  user_roles = [];
  role_perms = [];
  refresh_tokens = [];
  devices = [];
  device_creds = [];
  groups = [];
  group_members = [];
  invitations = [];
  telemetry = [];
  sessions = [];
  commands = [];
  command_results = [];
  alerts = [];
  software_pkgs = [];
  deployments = [];
  licenses = [];
  audit_logs = [];
}

-- Device 11 of organization 1 is pending, 12 is active; device 13 of organization 2 is revoked.
abbrev pub fleet : MemoryStore
fleet = record empty_store {
  orgs = (1, acme) ∷ [];
  devices =
      (11, device_of 11 1 pending)
      ∷ (12, device_of 12 1 active)
      ∷ (13, device_of 13 2 revoked)
      ∷ [];
  invitations = (21, invitation) ∷ [];
  sessions = (31, ended_session) ∷ [];
  commands = (41, queued_command) ∷ [];
}

abbrev pub decoded {ℓ} : {A : Type ℓ} → A → Decoded A
decoded a = record { value = a; failed = false }
