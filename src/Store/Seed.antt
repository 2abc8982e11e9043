-- ===== src/Store/Seed.antt =====
-- store.go: NewMemoryStore, the store that a new server starts with. A UUID that uuid.MustParse
-- reads from a constant is written as its number, in hexadecimal; `now` gives the readings of the
-- clock in their order.
use rd_testing_project.Base.{
  ℕ, ◌+◌, ◌-◌, ◌*◌, String, true, false, none, some, List, [], ◌∷◌, pos, string_eq,
}
use rd_testing_project.Base.Maps.{Map}
use rd_testing_project.Models.{
  Uuid, Time, Organization, User, Device, active, License, Alert, bool, number, hour, minute,
}
use rd_testing_project.Store.{MemoryStore}

abbrev pub demo_org_id : Uuid
demo_org_id = 0x771e8bfbcf984c2898e30d6e6443c21a

abbrev pub demo_admin_id : Uuid
demo_admin_id = 0xc1f727769ec64f408b177435f3dfd720

abbrev pub dev1_id : Uuid
dev1_id = 0x90e722c1bb3e4623a12844fb6b907a01

abbrev pub dev2_id : Uuid
dev2_id = 0x90e722c1bb3e4623a12844fb6b907a02

abbrev lic_id : Uuid
lic_id = 0x990184a29c0144338822110099887766

abbrev alert_id : Uuid
alert_id = 0xaa11bb22cc3344dd55ee66ff77889900

unfoldable pub role_perms_seed : Map String (List String)
role_perms_seed =
    (
      "Owner",
      "organization.view" ∷ "organization.manage" ∷ "user.view" ∷ "user.manage" ∷ "device.view"
          ∷ "device.enroll" ∷ "device.approve" ∷ "device.remove" ∷ "device.remote"
          ∷ "device.file_transfer" ∷ "device.terminal" ∷ "device.restart" ∷ "device.software_manage"
          ∷ "group.view" ∷ "group.manage" ∷ "group.assign_device" ∷ "alert.view" ∷ "alert.manage"
          ∷ "audit.view" ∷ "license.view" ∷ "license.manage" ∷ [],
    )
    ∷ (
      "Administrator",
      "organization.view" ∷ "user.view" ∷ "user.manage" ∷ "device.view" ∷ "device.enroll"
          ∷ "device.approve" ∷ "device.remove" ∷ "device.remote" ∷ "device.file_transfer"
          ∷ "device.terminal" ∷ "device.restart" ∷ "device.software_manage" ∷ "group.view"
          ∷ "group.manage" ∷ "group.assign_device" ∷ "alert.view" ∷ "alert.manage" ∷ "audit.view"
          ∷ "license.view" ∷ [],
    )
    ∷ (
      "IT Support",
      "organization.view" ∷ "device.view" ∷ "device.remote" ∷ "device.file_transfer"
          ∷ "device.terminal" ∷ "device.restart" ∷ "group.view" ∷ "group.assign_device"
          ∷ "alert.view" ∷ "alert.manage" ∷ [],
    )
    ∷ (
      "Operator",
      "organization.view" ∷ "device.view" ∷ "group.view" ∷ "alert.view" ∷ "alert.manage" ∷ [],
    )
    ∷ ("Viewer", "organization.view" ∷ "device.view" ∷ "group.view" ∷ "alert.view" ∷ [])
    ∷ []

module _ (now : ℕ → Time) where
  unfoldable pub demo_org : Organization
  demo_org = record {
    id = demo_org_id;
    name = "Acme IT Academy";
    slug = "acme-academy";
    status = "ACTIVE";
    settings =
        some (
          ("require_remote_consent", bool true) ∷ ("telemetry_interval_sec", number (pos 15)) ∷ []);
    created_at = now 0;
    updated_at = now 1;
  }

  unfoldable pub demo_admin : User
  demo_admin = record {
    id = demo_admin_id;
    organization_id = demo_org_id;
    email = "admin@acme-academy.org";
    password_hash =
        "$argon2id$v=19$m=65536,t=3,p=4$dGVzdHNhbHQxMjM0NTY3OA$mJ0q/eH8gK4K5o4b0N7tTq1Jq0d2S8v7Y3m2k1p0e4E";
    full_name = "Lab Administrator";
    mfa_enabled = false;
    mfa_secret = none;
    status = "ACTIVE";
    last_login_at = none;
    created_at = now 2;
    updated_at = now 3;
  }

  unfoldable pub demo_device_1 : Device
  demo_device_1 = record {
    id = dev1_id;
    organization_id = demo_org_id;
    hostname = "EXAM-PC-01";
    friendly_name = some "Exam Station 01";
    os_name = "Windows 11 Pro";
    os_version = "10.0.22631";
    os_architecture = "x86_64";
    agent_version = "1.0.0";
    status = active;
    ip_address_public = none;
    ip_address_local = none;
    mac_address = none;
    serial_number = none;
    last_seen = some (now 4);
    uptime_seconds = pos 124000;
    created_at = now 4;
    updated_at = now 4;
  }

  unfoldable pub demo_device_2 : Device
  demo_device_2 = record {
    id = dev2_id;
    organization_id = demo_org_id;
    hostname = "EXAM-PC-02";
    friendly_name = some "Exam Station 02";
    os_name = "Windows 11 Pro";
    os_version = "10.0.22631";
    os_architecture = "x86_64";
    agent_version = "1.0.0";
    status = active;
    ip_address_public = none;
    ip_address_local = none;
    mac_address = none;
    serial_number = none;
    last_seen = some (now 4);
    uptime_seconds = pos 120000;
    created_at = now 4;
    updated_at = now 4;
  }

  unfoldable pub demo_license : License
  demo_license = record {
    id = lic_id;
    organization_id = demo_org_id;
    plan_code = "PLAN_50";
    max_devices = pos 50;
    features =
        "remote_control" ∷ "bulk_management" ∷ "file_transfer" ∷ "software_deploy" ∷ "audit_logs"
        ∷ [];
    valid_from = now 4 - 30 * 24 * hour;
    valid_until = now 4 + 335 * 24 * hour;
    grace_period_days = pos 7;
    status = "ACTIVE";
  }

  unfoldable pub demo_alert : Alert
  demo_alert = record {
    id = alert_id;
    organization_id = demo_org_id;
    device_id = some dev1_id;
    severity = "WARNING";
    alert_type = "CPU_HIGH";
    title = "High CPU Usage Warning";
    details = "Workstation EXAM-PC-01 has maintained 89% CPU usage for > 5 minutes.";
    acknowledged = false;
    acknowledged_by = none;
    acknowledged_at = none;
    created_at = now 4 - 10 * minute;
  }

  unfoldable pub new_memory_store : MemoryStore
  unfolding role_perms_seed demo_org demo_admin demo_device_1 demo_device_2 demo_license demo_alert
  new_memory_store = record {
    orgs = (demo_org_id, demo_org) ∷ [];
    users = (demo_admin_id, demo_admin) ∷ [];
    user_roles = (demo_admin_id, "Administrator") ∷ [];
    role_perms = role_perms_seed;
    refresh_tokens = [];
    devices = (dev1_id, demo_device_1) ∷ (dev2_id, demo_device_2) ∷ [];
    device_creds = [];
    groups = [];
    group_members = [];
    invitations = [];
    telemetry = [];
    sessions = [];
    commands = [];
    command_results = [];
    alerts = (alert_id, demo_alert) ∷ [];
    software_pkgs = [];
    deployments = [];
    licenses = (demo_org_id, demo_license) ∷ [];
    audit_logs = [];
  }
