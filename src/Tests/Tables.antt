-- ===== src/Tests/Tables.antt =====
-- The statements of the PostgreSQL store on a small set of tables, and the two stores side by side.
use rd_testing_project.Base.{
  ℕ, ◌+◌, ◌≤◌, ◌≡◌, ◌≢◌, refl, true, false, Option, none, some, List, [], ◌∷◌, pos, arith, nat_eq,
}
use rd_testing_project.Base.Maps.{get}
use rd_testing_project.Models.{Uuid, DeviceGroup, DeviceTelemetry, revoked}
use rd_testing_project.Base.Sort.{order_by, insert_row}
use rd_testing_project.Postgres.Telemetry.{get_telemetry_history}
use rd_testing_project.Postgres.Telemetry.History.{IsHistory, get_telemetry_history-IsHistory}
use rd_testing_project.Store.{ok}
use rd_testing_project.Postgres.{Database, Query}
use rd_testing_project.Postgres.Groups.{cascade, deleted_with, set_null, delete_group}
use rd_testing_project.Postgres.Groups.Deletion.{DeleteOutcome, delete_group-DeleteOutcome}
use rd_testing_project.Postgres.Invitations.Quota.{
  Call, look_up, consume, uses_of, uses_of-le-max_uses,
}
use rd_testing_project.Postgres.Isolation.{
  Write, set_device, set_session, acknowledge, write_all, IsUntouched, write_all-IsUntouched,
}
use rd_testing_project.Fleet.{
  Call as Request, approve, revoke, serve_all, prescribe_all, serve_all-refines,
}
use rd_testing_project.Fleet.Memory.{memory_view, memory_devices}
use rd_testing_project.Fleet.Tables.{tables_view, database_devices, stores_agree}
use rd_testing_project.Tests.Fixtures.{fleet, acme, invitation, ended_session}

abbrev query : Query
query = record {
  down = λ _. false;
  now = 1000;
  clock = 1000;
  serial = pos 1;
  jsonb = λ v. v;
  numeric = λ x. x;
  timestamptz = λ t. t;
  inet = λ text. some text;
  average = λ _. 0;
  collate = λ _ _. true;
}

abbrev group_of : Uuid → Option Uuid → DeviceGroup
group_of id parent = record {
  id = id;
  organization_id = 1;
  name = "Lab";
  description = none;
  parent_group_id = parent;
  policy_overrides = none;
  created_at = 1;
}

-- Group 53 is below 52, which is below 51; the invitation leads to 53.
abbrev pub tables : Database
tables = record {
  organizations = (1, acme) ∷ [];
  users = [];
  roles = [];
  user_roles = [];
  role_permissions = [];
  refresh_tokens = [];
  devices = fleet.devices;
  device_credentials = [];
  device_groups =
      (51, group_of 51 none)
      ∷ (52, group_of 52 (some 51))
      ∷ (53, group_of 53 (some 52))
      ∷ (54, group_of 54 none)
      ∷ [];
  group_memberships = (51, 11) ∷ (53, 12) ∷ (54, 12) ∷ [];
  enrollment_invitations = (21, record invitation { target_group_id = some 53 }) ∷ [];
  device_telemetry = [];
  remote_sessions = (31, ended_session) ∷ [];
  commands = [];
  command_results = [];
  alerts = [];
  software_packages = [];
  software_deployments = [];
  licenses = [];
  audit_logs = [];
}

abbrev left : Database
left = record tables {
  device_groups = (54, group_of 54 none) ∷ [];
  group_memberships = (54, 12) ∷ [];
  enrollment_invitations = (21, invitation) ∷ [];
}

delete_group-tables : delete_group query 1 51 tables ≡ ok left
unfolding delete_group deleted_with cascade set_null get
delete_group-tables = refl

delete_group-DeleteOutcome_example : DeleteOutcome query 1 51 tables
delete_group-DeleteOutcome_example = delete_group-DeleteOutcome query 1 51 tables

abbrev redemptions : List (Query × Call)
redemptions =
    (query, look_up "digest")
    ∷ (query, look_up "digest")
    ∷ (query, consume 21)
    ∷ (query, consume 21)
    ∷ (query, consume 21)
    ∷ []

uses_of-le-max_uses_example : uses_of 21 redemptions tables + 0 ≤ 2
unfolding get
uses_of-le-max_uses_example =
    uses_of-le-max_uses 21 redemptions tables (record invitation { target_group_id = some 53 }) refl
      (omega arith, omega arith)

two_not_one : ◌≢◌ {A = ℕ} 2 1
two_not_one e = absurd (omega arith)

abbrev writes : List (Query × Uuid × Write)
writes =
    (query, 2, set_device 11 revoked)
    ∷ (query, 2, set_session 31 "CONNECTED" none)
    ∷ (query, 2, acknowledge 61 3)
    ∷ []

write_all-IsUntouched_example : IsUntouched 1 tables (write_all writes tables)
write_all-IsUntouched_example =
    write_all-IsUntouched 1 writes tables (two_not_one, (two_not_one, (two_not_one, tt)))

abbrev requests : List Request
requests = approve 1 11 ∷ approve 1 11 ∷ revoke 2 13 ∷ approve 1 13 ∷ revoke 1 13 ∷ []

serve_all-refines_example :
    ((serve_all memory_devices requests fleet).0 ≡ (prescribe_all requests (memory_view fleet)).0)
    × (memory_view (serve_all memory_devices requests fleet).1
        ≡ (prescribe_all requests (memory_view fleet)).1)
serve_all-refines_example = serve_all-refines memory_devices requests fleet

stores_agree_example :
    ((serve_all memory_devices requests fleet).0
      ≡ (serve_all (database_devices query (λ i. refl)) requests tables).0)
    × (memory_view (serve_all memory_devices requests fleet).1
        ≡ tables_view (serve_all (database_devices query (λ i. refl)) requests tables).1)
stores_agree_example = stores_agree query (λ i. refl) requests fleet tables refl

abbrev sample : Uuid → ℕ → DeviceTelemetry
sample org_id at = record {
  id = pos 1;
  organization_id = org_id;
  device_id = 11;
  cpu_percent = 0;
  ram_used_bytes = pos 0;
  ram_total_bytes = pos 0;
  ram_percent = 0;
  disk_used_bytes = pos 0;
  disk_total_bytes = pos 0;
  disk_percent = 0;
  network_rx_bytes_sec = pos 0;
  network_tx_bytes_sec = pos 0;
  recorded_at = at;
}

abbrev samples : List DeviceTelemetry
samples = sample 1 10 ∷ sample 1 30 ∷ sample 2 40 ∷ sample 1 20 ∷ []

abbrev measured : Database
measured = record tables { device_telemetry = samples }

get_telemetry_history-measured :
    get_telemetry_history query 1 11 (pos 2) measured ≡ ok (sample 1 30 ∷ sample 1 20 ∷ [])
unfolding get_telemetry_history order_by insert_row
get_telemetry_history-measured = refl

get_telemetry_history-IsHistory_example : IsHistory 1 11 2 samples (sample 1 30 ∷ sample 1 20 ∷ [])
get_telemetry_history-IsHistory_example =
    get_telemetry_history-IsHistory query 1 11 (pos 2) measured (sample 1 30 ∷ sample 1 20 ∷ [])
      get_telemetry_history-measured
