-- ===== src/Postgres/Groups.antt =====
-- postgres_store.go: device groups, their members and their health.
pub mod Cascade
pub mod Deletion
use rd_testing_project.Base.{
  ℕ, zero, suc, String, Bool, true, false, not, Option, none, some, List, [], ◌∷◌, ◌++◌, ◌&&◌, ◌||◌,
  ◌==◌, ◌!=◌, ltb, leb, nat_eq, string_eq, if◌then◌else◌, keep, any, find?, is_some, length, ℤ, pos,
  negsuc,
}
use rd_testing_project.Base.Maps.{Map, get, put, update, delete, values}
use rd_testing_project.Base.Sort.{order_by}
use rd_testing_project.Models.{
  Uuid, Float64, Dict, Device, DeviceGroup, DeviceTelemetry, GroupHealthSummary,
  EnrollmentInvitation, is_active,
}
use rd_testing_project.Store.{Error, unauthorized, Result, ok, err, ◌>>=◌}
use rd_testing_project.Postgres.{
  Database, Query, from_statement, query_row, query_all, exec, exec_affecting, of_org, has,
  has_or_null,
}
use rd_testing_project.Postgres.Devices.{get_device}

abbrev pub org_of_group : DeviceGroup → Uuid
org_of_group g = g.organization_id

-- UNIQUE(organization_id, name), where the row `id` is left out.
abbrev is_taken : Uuid → Uuid → String → Map Uuid DeviceGroup → Bool
is_taken id org_id name groups =
    any (λ g. g.id != id && g.organization_id == org_id && g.name == name) (values groups)

abbrev pub among : Uuid → List Uuid → Bool
among id ids = any (λ j. j == id) ids

-- ON DELETE CASCADE and ON DELETE SET NULL: the column names a row that is deleted.
abbrev pub names_one : List Uuid → Option Uuid → Bool
names_one deleted none = false
names_one deleted (some id) = among id deleted

abbrev pub is_below : List Uuid → Uuid × DeviceGroup → Bool
is_below deleted (id, g) = names_one deleted g.parent_group_id

abbrev pub ids_of : Map Uuid DeviceGroup → List Uuid
ids_of [] = []
ids_of ((id, g) ∷ rest) = id ∷ ids_of rest

-- The ids that a DELETE takes with it, from those deleted so far and the rows left: one round
-- deletes the rows whose parent is deleted.
unfoldable pub cascade : ℕ → List Uuid → Map Uuid DeviceGroup → List Uuid
cascade zero deleted rest = deleted
cascade (suc n) deleted rest =
    cascade n (ids_of (keep (is_below deleted) rest) ++ deleted)
      (keep (λ row. not (is_below deleted row)) rest)

unfoldable pub deleted_with : Uuid → Map Uuid DeviceGroup → List Uuid
unfolding cascade
deleted_with id groups = cascade (length groups) (id ∷ []) groups

-- ON DELETE SET NULL on target_group_id.
abbrev pub target_left : List Uuid → EnrollmentInvitation → EnrollmentInvitation
target_left deleted inv =
    if names_one deleted inv.target_group_id then record inv { target_group_id = none } else inv

unfoldable pub set_null : List Uuid → Map Uuid EnrollmentInvitation → Map Uuid EnrollmentInvitation
set_null deleted [] = []
set_null deleted ((id, inv) ∷ rest) = (id, target_left deleted inv) ∷ set_null deleted rest

abbrev member_row : Uuid → Uuid → Uuid × Uuid → Bool
member_row group_id device_id (g, d) = g == group_id && d == device_id

-- FROM devices d JOIN group_memberships gm ON gm.device_id = d.id WHERE gm.group_id = $1
unfoldable pub join_members : Uuid → Map Uuid Device → List (Uuid × Uuid) → List Device
join_members group_id devices [] = []
join_members group_id devices ((g, d) ∷ rest) =
    let more = join_members group_id devices rest in
    if g == group_id then elim (get d devices) [ none ↦ more | some dev ↦ dev ∷ more ] else more

-- t.recorded_at = (SELECT MAX(…) …), for the device of the row.
abbrev is_latest : List DeviceTelemetry → DeviceTelemetry → Bool
is_latest rows t =
    not (any (λ u. u.device_id == t.device_id && ltb t.recorded_at u.recorded_at) rows)

-- COALESCE(AVG(…), 0); a zero float is the bit pattern 0.
abbrev average_or_zero : Query → List Float64 → Float64
average_or_zero q [] = 0
average_or_zero q (x ∷ xs) = q.average (x ∷ xs)

abbrev column : (DeviceTelemetry → Float64) → List DeviceTelemetry → List Float64
column f [] = []
column f (t ∷ ts) = f t ∷ column f ts

module _ (q : Query) where
  unfoldable pub create_group : DeviceGroup → Database → Result Database
  create_group grp db =
      exec (q.down 0)
        (not (has grp.id db.device_groups)
          && not (is_taken grp.id grp.organization_id grp.name db.device_groups)
          && has grp.organization_id db.organizations
          && has_or_null grp.parent_group_id db.device_groups)
        (record db {
          device_groups =
              put grp.id
                (record grp { policy_overrides = q.jsonb grp.policy_overrides; created_at = q.now })
                db.device_groups;
        })

  unfoldable pub get_group : Uuid → Uuid → Database → Result DeviceGroup
  get_group org_id group_id db =
      query_row (q.down 0) unauthorized (of_org org_of_group org_id (get group_id db.device_groups))

  unfoldable pub list_groups : Uuid → Database → Result (List DeviceGroup)
  list_groups org_id db = query_all (q.down 0) (
      order_by (λ g h. q.collate g.name h.name)
        (keep (λ g. g.organization_id == org_id) (values db.device_groups)))

  -- Every column is written, given or not. The name must be free where a row is updated.
  abbrev pub written : String → Option String → Option Dict → DeviceGroup → DeviceGroup
  written name desc policies grp = record grp {
    name = name;
    description = desc;
    policy_overrides = q.jsonb policies;
  }

  unfoldable pub update_group :
      Uuid → Uuid → String → Option String → Option Dict → Database → Result Database
  update_group org_id group_id name desc policies db =
      let hit = is_some (of_org org_of_group org_id (get group_id db.device_groups)) in
      exec_affecting (q.down 0 || hit && is_taken group_id org_id name db.device_groups)
        unauthorized hit
        (record db {
          device_groups = update group_id (written name desc policies) db.device_groups;
        })

  unfoldable pub delete_group : Uuid → Uuid → Database → Result Database
  unfolding deleted_with set_null
  delete_group org_id group_id db =
      let deleted = deleted_with group_id db.device_groups in
      exec_affecting (q.down 0) unauthorized
        (is_some (of_org org_of_group org_id (get group_id db.device_groups)))
        (record db {
          device_groups =
              keep (λ (row : Uuid × DeviceGroup). not (among row.0 deleted)) db.device_groups;
          group_memberships =
              keep (λ (row : Uuid × Uuid). not (among row.0 deleted)) db.group_memberships;
          enrollment_invitations = set_null deleted db.enrollment_invitations;
        })

  -- ON CONFLICT (group_id, device_id) DO NOTHING
  unfoldable pub assign_device_to_group : Uuid → Uuid → Uuid → Database → Result Database
  assign_device_to_group org_id group_id device_id db = do
    _ ← get_group org_id group_id db
    _ ← get_device (from_statement 1 q) org_id device_id db
    exec (q.down 2) true (record db {
      group_memberships =
          if any (member_row group_id device_id) db.group_memberships
          then db.group_memberships
          else (group_id, device_id) ∷ db.group_memberships;
    })

  unfoldable pub remove_device_from_group : Uuid → Uuid → Uuid → Database → Result Database
  remove_device_from_group org_id group_id device_id db = do
    _ ← get_group org_id group_id db
    exec (q.down 1) true (record db {
      group_memberships =
          keep (λ row. not (member_row group_id device_id row)) db.group_memberships;
    })

  unfoldable pub get_group_devices : Uuid → Uuid → Database → Result (List Device)
  unfolding join_members
  get_group_devices org_id group_id db = query_all (q.down 0) (
      keep (λ (d : Device). d.organization_id == org_id)
        (join_members group_id db.devices db.group_memberships))

  -- The rows that the averages are taken of.
  abbrev latest_rows : Uuid → Database → List DeviceTelemetry
  latest_rows group_id db =
      keep
        (λ (t : DeviceTelemetry).
          any (member_row group_id t.device_id) db.group_memberships
          && is_latest db.device_telemetry t)
        db.device_telemetry

  -- The devices are counted whatever their organization; the averages stay 0 on an error.
  unfoldable pub get_group_health_summary : Uuid → Uuid → Database → Result GroupHealthSummary
  unfolding join_members
  get_group_health_summary org_id group_id db = do
    grp ← get_group org_id group_id db
    let ds = join_members group_id db.devices db.group_memberships
    let rows = latest_rows group_id db
    query_all (q.down 1) (record {
      group_id = group_id;
      group_name = grp.name;
      total_devices = pos (length ds);
      online_devices = pos (length (keep (λ (d : Device). is_active d.status) ds));
      offline_devices = pos (length (keep (λ (d : Device). not (is_active d.status)) ds));
      avg_cpu_percent =
          if q.down 2 then 0 else average_or_zero q (column (λ t. t.cpu_percent) rows);
      avg_ram_percent =
          if q.down 2 then 0 else average_or_zero q (column (λ t. t.ram_percent) rows);
    })
