-- ===== src/Store/Groups.antt =====
-- store.go: device groups, their members and their health.
pub mod Health
pub mod Members
use rd_testing_project.Base.{
  String, Bool, true, Option, none, some, List, [], ◌∷◌, ◌==◌, ◌!=◌, nat_eq, string_eq, keep,
  is_some, or_else, if◌then◌else◌, pos, int_inc,
}
use rd_testing_project.Base.Maps.{Map, get, put, update, delete, values}
use rd_testing_project.Models.{Uuid, Device, DeviceGroup, Dict, GroupHealthSummary, is_active}
use rd_testing_project.Store.{MemoryStore, Result, ok, or_not_found, of_tenant, ◌>>=◌}

unfoldable pub create_group : DeviceGroup → MemoryStore → Result MemoryStore
create_group grp m =
    ok
      (record m { groups = put grp.id grp m.groups; group_members = put grp.id [] m.group_members })

unfoldable pub get_group : Uuid → Uuid → MemoryStore → Result DeviceGroup
get_group org_id group_id m = of_tenant (λ g. g.organization_id) org_id (get group_id m.groups)

unfoldable pub list_groups : Uuid → MemoryStore → Result (List DeviceGroup)
list_groups org_id m = ok (keep (λ g. g.organization_id == org_id) (values m.groups))

-- Each field is written only if it is given.
unfoldable pub patch_group : String → Option String → Option Dict → DeviceGroup → DeviceGroup
patch_group name desc policies grp = record grp {
  name = if name != "" then name else grp.name;
  description = if is_some desc then desc else grp.description;
  policy_overrides = if is_some policies then policies else grp.policy_overrides;
}

unfoldable pub update_group :
    Uuid → Uuid → String → Option String → Option Dict → MemoryStore → Result MemoryStore
update_group org_id group_id name desc policies m = do
  _ ← of_tenant (λ g. g.organization_id) org_id (get group_id m.groups)
  ok (record m { groups = update group_id (patch_group name desc policies) m.groups })

-- The organization is not looked at.
unfoldable pub delete_group : Uuid → Uuid → MemoryStore → Result MemoryStore
delete_group org_id group_id m = ok (record m {
  groups = delete group_id m.groups;
  group_members = delete group_id m.group_members;
})

-- The nil map where the group has no entry.
abbrev pub members_of : Uuid → MemoryStore → Map Uuid Bool
members_of group_id m = or_else (get group_id m.group_members) []

-- Neither the group's nor the device's organization is looked at.
unfoldable pub assign_device_to_group : Uuid → Uuid → Uuid → MemoryStore → Result MemoryStore
assign_device_to_group org_id group_id device_id m = do
  _ ← or_not_found (get group_id m.groups)
  _ ← or_not_found (get device_id m.devices)
  ok (record m {
    group_members = put group_id (put device_id true (members_of group_id m)) m.group_members;
  })

-- The organization is not looked at.
unfoldable pub remove_device_from_group : Uuid → Uuid → Uuid → MemoryStore → Result MemoryStore
remove_device_from_group org_id group_id device_id m =
    ok (record m { group_members = update group_id (delete device_id) m.group_members })

-- for dID := range members { if dev exists && dev.OrganizationID == orgID }
unfoldable pub member_devices : Uuid → Map Uuid Device → Map Uuid Bool → List Device
member_devices org_id devices [] = []
member_devices org_id devices ((id, _) ∷ members) =
    let rest = member_devices org_id devices members in
    elim (get id devices) [
      | none ↦ rest
      | some dev ↦ if dev.organization_id == org_id then dev ∷ rest else rest
    ]

unfoldable pub get_group_devices : Uuid → Uuid → MemoryStore → Result (List Device)
unfolding member_devices
get_group_devices org_id group_id m = ok (member_devices org_id m.devices (members_of group_id m))

-- The body of the loop of GetGroupHealthSummary for one device.
unfoldable pub count_device : GroupHealthSummary → Device → GroupHealthSummary
count_device summary dev =
    let s = record summary { total_devices = int_inc summary.total_devices } in
    if is_active dev.status
    then record s { online_devices = int_inc s.online_devices }
    else record s { offline_devices = int_inc s.offline_devices }

unfoldable pub count_members :
    Uuid → Map Uuid Device → GroupHealthSummary → Map Uuid Bool → GroupHealthSummary
count_members org_id devices summary [] = summary
count_members org_id devices summary ((id, _) ∷ members) =
    count_members org_id devices
      (elim (get id devices) [
        | none ↦ summary
        | some dev ↦ if dev.organization_id == org_id then count_device summary dev else summary
      ])
      members

abbrev group_name_of : Option DeviceGroup → String
group_name_of none = ""
group_name_of (some grp) = grp.name

abbrev pub empty_summary : Uuid → String → GroupHealthSummary
empty_summary group_id name = record {
  group_id = group_id;
  group_name = name;
  total_devices = pos 0;
  online_devices = pos 0;
  offline_devices = pos 0;
  avg_cpu_percent = 0;
  avg_ram_percent = 0;
}

unfoldable pub get_group_health_summary : Uuid → Uuid → MemoryStore → Result GroupHealthSummary
unfolding count_members count_device
get_group_health_summary org_id group_id m = ok (
    count_members org_id m.devices (empty_summary group_id (group_name_of (get group_id m.groups)))
      (members_of group_id m))
