-- ===== src/Tests/Groups.antt =====
-- Groups of the fleet.
use rd_testing_project.Base.{
  ◌+◌, ◌≡◌, refl, true, none, some, [], ◌∷◌, arith, nat_eq, string_eq, pos,
}
use rd_testing_project.Base.Maps.{get, put}
use rd_testing_project.Models.{Uuid, DeviceGroup, GroupHealthSummary, pending}
use rd_testing_project.Store.{MemoryStore, ok}
use rd_testing_project.Store.Groups.{
  assign_device_to_group, get_group_devices, get_group_health_summary, member_devices,
}
use rd_testing_project.Store.Groups.Health.{get_group_health_summary_lem}
use rd_testing_project.Http.{Request, status_ok}
use rd_testing_project.Handlers.Groups.{UpdateGroupRequest, delete_group_handler}
use rd_testing_project.Handlers.Groups.Tenancy.{delete_group_any_tenant}
use rd_testing_project.Tests.Fixtures.{env, request, claims_of, fleet, device_of}

abbrev lab : DeviceGroup
lab = record {
  id = 51;
  organization_id = 1;
  parent_group_id = none;
  name = "Lab";
  description = none;
  policy_overrides = none;
  created_at = 2;
}

-- The group has the pending device 11, and device 13 of the other organization.
abbrev grouped : MemoryStore
grouped = record fleet {
  groups = (51, lab) ∷ [];
  group_members = (51, (11, true) ∷ (13, true) ∷ []) ∷ [];
}

abbrev by : Uuid → Request
by org_id = request (some (claims_of org_id [])) (λ _. "group")

abbrev rename : UpdateGroupRequest
rename = record { name = "Exam lab"; description = none; policy_overrides = none }

abbrev with_12 : MemoryStore
with_12 = record grouped { group_members = (51, (11, true) ∷ (13, true) ∷ (12, true) ∷ []) ∷ [] }

assigned : assign_device_to_group 1 51 12 grouped ≡ ok with_12
unfolding assign_device_to_group get put
assigned = refl

listed : get_group_devices 1 51 grouped ≡ ok (device_of 11 1 pending ∷ [])
unfolding get_group_devices member_devices get
listed = refl

get_group_health_summary_lem_example :
    (s : GroupHealthSummary) × (get_group_health_summary 1 51 grouped ≡ ok s)
    × (s.total_devices ≡ pos 1)
    × (s.online_devices ≡ pos 0)
    × (s.offline_devices ≡ pos 1)
    × (0 + 1 ≡ 1)
get_group_health_summary_lem_example =
    get_group_health_summary_lem 1 51 grouped (device_of 11 1 pending ∷ []) listed (omega arith)

delete_group_any_tenant_example :
    (get 51 (delete_group_handler env (by 2) grouped).1.groups ≡ none)
    × (get 51 (delete_group_handler env (by 2) grouped).1.group_members ≡ none)
    × ((delete_group_handler env (by 2) grouped).0.status ≡ status_ok)
delete_group_any_tenant_example =
    delete_group_any_tenant env (by 2) grouped (claims_of 2 []) 51 refl refl
