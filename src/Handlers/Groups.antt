-- ===== src/Handlers/Groups.antt =====
-- services/api/internal/handlers/group_handler.go
pub mod Tenancy
pub mod Frame
use rd_testing_project.Base.{
  ℕ, String, Bool, true, false, not, Option, none, some, List, [], ◌∷◌, ◌==◌, ◌||◌, string_eq,
  nat_eq, length, ℤ, pos,
}
use rd_testing_project.Models.{
  Uuid, Device, DeviceGroup, Dict, GroupHealthSummary, Value, text, number,
}
use rd_testing_project.Store.{MemoryStore, Error, Result, ok, err}
use rd_testing_project.Store.Groups.{
  create_group, get_group, list_groups, update_group, delete_group, assign_device_to_group,
  remove_device_from_group, get_group_devices, get_group_health_summary,
}
use rd_testing_project.Http.{
  Env, Request, Claims, Decoded, Handler, ◌>>=◌, ◌>>◌, respond_json, respond_error, require, check,
  fetch, peek, perform, attempt, audit, authenticated, status_ok, status_created, bad_request,
  not_found, internal_error,
}
use rd_testing_project.Http.Bodies.{
  Body, GroupListItem, GroupDetailResponse, strings, counted, group, groups, group_detail,
}

pub record CreateGroupRequest : Type 0 where
  pub name : String
  pub description : Option String
  pub parent_group_id : Option Uuid
  pub policy_overrides : Option Dict

pub record UpdateGroupRequest : Type 0 where
  pub name : String
  pub description : Option String
  pub policy_overrides : Option Dict

pub record AssignDevicesRequest : Type 0 where
  pub device_ids : List Uuid

-- x, _ := …: the zero value where there is an error
abbrev pub health_of : Result GroupHealthSummary → Option GroupHealthSummary
health_of (ok h) = some h
health_of (err e) = none

abbrev pub devices_of : Result (List Device) → List Device
devices_of (ok ds) = ds
devices_of (err e) = []

-- The loop of ListGroups.
unfoldable pub with_health : Uuid → MemoryStore → List DeviceGroup → List GroupListItem
with_health org_id m [] = []
with_health org_id m (g ∷ gs) =
    record { group = g; health = health_of (get_group_health_summary org_id g.id m) }
    ∷ with_health org_id m gs

-- The loop of AssignDevices, whose errors are dropped.
unfoldable pub assign_all : Uuid → Uuid → List Uuid → MemoryStore → MemoryStore
assign_all org_id group_id [] m = m
assign_all org_id group_id (device_id ∷ rest) m =
    assign_all org_id group_id rest
      (elim (assign_device_to_group org_id group_id device_id m) [ ok m' ↦ m' | err e ↦ m ])

-- The group that CreateGroup stores; its CreatedAt is left at the zero time.
unfoldable pub new_group : Env → Claims → CreateGroupRequest → DeviceGroup
new_group env claims req = record {
  id = env.new_id 0;
  organization_id = claims.organization_id;
  parent_group_id = req.parent_group_id;
  name = req.name;
  description = req.description;
  policy_overrides = req.policy_overrides;
  created_at = 0;
}

module _ (env : Env) (r : Request) where
  unfoldable pub list_groups_handler : Handler
  unfolding with_health
  list_groups_handler = do
    claims ← authenticated r
    found ←
        fetch (list_groups claims.organization_id)
          (λ _. respond_error internal_error "Failed to list groups")
    λ m. respond_json status_ok (groups (with_health claims.organization_id m found)) m

  unfoldable pub create_group_handler : Decoded CreateGroupRequest → Handler
  unfolding new_group
  create_group_handler body = do
    claims ← authenticated r
    check (not (body.failed || body.value.name == "")) bad_request
        "Invalid JSON payload or missing group name"
    let grp = new_group env claims body.value
    perform (create_group grp) internal_error "Failed to create group"
    audit r (env.now 0) claims.organization_id (some claims.user_id) "group.created" "device_group"
        (env.uuid_text (env.new_id 0)) "SUCCESS" (some (("group_name", text body.value.name) ∷ []))
    respond_json status_created (group grp)

  unfoldable pub get_group_handler : Handler
  get_group_handler = do
    claims ← authenticated r
    group_id ← require (env.parse_uuid (r.path_value "id")) bad_request "Invalid group ID format"
    grp ←
        fetch (get_group claims.organization_id group_id)
          (λ _. respond_error not_found "Group not found in organization")
    health ← peek (get_group_health_summary claims.organization_id group_id)
    devices ← peek (get_group_devices claims.organization_id group_id)
    respond_json status_ok (
        group_detail
          (record { group = grp; health = health_of health; devices = devices_of devices }))

  unfoldable pub update_group_handler : Decoded UpdateGroupRequest → Handler
  update_group_handler body = do
    claims ← authenticated r
    group_id ← require (env.parse_uuid (r.path_value "id")) bad_request "Invalid group ID format"
    check (not body.failed) bad_request "Invalid JSON payload"
    let req = body.value
    perform
        (update_group claims.organization_id group_id req.name req.description req.policy_overrides)
        not_found "Group not found or update failed"
    audit r (env.now 0) claims.organization_id (some claims.user_id) "group.updated" "device_group"
        (env.uuid_text group_id) "SUCCESS" none
    respond_json status_ok (strings (("message", "Group successfully updated") ∷ []))

  unfoldable pub delete_group_handler : Handler
  delete_group_handler = do
    claims ← authenticated r
    group_id ← require (env.parse_uuid (r.path_value "id")) bad_request "Invalid group ID format"
    perform (delete_group claims.organization_id group_id) not_found
        "Group not found in organization"
    audit r (env.now 0) claims.organization_id (some claims.user_id) "group.deleted" "device_group"
        (env.uuid_text group_id) "SUCCESS" none
    respond_json status_ok (strings (("message", "Group successfully deleted") ∷ []))

  unfoldable pub assign_devices : Decoded AssignDevicesRequest → Handler
  assign_devices body = do
    claims ← authenticated r
    group_id ← require (env.parse_uuid (r.path_value "id")) bad_request "Invalid group ID format"
    check (not (body.failed || length body.value.device_ids == 0)) bad_request
        "Invalid JSON payload or empty device_ids list"
    let n = length body.value.device_ids
    (λ k m. k tt (assign_all claims.organization_id group_id body.value.device_ids m))
    audit r (env.now 0) claims.organization_id (some claims.user_id) "group.assign_device"
        "device_group" (env.uuid_text group_id) "SUCCESS"
        (some (("devices_assigned", number (pos n)) ∷ []))
    respond_json status_ok (counted "Devices assigned to group" "assigned" n)

  unfoldable pub remove_device : Handler
  remove_device = do
    claims ← authenticated r
    group_id ← require (env.parse_uuid (r.path_value "id")) bad_request "Invalid group ID format"
    dev_id ←
        require (env.parse_uuid (r.path_value "deviceId")) bad_request "Invalid device ID format"
    perform (remove_device_from_group claims.organization_id group_id dev_id) not_found
        "Device or group not found"
    audit r (env.now 0) claims.organization_id (some claims.user_id) "group.remove_device"
        "device_group" (env.uuid_text group_id) "SUCCESS"
        (some (("device_id", text (env.uuid_text dev_id)) ∷ []))
    respond_json status_ok (strings (("message", "Device removed from group") ∷ []))
