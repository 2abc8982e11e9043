-- ===== src/Fleet/Memory.antt =====
-- store.go: MemoryStore keeps the promises of a store about its devices.
use rd_testing_project.Base.{
  ◌≡◌, inl, inr, Option, none, some, ◌==◌, nat_eq, fun_ext, arith, Option-cases, Bool-cases,
}
use rd_testing_project.Base.Maps.{get, update, get-update}
use rd_testing_project.Models.{Uuid, Device, DeviceStatus}
use rd_testing_project.Store.{MemoryStore, not_found}
use rd_testing_project.Store.Devices.{get_device, update_device_status}
use rd_testing_project.Fleet.{
  Registry, DeviceStore, UpdateOutcome, refused, updated, status_for, status_of,
}

abbrev pub entry : Option Device → Option (Uuid × DeviceStatus)
entry none = none
entry (some d) = some (d.organization_id, d.status)

abbrev pub memory_view : MemoryStore → Registry
memory_view m device_id = entry (get device_id m.devices)

pub get_device_lem :
    (org_id device_id : Uuid) (m : MemoryStore)
    → status_of (get_device org_id device_id m) ≡ status_for org_id (memory_view m device_id)
unfolding get_device
get_device_lem org_id device_id m = ground arith

pub update_device_status_lem :
    (org_id device_id : Uuid) (status : DeviceStatus) (m : MemoryStore)
    → UpdateOutcome memory_view org_id device_id status m
        (update_device_status org_id device_id status m)
unfolding update_device_status
update_device_status_lem org_id device_id status m = elim (Option-cases (get device_id m.devices)) [
  | inl e ↦ refused not_found (ground arith) (ground arith)
  | inr (d, e) ↦ elim (Bool-cases (d.organization_id == org_id)) [
    | inl mine ↦
        updated d.status
          (record m { devices = update device_id (λ d. record d { status = status }) m.devices })
          (ground arith) (ground arith)
          (fun_ext (λ j. ground (
            arith,
            nat_eq.same_iff d.organization_id org_id,
            nat_eq.same_iff device_id j,
            get-update j device_id (λ d. record d { status = status }) m.devices,
          )))
    | inr other ↦ refused not_found (ground arith) (ground arith)
  ]
]

abbrev pub memory_devices : DeviceStore MemoryStore
memory_devices = record {
  view = memory_view;
  get_device = get_device;
  update_device_status = update_device_status;
  get_device_lem = get_device_lem;
  update_device_status_lem = update_device_status_lem;
}
