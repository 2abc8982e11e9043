-- ===== src/Store/Devices.antt =====
-- store.go: devices and their telemetry.
use rd_testing_project.Base.{
  ℕ, Option, none, some, List, [], ◌∷◌, ◌++◌, ◌==◌, nat_eq, keep, or_else, ℤ,
}
use rd_testing_project.Base.Maps.{get, put, update, values}
use rd_testing_project.Models.{Uuid, Time, Device, DeviceStatus, DeviceTelemetry}
use rd_testing_project.Store.{MemoryStore, Result, ok, or_not_found, of_tenant, ◌>>=◌}

unfoldable pub list_devices : Uuid → MemoryStore → Result (List Device)
list_devices org_id m = ok (keep (λ d. d.organization_id == org_id) (values m.devices))

unfoldable pub get_device : Uuid → Uuid → MemoryStore → Result Device
get_device org_id device_id m = of_tenant (λ d. d.organization_id) org_id (get device_id m.devices)

unfoldable pub update_device_status : Uuid → Uuid → DeviceStatus → MemoryStore → Result MemoryStore
update_device_status org_id device_id status m = do
  _ ← of_tenant (λ d. d.organization_id) org_id (get device_id m.devices)
  ok (record m { devices = update device_id (λ d. record d { status = status }) m.devices })

unfoldable pub register_device : Device → List ℕ → MemoryStore → Result MemoryStore
register_device dev pub_key m = ok (record m {
  devices = put dev.id dev m.devices;
  device_creds = put dev.id pub_key m.device_creds;
})

-- A missing history is the nil slice, to which `append` adds.
abbrev pub history_of : Uuid → MemoryStore → List DeviceTelemetry
history_of device_id m = or_else (get device_id m.telemetry) []

unfoldable pub save_telemetry : DeviceTelemetry → Time → MemoryStore → Result MemoryStore
save_telemetry t now m = ok (record m {
  telemetry = put t.device_id (history_of t.device_id m ++ t ∷ []) m.telemetry;
  devices = update t.device_id (λ d. record d { last_seen = some now }) m.devices;
})

abbrev pub last? {ℓ} : {A : Type ℓ} → List A → Option A
last? [] = none
last? (x ∷ []) = some x
last? (x ∷ y ∷ xs) = last? (y ∷ xs)

-- The organization is not looked at.
unfoldable pub get_latest_telemetry : Uuid → Uuid → MemoryStore → Result DeviceTelemetry
get_latest_telemetry org_id device_id m = or_not_found (last? (history_of device_id m))

-- Neither the organization nor the limit is looked at.
unfoldable pub get_telemetry_history : Uuid → Uuid → ℤ → MemoryStore → Result (List DeviceTelemetry)
get_telemetry_history org_id device_id limit m = ok (history_of device_id m)
